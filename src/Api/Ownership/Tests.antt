-- ===== src/Api/Ownership/Tests.antt =====
-- A transport that is moved into another object, over the transport that this one had.
use easy_lo_ra_reforged.Base.{◌+◌, ◌≡◌, refl, none, [], ◌∷◌, arith}
use easy_lo_ra_reforged.Api.Transport.Counting.{count}
use easy_lo_ra_reforged.Api.Ownership.{Owners, construct, move_assign, destroy}
use easy_lo_ra_reforged.Api.Ownership.Closing.{
  begin, Reach, here, next, constructs, assigns, destroys, holders, dropped, Reach-kept,
}

assigned : Owners
assigned = record { objects = none ∷ none ∷ []; made = 2; requested = 1 ∷ [] }

-- Two transports; the second is assigned to the first object, which is destroyed: transport 0 is dropped.
assigned_Reach : Reach begin assigned
unfolding construct move_assign destroy assigned
assigned_Reach =
    next (next (next (next here constructs) constructs) (assigns 0 1 (omega arith) (omega arith)))
      (destroys 0 (omega arith))

Reach-kept_example :
    holders 0 (none ∷ none ∷ []) + count 0 (1 ∷ []) + count 0 (dropped assigned_Reach) ≡ 1
unfolding assigned
Reach-kept_example = Reach-kept assigned_Reach 0

never_closed : dropped assigned_Reach ≡ 0 ∷ []
unfolding assigned_Reach assigned
never_closed = refl
