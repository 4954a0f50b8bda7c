-- ===== src/Api/Ownership.antt =====
-- api/include/SerialTransport.hpp: the life of the objects of class `BasicSerialTransport`. Each holds a
-- `Pimpl` by a shared pointer, or null, once it has been moved from.
pub mod Closing
mod Tests
use easy_lo_ra_reforged.Base.{
  ℕ, ◌+◌, Option, none, some, List, [], ◌∷◌, ◌++◌, set, get_or, ◌==◌, if◌then◌else◌,
}

-- `objects` has the `pimpl_m` of each object that was constructed, in the order of construction, a
-- destroyed object's being null; `made` counts the `Pimpl`s made, which are numbered; `requested` lists
-- those whose `requestClose` was called, oldest first.
pub record Owners : Type 0 where
  pub objects : List (Option ℕ)
  pub made : ℕ
  pub requested : List ℕ

-- `pimpl_m` of an object.
abbrev pub pimpl_m : Owners → ℕ → Option ℕ
pimpl_m p i = get_or p.objects i none

-- The constructor makes a `Pimpl` of its own.
unfoldable pub construct : Owners → Owners
construct p = record p { objects = p.objects ++ some p.made ∷ []; made = p.made + 1 }

-- The defaulted move constructor: the new object takes the pointer, the other is left with null.
unfoldable pub move_construct : ℕ → Owners → Owners
move_construct other p = record p { objects = set p.objects other none ++ pimpl_m p other ∷ [] }

-- The defaulted move assignment: the pointer that the object had is dropped; an object that is assigned
-- to itself keeps it.
unfoldable pub move_assign : ℕ → ℕ → Owners → Owners
move_assign this other p =
    if this == other
    then p
    else record p { objects = set (set p.objects other none) this (pimpl_m p other) }

-- `requestClose`: the close is posted to the strand of the `Pimpl`.
request_close : ℕ → Owners → Owners
request_close k p = record p { requested = p.requested ++ k ∷ [] }

-- The destructor.
unfoldable pub destroy : ℕ → Owners → Owners
unfolding request_close
destroy this p = elim (pimpl_m p this) [
  | none ↦ p
  | some k ↦ request_close k (record p { objects = set p.objects this none })
]
