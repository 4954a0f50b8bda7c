-- ===== src/Api/Transport/Traffic.antt =====
-- What the write handler was told, and what waits in the deque.
use easy_lo_ra_reforged.Base.{ℕ, ◌≡◌, refl, false, List, [], ◌∷◌, ◌++◌, some, ap}
use easy_lo_ra_reforged.Api.Types.{written, failed, cancelled}
use easy_lo_ra_reforged.Api.Boost.{Boost}
use easy_lo_ra_reforged.Api.Transport.{
  Pimpl, Call, frame_call, fatal_call, recuperable_call, write_call,
}

-- The packets that the write handler was told of as written, oldest first.
abbrev pub written_ids : List Call → List ℕ
written_ids [] = []
written_ids (write_call h written id ∷ calls) = id ∷ written_ids calls
written_ids (write_call h failed id ∷ calls) = written_ids calls
written_ids (write_call h cancelled id ∷ calls) = written_ids calls
written_ids (frame_call h frame ∷ calls) = written_ids calls
written_ids (fatal_call h error ∷ calls) = written_ids calls
written_ids (recuperable_call h error ∷ calls) = written_ids calls

pub written_ids-append :
    (xs ys : List Call) → written_ids (xs ++ ys) ≡ written_ids xs ++ written_ids ys
written_ids-append [] ys = refl
written_ids-append (write_call h written id ∷ xs) ys = ap (◌∷◌ id) (written_ids-append xs ys)
written_ids-append (write_call h failed id ∷ xs) ys = written_ids-append xs ys
written_ids-append (write_call h cancelled id ∷ xs) ys = written_ids-append xs ys
written_ids-append (frame_call h frame ∷ xs) ys = written_ids-append xs ys
written_ids-append (fatal_call h error ∷ xs) ys = written_ids-append xs ys
written_ids-append (recuperable_call h error ∷ xs) ys = written_ids-append xs ys

abbrev pub deque_ids : List (List ℕ × ℕ) → List ℕ
deque_ids [] = []
deque_ids ((bytes, id) ∷ rest) = id ∷ deque_ids rest

pub deque_ids-append :
    (xs : List (List ℕ × ℕ)) (bytes : List ℕ) (id : ℕ)
    → deque_ids (xs ++ (bytes, id) ∷ []) ≡ deque_ids xs ++ id ∷ []
deque_ids-append [] bytes id = refl
deque_ids-append ((b, i) ∷ xs) bytes id = ap (◌∷◌ i) (deque_ids-append xs bytes id)

module _ (B : Boost) where
  -- Running, and with a write handler.
  abbrev pub IsServed : Pimpl B → ℕ → Type 0
  IsServed p h = (p.closing ≡ false) × (p.stopped ≡ false) × (p.write_handler ≡ some h)
