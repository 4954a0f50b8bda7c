-- ===== src/Api/Ownership/Closing.antt =====
-- Which transports are closed in the end: over every sequence of constructions, moves, assignments and
-- destructions.
use easy_lo_ra_reforged.Base.{
  ℕ, zero, suc, ◌+◌, ◌<◌, ◌≡◌, refl, ap, Bool-cases, false, inl, inr, Option, none, some, List, [],
  ◌∷◌, ◌++◌, arith, length, length-set, set, get_or, ◌==◌, ltb, if◌then◌else◌,
}
use easy_lo_ra_reforged.Api.Transport.Counting.{one_if, count, count-append}
use easy_lo_ra_reforged.Api.Ownership.{
  Owners, pimpl_m, construct, move_construct, move_assign, destroy,
}

-- One step of the user's program.
pub data Step (p : Owners) : Owners → Type 0 where
  constructs : Step p (construct p)
  moves : (other : ℕ) → other < length p.objects → Step p (move_construct other p)
  assigns :
      (this other : ℕ)
      → this < length p.objects
      → other < length p.objects
      → Step p (move_assign this other p)
  destroys : (this : ℕ) → this < length p.objects → Step p (destroy this p)

pub data Reach (s : Owners) : Owners → Type 0 where
  here : Reach s s
  next : {t u : Owners} → Reach s t → Step t u → Reach s u

abbrev pub begin : Owners
begin = record { objects = []; made = 0; requested = [] }

abbrev pub some_id : Option ℕ → List ℕ
some_id none = []
some_id (some k) = k ∷ []

-- What an assignment drops: the pointer that the object had.
abbrev pub step_dropped : {s t : Owners} → Step s t → List ℕ
step_dropped {s} (assigns this other h k) = if this == other then [] else some_id (pimpl_m s this)
step_dropped _ = []

abbrev pub dropped : {s t : Owners} → Reach s t → List ℕ
dropped here = []
dropped (next r st) = dropped r ++ step_dropped st

-- How many objects hold a `Pimpl`.
abbrev pub holds : ℕ → Option ℕ → ℕ
holds k none = 0
holds k (some j) = one_if (j == k)

abbrev pub holders : ℕ → List (Option ℕ) → ℕ
holders k [] = 0
holders k (o ∷ os) = holds k o + holders k os

holders-append :
    (k : ℕ) (xs ys : List (Option ℕ)) → holders k (xs ++ ys) ≡ holders k xs + holders k ys
holders-append k [] ys = omega arith
holders-append k (o ∷ xs) ys = omega (arith, holders-append k xs ys)

-- A pointer is replaced.
holders-set :
    (k : ℕ) (xs : List (Option ℕ)) (i : ℕ) (v : Option ℕ)
    → i < length xs
    → holders k (set xs i v) + holds k (get_or xs i none) ≡ holders k xs + holds k v
holders-set k [] i v h = absurd (omega arith)
holders-set k (o ∷ xs) zero v h = omega arith
holders-set k (o ∷ xs) (suc i) v h = omega (arith, holders-set k xs i v (omega arith))

get_or-set_ne :
    (xs : List (Option ℕ)) (i j : ℕ) (v : Option ℕ)
    → (i == j) ≡ false
    → get_or (set xs j v) i none ≡ get_or xs i none
get_or-set_ne [] i j v h = refl
get_or-set_ne (o ∷ xs) zero zero v h = cc
get_or-set_ne (o ∷ xs) zero (suc j) v h = refl
get_or-set_ne (o ∷ xs) (suc i) zero v h = refl
get_or-set_ne (o ∷ xs) (suc i) (suc j) v h = get_or-set_ne xs i j v (ground arith)

-- Held, or its close requested.
abbrev kept : ℕ → Owners → ℕ
kept k p = holders k p.objects + count k p.requested

count-some_id : (k : ℕ) (o : Option ℕ) → count k (some_id o) ≡ holds k o
count-some_id k none = refl
count-some_id k (some j) = omega arith

one_more : (k n : ℕ) → one_if (ltb k (n + 1)) ≡ one_if (ltb k n) + one_if (n == k)
one_more k n = ground arith

construct-kept : (k : ℕ) (p : Owners) → kept k (construct p) ≡ kept k p + one_if (p.made == k)
unfolding construct
construct-kept k p = omega (arith, holders-append k p.objects (some p.made ∷ []))

move_construct-kept :
    (k other : ℕ) (p : Owners)
    → other < length p.objects
    → kept k (move_construct other p) ≡ kept k p
unfolding move_construct
move_construct-kept k other p h = omega (
  arith,
  holders-append k (set p.objects other none) (pimpl_m p other ∷ []),
  holders-set k p.objects other none h,
)

move_assign-kept :
    (k this other : ℕ) (p : Owners)
    → this < length p.objects
    → other < length p.objects
    → kept k (move_assign this other p)
        + count k (if this == other then [] else some_id (pimpl_m p this))
      ≡ kept k p
unfolding move_assign
move_assign-kept k this other p h h' = elim (Bool-cases (this == other)) [
  | inl same ↦ rw same (omega arith)
  | inr two ↦
      let moved = set p.objects other none in
      rw two (
        omega (
          arith,
          count-some_id k (pimpl_m p this),
          ap (holds k) (get_or-set_ne p.objects this other none two),
          holders-set k p.objects other none h',
          holders-set k moved this (pimpl_m p other)
              (omega (arith, length-set p.objects other none)),
        ))
]

destroy-kept :
    (k this : ℕ) (p : Owners) → this < length p.objects → kept k (destroy this p) ≡ kept k p
unfolding destroy
destroy-kept k this p h = go (pimpl_m p this) refl
  where
    go : (o : Option ℕ) → pimpl_m p this ≡ o → kept k (destroy this p) ≡ kept k p
    go none e = rw (e, destroy) refl
    go (some j) e =
        rw (e, destroy)
          (omega (
            arith,
            ap (holds k) e,
            holders-set k p.objects this none h,
            count-append k p.requested (j ∷ []),
          ))

move_assign-made : (this other : ℕ) (p : Owners) → (move_assign this other p).made ≡ p.made
unfolding move_assign
move_assign-made this other p = ground arith

destroy-made : (this : ℕ) (p : Owners) → (destroy this p).made ≡ p.made
unfolding destroy
destroy-made this p = ground arith

abbrev is_made : ℕ → Owners → ℕ
is_made k p = one_if (ltb k p.made)

Step-kept :
    (k : ℕ) {s t : Owners} (st : Step s t)
    → kept k t + count k (step_dropped st) + is_made k s ≡ kept k s + is_made k t
unfolding construct move_construct
Step-kept k {s} constructs = omega (arith, construct-kept k s, one_more k s.made)
Step-kept k {s} (moves other h) = omega (arith, move_construct-kept k other s h)
Step-kept k {s} (assigns this other h h') =
    rw (move_assign-made this other s) (omega (arith, move_assign-kept k this other s h h'))
Step-kept k {s} (destroys this h) =
    rw (destroy-made this s) (omega (arith, destroy-kept k this s h))

-- Whatever the program does with its objects, each `Pimpl` that was made is held by one object, or its
-- close has been requested once, or one assignment has dropped it: none is closed twice, none is shared,
-- and one that a move assignment drops is held by no object and never closed.
pub Reach-kept :
    {t : Owners} (r : Reach begin t) (k : ℕ)
    → holders k t.objects + count k t.requested + count k (dropped r) ≡ one_if (ltb k t.made)
Reach-kept here k = ground arith
Reach-kept (next r st) k =
    omega (arith, Step-kept k st, Reach-kept r k, count-append k (dropped r) (step_dropped st))
