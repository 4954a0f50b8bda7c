-- ===== src/Api/Transport/Counting.antt =====
-- How many operations of a generation are under way: in flight, or completed and posted.
use easy_lo_ra_reforged.Base.{ℕ, ◌+◌, ◌≡◌, Bool, true, false, List, [], ◌∷◌, ◌++◌, arith, ◌==◌}
use easy_lo_ra_reforged.Api.Boost.{Boost}
use easy_lo_ra_reforged.Api.Transport.Strand.{Task, enqueue_task, read_task, write_task}

abbrev pub one_if : Bool → ℕ
one_if true = 1
one_if false = 0

abbrev pub count : ℕ → List ℕ → ℕ
count g [] = 0
count g (x ∷ xs) = one_if (x == g) + count g xs

pub count-append : (g : ℕ) (xs ys : List ℕ) → count g (xs ++ ys) ≡ count g xs + count g ys
count-append g [] ys = omega arith
count-append g (x ∷ xs) ys = omega (arith, count-append g xs ys)

module _ (B : Boost) where
  abbrev pub is_read : ℕ → Task B → ℕ
  is_read g (read_task ec n h) = one_if (h == g)
  is_read g _ = 0

  abbrev pub is_write : ℕ → Task B → ℕ
  is_write g (write_task ec n h) = one_if (h == g)
  is_write g _ = 0

  abbrev pub is_enqueue : Task B → ℕ
  is_enqueue (enqueue_task bytes id) = 1
  is_enqueue _ = 0

  -- A sum over the posted tasks.
  abbrev pub total : (Task B → ℕ) → List (Task B) → ℕ
  total f [] = 0
  total f (t ∷ ts) = f t + total f ts

  pub total-append :
      (f : Task B → ℕ) (ts us : List (Task B)) → total f (ts ++ us) ≡ total f ts + total f us
  total-append f [] us = omega arith
  total-append f (t ∷ ts) us = omega (arith, total-append f ts us)
