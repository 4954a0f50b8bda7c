-- ===== src/Api/Transport/Exclusion.antt =====
-- At most one write and one read of the current session are under way.
use easy_lo_ra_reforged.Base.{ℕ, ◌+◌, ◌^◌, ◌<◌, ◌≡◌, false, List, ◌∷◌, arith, ◌⊎◌, if◌then◌else◌}
use easy_lo_ra_reforged.Api.Boost.{Boost}
use easy_lo_ra_reforged.Api.Transport.{Pimpl, returned, thrown, is_empty}
use easy_lo_ra_reforged.Api.Transport.Strand.{Task, open_task, write_task, exec}
use easy_lo_ra_reforged.Api.Transport.Counting.{count, is_read, is_write, total}
use easy_lo_ra_reforged.Api.Transport.Lifecycle.{IsConsistent}

module _ (B : Boost) where
  open B use {ErrorCode}

  abbrev pub busy : List (List ℕ × ℕ) → ℕ
  busy deque = if is_empty deque then 0 else 1

  -- Reads and writes of generation `g` that are in flight or posted.
  abbrev pub reads_of : Pimpl B → List (Task B) → ℕ → ℕ
  reads_of p queue g = count g p.reads + total B (is_read B g) queue

  abbrev pub writes_of : Pimpl B → List (Task B) → ℕ → ℕ
  writes_of p queue g = count g p.writes + total B (is_write B g) queue

  -- No write is under way for a generation to come, and while the transport runs one is under way for
  -- the current one exactly if the deque holds a message.
  pub record OneWrite (p : Pimpl B) (queue : List (Task B)) : Type 0 where
    pub future : (g : ℕ) → p.generation < g → writes_of p queue g ≡ 0
    pub exclusive : p.stopped ≡ false → writes_of p queue p.generation ≡ busy p.tx_deque

  -- A write that completes with an error of reading would break it.
  abbrev pub NoReadError : Task B → Type 0
  NoReadError (write_task ec n g) = B.is_not_found ec ≡ false
  NoReadError _ = Unit {0}

  pub result-OneWrite :
      (p q : Pimpl B) (t : Task B) (rest : List (Task B))
      → IsConsistent B p
      → p.generation + 1 < 2 ^ 64
      → NoReadError t
      → OneWrite p (t ∷ rest)
      → (exec B p t ≡ returned q) ⊎ (exec B p t ≡ thrown q)
      → OneWrite q rest
  unfolding exec
  result-OneWrite p q (open_task path c b) rest v w n o e = record {
    future = λ g h. ground (arith, o.future g);
    exclusive = λ h. ground (arith, o.future (p.generation + 1));
  }
  result-OneWrite p q t rest v w n o e = record {
    future = λ g h. ground (arith, o.future g);
    exclusive = λ h. ground (arith, o.future (p.generation + 1));
  }

  -- The same for reads: while the transport runs, exactly one read of the current session is under way.
  pub record OneRead (p : Pimpl B) (queue : List (Task B)) : Type 0 where
    pub future : (g : ℕ) → p.generation < g → reads_of p queue g ≡ 0
    pub exclusive : p.stopped ≡ false → reads_of p queue p.generation ≡ 1

  pub result-OneRead :
      (p q : Pimpl B) (t : Task B) (rest : List (Task B))
      → IsConsistent B p
      → p.generation + 1 < 2 ^ 64
      → NoReadError t
      → OneRead p (t ∷ rest)
      → (exec B p t ≡ returned q) ⊎ (exec B p t ≡ thrown q)
      → OneRead q rest
  unfolding exec
  result-OneRead p q (open_task path c b) rest v w n o e = record {
    future = λ g h. ground (arith, o.future g);
    exclusive = λ h. ground (arith, o.future (p.generation + 1));
  }
  result-OneRead p q t rest v w n o e = record {
    future = λ g h. ground (arith, o.future g);
    exclusive = λ h. ground (arith, o.future (p.generation + 1));
  }
