-- ===== src/Api/Transport/Backpressure.antt =====
-- `pendingWrites`, the counter by which `asyncWrite` limits the messages that wait.
pub mod Underflow
use Prim.Native.String.{String}
use easy_lo_ra_reforged.Base.{
  ℕ, ◌+◌, ◌-◌, ◌^◌, ◌<◌, ◌≤◌, ◌≡◌, refl, true, false, List, [], ◌∷◌, ◌++◌, not, ◌&&◌, if◌then◌else◌,
  none, some, arith, ◌⊎◌, length, ap, length-append,
}
use easy_lo_ra_reforged.Api.Types.{written, scheduled, queue_full, SerialConfig, BufferConfig}
use easy_lo_ra_reforged.Api.Boost.{Boost}
use easy_lo_ra_reforged.Api.Transport.{
  Pimpl, returned, thrown, ◌>>=◌, init, configure, increment, open_state, write_call,
}
use easy_lo_ra_reforged.Api.Transport.Handlers.{check_write, reserve}
use easy_lo_ra_reforged.Api.Transport.Strand.{
  Task, open_task, enqueue_task, read_task, write_task, exec, async_write, Leaves-cases, System,
  Step, posts, checks, reserves, enqueues, reads, writes, runs, start, IsMethod, opens, closes,
  sets_frame_handler, sets_fatal_error_handler, sets_recuperable_error_handler, sets_write_handler,
}
use easy_lo_ra_reforged.Api.Transport.Counting.{is_enqueue, total, total-append}
use easy_lo_ra_reforged.Api.Transport.Lifecycle.{IsConsistent}
use easy_lo_ra_reforged.Api.Transport.Exclusion.{OneWrite, NoReadError}
use easy_lo_ra_reforged.Api.Transport.Sessions.{IsSound, Step-IsSound, AllClean, History-IsSound}
use easy_lo_ra_reforged.Api.Transport.Sessions

module _ (B : Boost) where
  open B use {Stream}

  -- The counter against the calls that hold a place: past the loop, posted, or in the deque; and the
  -- messages that the end of a session has discarded, `lost`, which keep theirs until the next `open`.
  pub record IsCounted (p : Pimpl B) (queue : List (Task B)) (reserved lost : ℕ) : Type 0 where
    pub counted :
        p.pending_writes ≡ reserved + total B (is_enqueue B) queue + length p.tx_deque + lost
    pub running : p.stopped ≡ false → lost ≡ 0
    pub limited : p.pending_writes ≤ p.buffer_config.tx_max_elements_in_queue
    pub fits : p.buffer_config.tx_max_elements_in_queue < 2 ^ 64

  -- How many messages a task discards without a report of its own: all in the deque if it ends the session,
  -- but the one whose write has failed; an `open` starts the count again.
  abbrev pub task_lost : (p q : Pimpl B) → Task B → ℕ → ℕ
  task_lost p q (open_task path c b) lost = if p.closing then lost else 0
  task_lost p q (write_task ec n g) lost =
      if not p.stopped && q.stopped then lost + (length p.tx_deque - 1) else lost
  task_lost p q t lost = if not p.stopped && q.stopped then lost + length p.tx_deque else lost

  -- An `open` that finds no call of `asyncWrite` between its reservation and its turn on the strand.
  abbrev pub IsQuiet : Task B → List (Task B) → ℕ → Type 0
  IsQuiet (open_task path c b) rest reserved =
      (reserved ≡ 0) × (total B (is_enqueue B) rest ≡ 0) × (b.tx_max_elements_in_queue < 2 ^ 64)
  IsQuiet _ rest reserved = Unit {0}

  result-IsCounted :
      (p q : Pimpl B) (t : Task B) (rest : List (Task B)) (reserved lost : ℕ)
      → IsConsistent B p
      → OneWrite B p (t ∷ rest)
      → NoReadError B t
      → IsQuiet t rest reserved
      → IsCounted p (t ∷ rest) reserved lost
      → (exec B p t ≡ returned q) ⊎ (exec B p t ≡ thrown q)
      → IsCounted q rest reserved (task_lost p q t lost)
  unfolding exec
  result-IsCounted p q (open_task path c b) rest r lost v o w n k e = ground arith
  result-IsCounted p q (enqueue_task bytes id) rest r lost v o w n k e =
      ground (arith, length-append p.tx_deque ((bytes, id) ∷ []))
  result-IsCounted p q t rest r lost v o w n k e = ground arith

  -- The steps of a system in which every `open` is quiet.
  abbrev pub AllQuiet : {s t : System B} → Step B s t → Type 0
  AllQuiet {s} (runs t rest p h l) = IsQuiet t rest (length s.reserved)
  AllQuiet _ = Unit {0}

  pub data QuietHistory (s : System B) : System B → Type 0 where
    here : QuietHistory s s
    next :
        {t u : System B}
        → QuietHistory s t
        → t.pimpl.generation + 1 < 2 ^ 64
        → (st : Step B t u) → AllQuiet st
        → QuietHistory s u

  -- What the ends of the sessions have discarded since the last `open`.
  abbrev pub step_lost : {s t : System B} → Step B s t → ℕ → ℕ
  step_lost {s} (runs t rest p h l) lost = task_lost s.pimpl p t lost
  step_lost _ lost = lost

  abbrev pub lost : {s t : System B} → QuietHistory s t → ℕ
  lost here = 0
  lost (next h w st n) = step_lost st (lost h)

  -- A system whose counts differ by nothing.
  same-IsCounted :
      (p q : Pimpl B) (queue queue' : List (Task B)) (r r' k : ℕ)
      → q.stopped ≡ p.stopped
      → q.pending_writes ≡ p.pending_writes
      → q.buffer_config ≡ p.buffer_config
      → q.tx_deque ≡ p.tx_deque
      → r' + total B (is_enqueue B) queue' ≡ r + total B (is_enqueue B) queue
      → IsCounted p queue r k
      → IsCounted q queue' r' k
  same-IsCounted p q queue queue' r r' k a b c d e v = record {
    counted = ground (arith, v.counted);
    running = λ h. ground (arith, v.running);
    limited = ground arith;
    fits = ground arith;
  }

  method_no_enqueue : {t : Task B} → IsMethod B t → is_enqueue B t ≡ 0
  method_no_enqueue (opens path c b) = refl
  method_no_enqueue closes = refl
  method_no_enqueue (sets_frame_handler h) = refl
  method_no_enqueue (sets_fatal_error_handler h) = refl
  method_no_enqueue (sets_recuperable_error_handler h) = refl
  method_no_enqueue (sets_write_handler h) = refl

  reserve-increment :
      (p : Pimpl B) (current : ℕ) (observed : List ℕ)
      → (reserve B p current observed).0 ≡ true
      → (p.pending_writes < p.buffer_config.tx_max_elements_in_queue)
        × ((reserve B p current observed).1
            ≡ record p { pending_writes = increment p.pending_writes })
  unfolding reserve
  reserve-increment p current [] e = ground arith
  reserve-increment p current (seen ∷ observed) e =
      ground (arith, reserve-increment p seen observed)

  Step-IsCounted :
      {s t : System B} (st : Step B s t) (d : ℕ)
      → AllQuiet st
      → IsSound B s
      → IsCounted s.pimpl s.queue (length s.reserved) d
      → IsCounted t.pimpl t.queue (length t.reserved) (step_lost st d)
  Step-IsCounted {s} (posts t h) d n v k =
      same-IsCounted s.pimpl s.pimpl s.queue (s.queue ++ t ∷ []) _ _ d refl refl refl refl
        (omega (arith, total-append B (is_enqueue B) s.queue (t ∷ []), method_no_enqueue h)) k
  Step-IsCounted {s} (checks bytes id h) d n v k = k
  Step-IsCounted {s} (reserves bytes id current observed xs ys h e) d n v k =
      let i = reserve-increment s.pimpl current observed e in
      rw (i.1) (record {
        counted = omega (arith, k.counted);
        running = k.running;
        limited = omega arith;
        fits = k.fits;
      })
  Step-IsCounted {s} (enqueues bytes id xs ys h) d n v k =
      same-IsCounted s.pimpl s.pimpl s.queue (s.queue ++ enqueue_task bytes id ∷ []) _ _ d refl refl
        refl refl
        (omega (
          arith,
          total-append B (is_enqueue B) s.queue (enqueue_task bytes id ∷ []),
          ap (length {A = List ℕ × ℕ}) h,
          length-append xs ys,
          length-append xs ((bytes, id) ∷ ys),
        ))
        k
  Step-IsCounted {s} (reads bytes ec n' g xs ys h e) d n v k =
      same-IsCounted s.pimpl _ s.queue (s.queue ++ read_task ec n' g ∷ []) _ _ d refl refl refl refl
        (omega (arith, total-append B (is_enqueue B) s.queue (read_task ec n' g ∷ []))) k
  Step-IsCounted {s} (writes ec n' g xs ys h e) d n v k =
      same-IsCounted s.pimpl _ s.queue (s.queue ++ write_task ec n' g ∷ []) _ _ d refl refl refl
        refl (omega (arith, total-append B (is_enqueue B) s.queue (write_task ec n' g ∷ []))) k
  Step-IsCounted {s} (runs t rest p h l) d n v k =
      let clean : AllClean B (t ∷ rest) = rw h at v.clean in
      result-IsCounted s.pimpl p t rest (length s.reserved) d v.consistent (rw h at v.one_write)
        clean.0 n (rw h at k) (Leaves-cases B l)

  QuietHistory-keeps :
      {s t : System B}
      → IsSound B s
      → IsCounted s.pimpl s.queue (length s.reserved) 0
      → (h : QuietHistory s t)
      → IsSound B t × IsCounted t.pimpl t.queue (length t.reserved) (lost h)
  QuietHistory-keeps v k here = (v, k)
  QuietHistory-keeps v k (next h w st n) =
      let (v', k') = QuietHistory-keeps v k h in
      (Step-IsSound B st w v', Step-IsCounted st (lost h) n v' k')

  -- If every `open` finds no accepted write on its way to the strand, then in every interleaving, running
  -- or stopped, the counter never exceeds the limit, and it is exactly the number of accepted writes that
  -- are still to be posted, to be run or in the deque, and of those that the end of a session has
  -- discarded since the last `open` without a report of their own; while the transport runs there are
  -- none of the latter.
  pub QuietHistory-IsCounted :
      (stream : B.Stream) {t : System B} (h : QuietHistory (start B (init B stream)) t)
      → IsCounted t.pimpl t.queue (length t.reserved) (lost h)
  unfolding start init
  QuietHistory-IsCounted stream h =
      (QuietHistory-keeps (History-IsSound B stream Sessions.here) (ground arith) h).1
