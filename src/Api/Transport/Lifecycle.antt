-- ===== src/Api/Transport/Lifecycle.antt =====
-- The life of a transport: its state and flags agree, a close is final, and what an earlier session
-- started has no effect on a later one.
use Prim.Native.String.{String}
use easy_lo_ra_reforged.Base.{
  ℕ, ◌≡◌, ◌≢◌, refl, true, false, not, List, [], ◌∷◌, arith, ◌⊎◌, inl, inr, if◌then◌else◌,
}
use easy_lo_ra_reforged.Api.Types.{cancelled, SerialConfig, BufferConfig}
use easy_lo_ra_reforged.Api.Boost.{Boost}
use easy_lo_ra_reforged.Api.Transport.{
  Pimpl, open_state, opening_state, closed_state, closing_state, faulted_state, returned, thrown,
  is_open_state, init, start_read, open_port, configure, write_call, notify, increment, decrement,
}
use easy_lo_ra_reforged.Api.Transport.Handlers.{handle_read, handle_write, reserve}
use easy_lo_ra_reforged.Api.Transport.Strand.{
  Task, open_task, enqueue_task, read_task, write_task, exec, Leaves, Leaves-cases, System, Step,
  posts, checks, reserves, enqueues, reads, writes, runs, Reach, here, next, start,
}

module _ (B : Boost) where
  open B use {ErrorCode}

  -- Between two tasks.
  pub record IsConsistent (p : Pimpl B) : Type 0 where
    pub closed_is_stopped : p.closing ≡ true → p.stopped ≡ true
    pub closed_is_closed : p.closing ≡ true → p.current_state ≡ closed_state
    pub open_is_running : is_open_state p.current_state ≡ not p.stopped
    pub settled : (p.current_state ≢ opening_state) × (p.current_state ≢ closing_state)
    pub stopped_is_empty : p.stopped ≡ true → p.tx_deque ≡ []

  result-IsConsistent :
      (p q : Pimpl B) (t : Task B)
      → IsConsistent p
      → (exec B p t ≡ returned q) ⊎ (exec B p t ≡ thrown q)
      → IsConsistent q
  unfolding exec
  result-IsConsistent p q (open_task path c b) v e = ground arith
  result-IsConsistent p q t v e = ground arith

  -- Every task, however it ends short of ending the process, keeps state and flags in agreement.
  pub exec-IsConsistent :
      (p q : Pimpl B) (t : Task B) → IsConsistent p → Leaves B (exec B p t) q → IsConsistent q
  exec-IsConsistent p q t v l = result-IsConsistent p q t v (Leaves-cases B l)

  pub reserve-fields :
      (p : Pimpl B) (current : ℕ) (observed : List ℕ)
      → (reserve B p current observed).1
        ≡ record p { pending_writes = (reserve B p current observed).1.pending_writes }
  unfolding reserve
  reserve-fields p current [] = ground arith
  reserve-fields p current (seen ∷ observed) = ground (arith, reserve-fields p seen observed)

  pub Step-IsConsistent :
      {s t : System B} → Step B s t → IsConsistent s.pimpl → IsConsistent t.pimpl
  Step-IsConsistent (posts t h) v = v
  Step-IsConsistent (checks bytes id h) v = v
  Step-IsConsistent {s} (reserves bytes id current observed xs ys h k) v =
      rw (reserve-fields s.pimpl current observed) (ground arith)
  Step-IsConsistent (enqueues bytes id xs ys h) v = v
  Step-IsConsistent (reads bytes ec n g xs ys h k) v = ground arith
  Step-IsConsistent (writes ec n g xs ys h k) v = ground arith
  Step-IsConsistent {s} (runs t rest p h l) v = exec-IsConsistent s.pimpl p t v l

  Reach-keeps-IsConsistent :
      {s t : System B} → IsConsistent s.pimpl → Reach B s t → IsConsistent t.pimpl
  Reach-keeps-IsConsistent v here = v
  Reach-keeps-IsConsistent v (next r st) = Step-IsConsistent st (Reach-keeps-IsConsistent v r)

  -- In every interleaving of user threads, completions and the strand, from a new transport on: a closed
  -- transport is stopped and in the state Closed, `isOpen` holds exactly while it is not stopped, the
  -- states Opening and Closing are never seen between two tasks, and a stopped one has no queued write.
  pub Reach-IsConsistent :
      (stream : B.Stream) {t : System B}
      → Reach B (start B (init B stream)) t
      → IsConsistent t.pimpl
  unfolding start init
  Reach-IsConsistent stream r = Reach-keeps-IsConsistent (ground arith) r

  -- A close is final: on a closed transport every task, `open` included, returns, starts nothing and
  -- changes nothing, except that a write that was accepted earlier gives its place back and is reported
  -- as cancelled, if there is a write handler.
  pub exec_closed :
      (p : Pimpl B) (t : Task B)
      → p.closing ≡ true
      → (exec B p t ≡ returned p)
        ⊎ ((bytes : List ℕ) × (id : ℕ) × (t ≡ enqueue_task bytes id)
            × (exec B p t
                ≡ returned (
                    notify B
                      (record p { pending_writes = decrement p.pending_writes })
                      p.write_handler
                      (λ h. write_call h cancelled id))))
  unfolding exec
  exec_closed p (enqueue_task bytes id) e = inr (bytes, id, refl, ground arith)
  exec_closed p t e = inl (ground arith)

  -- What an operation of another session reports is ignored, whatever it is.
  pub exec_stale :
      (p : Pimpl B) (ec : ErrorCode) (bytes generation : ℕ)
      → generation ≢ p.generation
      → (exec B p (read_task ec bytes generation) ≡ returned p)
        × (exec B p (write_task ec bytes generation) ≡ returned p)
  unfolding exec handle_read handle_write
  exec_stale p ec bytes generation h = (ground arith, ground arith)

  -- `open` on a transport that is not closed ends the session before it, whatever state that was in:
  -- the generation moves on and buffers and counter are empty. If the port accepts the path and all five
  -- options, exactly one read is started, for the new generation, and the transport is open; if it
  -- throws, the exception leaves `open`, nothing is started and the transport is faulted and stopped.
  pub open_port_lem :
      (p : Pimpl B) (path : String) (c : SerialConfig B.FlowControl B.Parity B.StopBits)
      (b : BufferConfig)
      → p.closing ≡ false
      → let (done, stream) = configure B p.serial path c in
        let fresh = record p {
          serial = stream;
          generation = increment p.generation;
          buffer_config = b;
          rx_buffer = [];
          tx_deque = [];
          pending_writes = 0;
        } in
        open_port B p path c b ≡ (
          if done
          then returned (record fresh {
            stopped = false;
            current_state = open_state;
            reads = increment p.generation ∷ p.reads;
          })
          else thrown (record fresh { stopped = true; current_state = faulted_state }))
  unfolding open_port start_read
  open_port_lem p path c b e = ground arith
