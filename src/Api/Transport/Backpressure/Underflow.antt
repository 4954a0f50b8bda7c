-- ===== src/Api/Transport/Backpressure/Underflow.antt =====
-- How `pendingWrites` can fall below 0: `open`, the posted function of `asyncWrite` and `handleWrite`.
use Prim.Native.String.{String}
use easy_lo_ra_reforged.Base.{
  ℕ, ◌-◌, ◌^◌, ◌<◌, ◌≤◌, ◌≡◌, refl, true, false, List, [], ◌∷◌, ◌++◌, none, some, arith, length,
}
use easy_lo_ra_reforged.Api.Types.{written, scheduled, queue_full, SerialConfig, BufferConfig}
use easy_lo_ra_reforged.Api.Boost.{Boost}
use easy_lo_ra_reforged.Api.Transport.{
  Pimpl, returned, ◌>>=◌, configure, increment, open_state, write_call,
}
use easy_lo_ra_reforged.Api.Transport.Handlers.{check_write, reserve}
use easy_lo_ra_reforged.Api.Transport.Strand.{
  open_task, enqueue_task, read_task, write_task, exec, async_write,
}

module _ (B : Boost) where
  open B use {Stream}

  -- The transport after `open`, one message of an earlier session, and its write.
  after_reopen : Pimpl B → Stream → BufferConfig → ℕ → Pimpl B
  after_reopen p stream b id = record p {
    serial = stream;
    buffer_config = b;
    rx_buffer = [];
    tx_deque = [];
    stopped = false;
    generation = increment p.generation;
    pending_writes = 2 ^ 64 - 1;
    current_state = open_state;
    reads = increment p.generation ∷ p.reads;
    writes = increment p.generation ∷ p.writes;
    log = elim p.write_handler [ none ↦ p.log | some h ↦ p.log ++ write_call h written id ∷ [] ];
  }

  reopen :
      (p : Pimpl B) (path : String) (c : SerialConfig B.FlowControl B.Parity B.StopBits)
      (b : BufferConfig) (bytes : List ℕ) (id n : ℕ) (success : B.ErrorCode)
      → p.closing ≡ false
      → (configure B p.serial path c).0 ≡ true
      → B.failed success ≡ false
      → (exec B p (open_task path c b) >>= λ q.
          exec B q (enqueue_task bytes id) >>= λ r. exec B r (write_task success n r.generation))
        ≡ returned (after_reopen p (configure B p.serial path c).1 b id)
  unfolding exec after_reopen
  reopen p path c b bytes id n success running accepts good = ground arith

  -- Without that, `open` resets a counter that still counts: let a running transport accept a write while
  -- an error of reading, which ends the session, and an `open` wait on the strand before it. If the port
  -- accepts the path and the options, then, when the new session has written that message, the counter
  -- has gone below 0 and come round to 2^64 - 1, and an `asyncWrite` of any message of legal size that is
  -- called in this state is refused as QueueFull, although nothing is queued and the transport runs. Of
  -- states after it nothing is said; the next successful `open` sets the counter to 0.
  pub reopen_underflows :
      (p q : Pimpl B) (path : String) (c : SerialConfig B.FlowControl B.Parity B.StopBits)
      (b : BufferConfig) (bytes : List ℕ) (id m n : ℕ) (error success : B.ErrorCode)
      → (async_write B p bytes id).0 ≡ scheduled
      → exec B (async_write B p bytes id).1 (read_task error m p.generation) ≡ returned q
      → q.stopped ≡ true
      → q.closing ≡ false
      → (configure B q.serial path c).0 ≡ true
      → B.failed success ≡ false
      → b.tx_max_elements_in_queue < 2 ^ 64
      → (t : Pimpl B) × ((exec B (async_write B p bytes id).1 (read_task error m p.generation)
            >>= λ r. exec B r (open_task path c b) >>= λ u.
                exec B u (enqueue_task bytes id) >>= λ v.
                exec B v (write_task success n v.generation))
          ≡ returned t)
        × (t.stopped ≡ false)
        × (t.tx_deque ≡ [])
        × (t.pending_writes ≡ 2 ^ 64 - 1)
        × ((message : List ℕ) (id' : ℕ)
            → length message ≤ b.tx_max_size_per_element
            → (async_write B t message id').0 ≡ queue_full)
  unfolding async_write reserve check_write after_reopen
  reopen_underflows p q path c b bytes id m n error success accepted ends stopped running accepts
        good fits =
      (
        after_reopen q (configure B q.serial path c).1 b id,
        rw ends (reopen q path c b bytes id n success running accepts good),
        refl,
        refl,
        refl,
        λ message id' small. ground arith,
      )
