-- ===== src/Firmware/FrameWaiter/Concurrent/Running.antt =====
-- Turns of the consumer with none of the other core in between.
use easy_lo_ra_reforged.Base.{
  ℕ, zero, suc, ◌≡◌, refl, ap, ◌∙◌, false, List, [], Option, none, some, take, ◌==◌, arith, inl,
  inr, Bool-cases, Option-cases,
}
use easy_lo_ra_reforged.Firmware.RingBuffer.{RingBuffer}
use easy_lo_ra_reforged.Firmware.FrameWaiter.{
  ReadFrameStatus, buffer_too_small, incomplete_frame, overflow, packet_delimiter, FrameWaiter,
  Reading, drop_buffer, drop_frame, end_of_buffer,
}
use easy_lo_ra_reforged.Firmware.FrameWaiter.Concurrent.{
  Consumer, checking, dropping_overlong, dropping_overflown, Return, Turn, goes_on, returns,
  drop_turn, consumer_turn,
}
use easy_lo_ra_reforged.Firmware.FrameWaiter.Concurrent.Turns.{drop_turn-none, drop_turn-some}

module _ (R : RingBuffer) where
  open R use {Ring, remove, contents}

  -- At most `n` turns of the consumer with no turn of the producer between them, up to the end of the
  -- call; `none` means that the call has not ended.
  pub run_alone : ℕ → FrameWaiter R → Consumer → Option (FrameWaiter R × Return)
  run_alone zero w c = none
  run_alone (suc n) w c =
      let turn = consumer_turn R w c in
      let rest = run_alone n turn.waiter turn.consumer in
      elim turn.result [ none ↦ rest | some r ↦ some (turn.waiter, r) ]

  -- What a reading is as a result.
  abbrev pub as_return : ℕ → Reading R → Return
  as_return capacity r = record {
    status = r.status;
    capacity = capacity;
    frame = take r.bytes_written r.output;
  }

  pub run_alone_step :
      (n : ℕ) (w : FrameWaiter R) (c : Consumer) (t : Turn R)
      → consumer_turn R w c ≡ t
      → run_alone (suc n) w c
        ≡ elim t.result [ none ↦ run_alone n t.waiter t.consumer | some r ↦ some (t.waiter, r) ]
  unfolding run_alone
  run_alone_step n w c t e =
      ap
        (λ (t : Turn R). elim t.result [
          | none ↦ run_alone n t.waiter t.consumer
          | some r ↦ some (t.waiter, r)
        ])
        e

  -- The consumer is in a `dropBufferUntilDelimiterOrEmpty`.
  abbrev IsDrop : Consumer → ReadFrameStatus → ℕ → Type 0
  IsDrop c status capacity =
      (w : FrameWaiter R) → consumer_turn R w c ≡ drop_turn R w c status capacity

  drop_buffer-run_alone :
      (fuel : ℕ) (w : FrameWaiter R) (ring : Ring) (c : Consumer) (status : ReadFrameStatus)
      (capacity : ℕ) {q : Ring}
      → IsDrop c status capacity
      → drop_buffer R fuel ring ≡ some q
      → run_alone fuel (record w { buffer = ring }) c
        ≡ some (
          record w { buffer = q; pending_frame_size = 0 },
          record { status = status; capacity = capacity; frame = [] },
        )
  unfolding drop_buffer run_alone
  drop_buffer-run_alone zero w ring c status capacity d e = absurd (ground arith)
  drop_buffer-run_alone (suc fuel) w ring c status capacity {q} d e =
      let v = record w { buffer = ring } in
      elim (Option-cases (remove ring)) [
        | inl m ↦
            let same : ring ≡ q = ground (arith, m, e) in
            run_alone_step fuel v c _ (d v ∙ drop_turn-none R v c status capacity m)
            ∙ ap
                (λ q. some (
                  record w { buffer = q; pending_frame_size = 0 },
                  record { status = status; capacity = capacity; frame = [] },
                ))
                same
        | inr ((byte, rest), m) ↦
            let turn = d v ∙ drop_turn-some R v c status capacity byte rest m in
            elim (Bool-cases (byte == packet_delimiter)) [
              | inl y ↦
                  let same : rest ≡ q = ground (arith, m, e, y) in
                  run_alone_step fuel v c _ (rw y at turn)
                  ∙ ap
                      (λ q. some (
                        record w { buffer = q; pending_frame_size = 0 },
                        record { status = status; capacity = capacity; frame = [] },
                      ))
                      same
              | inr n ↦
                  let less : drop_buffer R fuel rest ≡ some q = ground (arith, m, e, n) in
                  run_alone_step fuel v c _ (rw n at turn)
                  ∙ drop_buffer-run_alone fuel w rest c status capacity d less
            ]
      ]

  pub drop_frame-run_alone :
      (fuel : ℕ) (w : FrameWaiter R) (output : List ℕ) (c : Consumer) (status : ReadFrameStatus)
      (capacity : ℕ) {r : Reading R}
      → IsDrop c status capacity
      → drop_frame R fuel w output status ≡ some r
      → run_alone fuel w c ≡ some (r.waiter, as_return capacity r)
  unfolding drop_frame
  drop_frame-run_alone fuel w output c status capacity {r} d e =
      elim (Option-cases (drop_buffer R fuel w.buffer)) [
        | inl m ↦ absurd (ground (arith, m, e))
        | inr (q, m) ↦
            let same : record {
              waiter = record w { buffer = q; pending_frame_size = 0 };
              output = output;
              bytes_written = 0;
              status = status;
            }
                ≡ r =
              ground (arith, m, e) in
            drop_buffer-run_alone fuel w w.buffer c status capacity d m
            ∙ ap (λ (r : Reading R). some (r.waiter, as_return capacity r)) same
      ]

  pub IsDrop-overlong :
      (capacity : ℕ) → IsDrop (dropping_overlong capacity) buffer_too_small capacity
  unfolding consumer_turn
  IsDrop-overlong capacity w = refl

  IsDrop-overflown : (capacity : ℕ) → IsDrop (dropping_overflown capacity) overflow capacity
  unfolding consumer_turn
  IsDrop-overflown capacity w = refl

  pub end_of_buffer-run_alone :
      (fuel : ℕ) (w : FrameWaiter R) (output : List ℕ) (capacity : ℕ) {r : Reading R}
      → end_of_buffer R fuel w output ≡ some r
      → run_alone (suc fuel) w (checking capacity) ≡ some (r.waiter, as_return capacity r)
  unfolding end_of_buffer consumer_turn
  end_of_buffer-run_alone fuel w output capacity {r} e = elim (Bool-cases w.overflow) [
    | inl yes' ↦
        let v = record w { overflow = false } in
        run_alone_step fuel w (checking capacity) (goes_on R v (dropping_overflown capacity))
          (ground (arith, yes'))
        ∙ drop_frame-run_alone fuel v output (dropping_overflown capacity) overflow capacity
            (IsDrop-overflown capacity) (ground (arith, yes', e))
    | inr no' ↦
        let same : record {
          waiter = w;
          output = output;
          bytes_written = 0;
          status = incomplete_frame;
        }
            ≡ r =
          ground (arith, no', e) in
        run_alone_step fuel w (checking capacity)
          (returns R w w.pending_frame_size incomplete_frame capacity []) (ground (arith, no'))
        ∙ ap (λ (r : Reading R). some (r.waiter, as_return capacity r)) same
  ]
