-- ===== src/Firmware/FrameWaiter/Concurrent/Alone.antt =====
-- The turns of the consumer against `try_read_frame`, which has no other core in it.
use easy_lo_ra_reforged.Base.{
  ℕ, zero, suc, ◌+◌, ◌≡◌, refl, ap, ◌∙◌, List, some, length, take, drop, set, ltb, leb, ◌==◌, arith,
  inl, inr, Bool-cases, Option-cases, take-append, length-take, length-set,
}
use easy_lo_ra_reforged.Firmware.RingBuffer.{RingBuffer, IsFifo}
use easy_lo_ra_reforged.Firmware.FrameWaiter.{
  buffer_too_small, packet_delimiter, FrameWaiter, Reading, take_frame, read_loop, try_read_frame,
}
use easy_lo_ra_reforged.Firmware.FrameWaiter.Receive.{IsValid}
use easy_lo_ra_reforged.Firmware.FrameWaiter.Loop.{try_read_frame_lem}
use easy_lo_ra_reforged.Firmware.FrameWaiter.Concurrent.{
  away, looping, dropping_overlong, goes_on, loop_turn,
}
use easy_lo_ra_reforged.Firmware.FrameWaiter.Concurrent.Turns.{looping-none, looping-some}
use easy_lo_ra_reforged.Firmware.FrameWaiter.Concurrent.Running.{
  run_alone, as_return, run_alone_step, drop_frame-run_alone, IsDrop-overlong,
  end_of_buffer-run_alone,
}

module _ (R : RingBuffer) where
  open R use {Ring, remove, contents}

  -- The delimiter ends the call.
  take_frame-loop_turn :
      (w : FrameWaiter R) (byte : ℕ) (output : List ℕ) (capacity : ℕ)
      → byte ≡ packet_delimiter
      → IsValid R w
      → let r = take_frame R w output capacity in
        loop_turn R w byte capacity
        ≡ record { waiter = r.waiter; consumer = away; result = some (as_return R capacity r) }
  unfolding loop_turn take_frame
  take_frame-loop_turn w byte output capacity d v =
      let whole =
        take-append w.pending_frame_size (take w.pending_frame_size w.pending_frame_buffer)
          (drop w.pending_frame_size output)
          (omega (arith, length-take w.pending_frame_size w.pending_frame_buffer)) in
      elim (Bool-cases (ltb capacity w.pending_frame_size)) [
        | inl small ↦ rw (d, small, loop_turn, take_frame) refl
        | inr fits ↦ rw (d, fits, loop_turn, take_frame, whole) refl
      ]

  read_loop-run_alone :
      (fuel : ℕ) (w : FrameWaiter R) (output : List ℕ) (capacity : ℕ) {r : Reading R}
      → IsValid R w
      → read_loop R fuel w output capacity ≡ some r
      → (n : ℕ) × (run_alone R n w (looping capacity) ≡ some (r.waiter, as_return R capacity r))
  unfolding read_loop loop_turn
  read_loop-run_alone zero w output capacity v e = absurd (ground arith)
  read_loop-run_alone (suc fuel) w output capacity {r} v e = elim (Option-cases (remove w.buffer)) [
    | inl m ↦ (
      suc (suc (suc fuel)),
      run_alone_step R (suc (suc fuel)) w (looping capacity) _ (looping-none R w capacity m)
          ∙ end_of_buffer-run_alone R (suc fuel) w output capacity (ground (arith, m, e)),
    )
    | inr ((byte, ring), m) ↦
        let turn = looping-some R w capacity byte ring m in
        let v' = record w { buffer = ring } in
        elim (Bool-cases (byte == packet_delimiter)) [
          | inl y ↦
              let end' : byte ≡ packet_delimiter = ground (arith, y) in
              let same : take_frame R v' output capacity ≡ r = ground (arith, m, y, e) in
              (
                suc zero,
                run_alone_step R zero w (looping capacity) _
                      (turn ∙ take_frame-loop_turn v' byte output capacity end' v)
                    ∙ ap (λ (r : Reading R). some (r.waiter, as_return R capacity r)) same,
              )
          | inr n ↦ elim (Bool-cases (leb (length w.pending_frame_buffer) w.pending_frame_size)) [
            | inl full ↦ (
              suc (suc fuel),
              run_alone_step R (suc fuel) w (looping capacity)
                    (goes_on R v' (dropping_overlong capacity)) (turn ∙ ground (arith, n, full))
                  ∙ drop_frame-run_alone R (suc fuel) v' output (dropping_overlong capacity)
                      buffer_too_small capacity (IsDrop-overlong R capacity)
                      (ground (arith, m, n, full, e)),
            )
            | inr more ↦
                let kept = record v' {
                  pending_frame_buffer = set w.pending_frame_buffer w.pending_frame_size byte;
                  pending_frame_size = w.pending_frame_size + 1;
                } in
                let (k, rest) =
                  read_loop-run_alone fuel kept output capacity {r = r}
                    (ground
                      (arith, more, length-set w.pending_frame_buffer w.pending_frame_size byte))
                    (ground (arith, m, n, more, e)) in
                (
                  suc k,
                  run_alone_step R k w (looping capacity) (goes_on R kept (looping capacity))
                        (turn ∙ ground (arith, n, more))
                      ∙ rest,
                )
          ]
        ]
  ]

  -- With no turn of the other core in between, the turns of a call on a valid waiter end, and do what
  -- `try_read_frame` does: they leave the same waiter, the same status and the same bytes.
  try_read_frame-run_alone :
      IsFifo R
      → (w : FrameWaiter R) (output : List ℕ) (capacity : ℕ) → IsValid R w
      → (r : Reading R) × (try_read_frame R w (some output) capacity ≡ some r)
        × ((n : ℕ) × (run_alone R n w (looping capacity)
              ≡ some (
                r.waiter,
                record {
                  status = r.status;
                  capacity = capacity;
                  frame = take r.bytes_written r.output;
                },
              )))
  unfolding try_read_frame
  try_read_frame-run_alone fifo w output capacity v =
      let d = try_read_frame_lem R fifo w output capacity v in
      (
        d.reading,
        d.returned,
        read_loop-run_alone (suc (length (contents w.buffer))) w output capacity v d.returned,
      )
