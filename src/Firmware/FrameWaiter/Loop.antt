-- ===== src/Firmware/FrameWaiter/Loop.antt =====
-- The loop of `tryReadFrame`.
use easy_lo_ra_reforged.Base.{
  ℕ, zero, suc, ◌+◌, ◌<◌, refl, ap, List, some, arith, length, set, leb, ◌==◌, inl, inr, Bool-cases,
  length-set, take-set,
}
use easy_lo_ra_reforged.Firmware.RingBuffer.{RingBuffer, IsFifo}
use easy_lo_ra_reforged.Firmware.FrameWaiter.{
  buffer_too_small, packet_delimiter, FrameWaiter, read_loop, try_read_frame,
}
use easy_lo_ra_reforged.Firmware.FrameWaiter.Receive.{receive, pending, IsValid, Did}
use easy_lo_ra_reforged.Firmware.FrameWaiter.Branches.{
  drop_frame_lem, end_of_buffer_lem, length-pending, take_frame_lem, Did-from,
}

module _ (R : RingBuffer) (fifo : IsFifo R) where
  open R use {Ring, contents, remove}

  -- The waiter after one more byte of a frame.
  abbrev keep : FrameWaiter R → ℕ → Ring → FrameWaiter R
  keep w byte ring = record w {
    buffer = ring;
    pending_frame_buffer = set w.pending_frame_buffer w.pending_frame_size byte;
    pending_frame_size = w.pending_frame_size + 1;
  }

  read_loop_lem :
      (fuel : ℕ) (w : FrameWaiter R) (output : List ℕ) (buffer_capacity : ℕ)
      → length (contents w.buffer) < fuel
      → IsValid R w
      → Did R w output (read_loop R fuel w output buffer_capacity) (
          receive
            (length w.pending_frame_buffer)
            buffer_capacity
            w.overflow
            (pending R w)
            (contents w.buffer))
  unfolding read_loop receive
  read_loop_lem zero w output room h v = absurd (omega arith)
  read_loop_lem (suc fuel) w output room h v = elim (fifo.removed w.buffer) [
    | inl (e, none_left) ↦
        rw (none_left, e, read_loop) (end_of_buffer_lem R fifo (suc fuel) w output room e v h)
    | inr (b, q, e, some_left) ↦
        let fewer : length (contents q) < fuel = omega (arith, ap (length {A = ℕ}) e) in
        rw (some_left, e, read_loop, length-pending R fifo w v)
          (elim (Bool-cases (b == packet_delimiter)) [
            | inl here ↦ rw here (take_frame_lem R fifo w q output room v)
            | inr later ↦
                rw later
                  (elim (Bool-cases (leb (length w.pending_frame_buffer) w.pending_frame_size)) [
                    | inl full ↦ rw full (
                        drop_frame_lem R fifo (suc fuel) w (record w { buffer = q }) output
                          buffer_too_small (omega arith) refl refl refl refl)
                    | inr more ↦ rw more (
                        Did-from R fifo w (keep w b q) output _ _
                          (length-set w.pending_frame_buffer w.pending_frame_size b) refl refl refl
                          (rw
                            (
                              length-set w.pending_frame_buffer w.pending_frame_size b,
                              take-set w.pending_frame_size w.pending_frame_buffer b (ground arith),
                            )
                            at
                            (read_loop_lem fuel (keep w b q) output room fewer (
                              ground (
                                arith,
                                length-set w.pending_frame_buffer w.pending_frame_size b,
                              )))))
                  ])
          ])
  ]

  -- `tryReadFrame` on a real output buffer always returns, and does what `receive` says of the bytes
  -- pending and the bytes in the ring.
  pub try_read_frame_lem :
      (w : FrameWaiter R) (output : List ℕ) (buffer_capacity : ℕ)
      → IsValid R w
      → Did R w output (try_read_frame R w (some output) buffer_capacity) (
          receive
            (length w.pending_frame_buffer)
            buffer_capacity
            w.overflow
            (pending R w)
            (contents w.buffer))
  unfolding try_read_frame
  try_read_frame_lem w output buffer_capacity v =
      read_loop_lem (suc (length (contents w.buffer))) w output buffer_capacity (omega arith) v
