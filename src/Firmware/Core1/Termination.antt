-- ===== src/Firmware/Core1/Termination.antt =====
-- The loop of core 1 ends: every round takes at least a delimiter out of the ring.
use easy_lo_ra_reforged.Base.{
  ℕ, zero, suc, ◌<◌, ◌≡◌, refl, Bool, true, List, [], ◌∷◌, ◌++◌, some, length, take, arith,
  Bool-cases, inl, inr,
}
use easy_lo_ra_reforged.Protocol.Errors.{Expected, value, unexpected}
use easy_lo_ra_reforged.Firmware.RingBuffer.{RingBuffer, IsFifo}
use easy_lo_ra_reforged.Firmware.FrameWaiter.Receive.{receive, pending, IsValid}
use easy_lo_ra_reforged.Firmware.FrameWaiter.Loop.{try_read_frame_lem}
use easy_lo_ra_reforged.Firmware.Responder.{Frames, Frame, dispatch}
use easy_lo_ra_reforged.Firmware.Core1.{is_ok, Core1, send_response, answer, after_reading, serve}

receive-shorter :
    (size capacity : ℕ) (overflowed : Bool) (p bs : List ℕ)
    → is_ok (receive size capacity overflowed p bs).status ≡ true
    → length (receive size capacity overflowed p bs).unread < length bs
unfolding receive
receive-shorter size capacity overflowed p [] e = absurd (ground arith)
receive-shorter size capacity overflowed p (b ∷ bs) e =
    ground (arith, receive-shorter size capacity overflowed (p ++ b ∷ []) bs)

module _ (F : Frames) (Rx Tx : RingBuffer) (decode : List ℕ → Expected (Frame F) F.ProtocolErrors)
    (encode : Frame F → Expected (List ℕ) F.ProtocolErrors) where
  pub send_response-keeps :
      (s : Core1 F Rx Tx) (e : Expected (Frame F) F.ProtocolErrors)
      → ((send_response F Rx Tx decode encode s e).uart_0_rx_frame_waiter
          ≡ s.uart_0_rx_frame_waiter)
        × ((send_response F Rx Tx decode encode s e).received_frame_codified_buffer
            ≡ s.received_frame_codified_buffer)
  unfolding send_response
  send_response-keeps s (unexpected e) = (refl, refl)
  send_response-keeps s (value f) = go (encode f) refl
    where
      go :
          (o : Expected (List ℕ) F.ProtocolErrors)
          → encode f ≡ o
          → ((send_response F Rx Tx decode encode s (value f)).uart_0_rx_frame_waiter
              ≡ s.uart_0_rx_frame_waiter)
            × ((send_response F Rx Tx decode encode s (value f)).received_frame_codified_buffer
                ≡ s.received_frame_codified_buffer)
      go (unexpected e) m = rw (m, send_response) (refl, refl)
      go (value bytes) m = rw (m, send_response) (refl, refl)

  -- A round leaves the receiver's side as `tryReadFrame` left it.
  pub answer-keeps :
      (s : Core1 F Rx Tx) (e : Expected (Frame F) F.ProtocolErrors)
      → ((answer F Rx Tx decode encode s e).uart_0_rx_frame_waiter ≡ s.uart_0_rx_frame_waiter)
        × ((answer F Rx Tx decode encode s e).received_frame_codified_buffer
            ≡ s.received_frame_codified_buffer)
  unfolding answer
  answer-keeps s (unexpected e) = (refl, refl)
  answer-keeps s (value f) =
      let a = dispatch F f s.response_frame_payload s.bytes_written in
      send_response-keeps
        (record s { response_frame_payload = a.buffer; bytes_written = a.bytes_written }) a.result

  -- A wake-up of core 1 ends whatever the ring holds: with more fuel than there are bytes in it, the loop
  -- returns.
  pub serve-returns :
      IsFifo Rx
      → (fuel : ℕ) (s : Core1 F Rx Tx) → IsValid Rx s.uart_0_rx_frame_waiter
      → length (Rx.contents s.uart_0_rx_frame_waiter.buffer) < fuel
      → (t : Core1 F Rx Tx) × (serve F Rx Tx decode encode fuel s ≡ some t)
  unfolding serve
  serve-returns fifo zero s v h = absurd (omega arith)
  serve-returns fifo (suc fuel) s v h =
      let output = s.received_frame_codified_buffer in
      let d = try_read_frame_lem Rx fifo s.uart_0_rx_frame_waiter output (length output) v in
      let r = d.reading in
      elim (Bool-cases (is_ok r.status)) [
        | inr n ↦ (after_reading F Rx Tx decode encode s r, rw (d.returned, n, serve) refl)
        | inl y ↦
            let s' =
              answer F Rx Tx decode encode (after_reading F Rx Tx decode encode s r)
                (decode (take r.bytes_written r.output)) in
            let kept =
              answer-keeps (after_reading F Rx Tx decode encode s r)
                (decode (take r.bytes_written r.output)) in
            let less =
              receive-shorter _ (length output) s.uart_0_rx_frame_waiter.overflow
                (pending Rx s.uart_0_rx_frame_waiter) (Rx.contents s.uart_0_rx_frame_waiter.buffer)
                (rw d.status at y) in
            let (t, e) =
              serve-returns fifo fuel s' (rw kept.0 d.valid)
                (rw kept.0 (rw d.ring (omega arith))) in
            (t, rw (d.returned, y, serve) e)
      ]
