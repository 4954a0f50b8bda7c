-- ===== src/Firmware/Core1.antt =====
-- firmware/lib/Core_1/Core_1.cpp: core 1, which answers frames. The body of the endless loop of `main` is
-- `serve`: it runs when an event wakes the core. `ProtocolDecoder::decode` and `ProtocolCodec::encode`
-- are not in the repository and are the parameters `decode` and `encode`; what they leave in the scratch
-- arrays that they are given is not looked at again.
pub mod Termination
pub mod Replies
pub mod Serving
pub mod Wakeup
pub mod Tests
use easy_lo_ra_reforged.Base.{
  ℕ, zero, suc, Bool, true, false, List, [], ◌∷◌, Option, none, some, length, take, if◌then◌else◌,
}
use easy_lo_ra_reforged.Protocol.Errors.{Expected, value, unexpected}
use easy_lo_ra_reforged.Firmware.RingBuffer.{RingBuffer}
use easy_lo_ra_reforged.Firmware.FrameWaiter.{
  ReadFrameStatus, ok, FrameWaiter, Reading, try_read_frame, feed_range, insert_delimiter,
}
use easy_lo_ra_reforged.Firmware.Responder.{Frames, Frame, Answer, dispatch}

abbrev pub is_ok : ReadFrameStatus → Bool
is_ok ok = true
is_ok _ = false

module _ (F : Frames) (Rx Tx : RingBuffer) where
  -- `UART_0_Rx_FrameWaiter` and `UART_0_Tx_FrameWaiter` of Instances.hpp as Core_1.cpp has them,
  -- `receivedFrameCodifiedBuffer_m`, `responseFramePayload_m` and `bytesWritten_m`.
  pub record Core1 : Type 0 where
    pub uart_0_rx_frame_waiter : FrameWaiter Rx
    pub uart_0_tx_frame_waiter : FrameWaiter Tx
    pub received_frame_codified_buffer : List ℕ
    pub response_frame_payload : List ℕ
    pub bytes_written : ℕ

  module _ (decode : List ℕ → Expected (Frame F) F.ProtocolErrors)
      (encode : Frame F → Expected (List ℕ) F.ProtocolErrors) where
    -- The end of a round: the response is encoded and put in the queue of the sender.
    unfoldable pub send_response : Core1 → Expected (Frame F) F.ProtocolErrors → Core1
    send_response s (unexpected e) = s
    send_response s (value response_frame) = elim (encode response_frame) [
      | unexpected e ↦ s
      | value bytes ↦ record s {
        uart_0_tx_frame_waiter = insert_delimiter Tx (feed_range Tx s.uart_0_tx_frame_waiter bytes);
      }
    ]

    -- A round behind `decode`.
    unfoldable pub answer : Core1 → Expected (Frame F) F.ProtocolErrors → Core1
    answer s (unexpected e) = s
    answer s (value received_frame) =
        let a = dispatch F received_frame s.response_frame_payload s.bytes_written in
        send_response
          (record s { response_frame_payload = a.buffer; bytes_written = a.bytes_written }) a.result

    -- What `tryReadFrame` leaves.
    abbrev pub after_reading : Core1 → Reading Rx → Core1
    after_reading s r = record s {
      uart_0_rx_frame_waiter = r.waiter;
      received_frame_codified_buffer = r.output;
      bytes_written = r.bytes_written;
    }

    -- `while (tryReadFrame(...) == ReadFrameStatus::OK)`, on fuel; `none` means that the fuel ran out.
    unfoldable pub serve : ℕ → Core1 → Option Core1
    serve zero s = none
    serve (suc fuel) s =
        elim (try_read_frame Rx s.uart_0_rx_frame_waiter (some s.received_frame_codified_buffer)
          (length s.received_frame_codified_buffer)) [
            | none ↦ none
            | some r ↦
                let next =
                  serve fuel
                    (answer (after_reading s r) (decode (take r.bytes_written r.output))) in
                if is_ok r.status then next else some (after_reading s r)
          ]
