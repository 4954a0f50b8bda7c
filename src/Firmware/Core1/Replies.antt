-- ===== src/Firmware/Core1/Replies.antt =====
-- What core 1 sends for the frames that it finds.
use easy_lo_ra_reforged.Base.{
  ℕ, suc, ◌+◌, ◌≤◌, ◌≡◌, refl, ap, ◌∙◌, false, List, [], ◌∷◌, ◌++◌, length, take, drop, arith,
  append-nil, append_assoc, length-append, length-drop, take-append,
}
use easy_lo_ra_reforged.Protocol.Errors.{Expected, value, unexpected}
use easy_lo_ra_reforged.Firmware.RingBuffer.{RingBuffer, IsFifo}
use easy_lo_ra_reforged.Firmware.FrameWaiter.{packet_delimiter, feed_range, insert_delimiter}
use easy_lo_ra_reforged.Firmware.FrameWaiter.Receive.{pending, IsValid}
use easy_lo_ra_reforged.Firmware.FrameWaiter.Streams.{IsDelimiterFree}
use easy_lo_ra_reforged.Firmware.FrameWaiter.Delivery.{feed_range-Fed, read_next, Fits}
use easy_lo_ra_reforged.Firmware.Responder.{Frames, Frame, dispatch}
use easy_lo_ra_reforged.Firmware.Core1.{Core1, send_response, answer, after_reading, serve}
use easy_lo_ra_reforged.Firmware.Core1.Termination.{answer-keeps}

module _ (F : Frames) (decode : List ℕ → Expected (Frame F) F.ProtocolErrors)
    (encode : Frame F → Expected (List ℕ) F.ProtocolErrors) where
  -- The bytes sent for the result of `dispatch`: the encoded response and a delimiter, or nothing.
  abbrev pub encoded : Expected (List ℕ) F.ProtocolErrors → List ℕ
  encoded (unexpected e) = []
  encoded (value bytes) = bytes ++ packet_delimiter ∷ []

  abbrev pub sent : Expected (Frame F) F.ProtocolErrors → List ℕ
  sent (unexpected e) = []
  sent (value response) = encoded (encode response)

  -- The bytes sent for a received frame, and the payload buffer afterwards.
  abbrev pub reply_to : Expected (Frame F) F.ProtocolErrors → List ℕ → List ℕ × List ℕ
  reply_to (unexpected e) payload = ([], payload)
  reply_to (value frame) payload = let a = dispatch F frame payload 0 in (sent a.result, a.buffer)

  unfoldable pub replies : List (List ℕ) → List ℕ → List ℕ
  replies [] payload = []
  replies (f ∷ fs) payload =
      let (bytes, payload') = reply_to (decode f) payload in bytes ++ replies fs payload'

  -- The payload buffer after the frames are answered.
  unfoldable pub payload_after : List (List ℕ) → List ℕ → List ℕ
  payload_after [] payload = payload
  payload_after (f ∷ fs) payload = payload_after fs (reply_to (decode f) payload).1

  module _ (Rx Tx : RingBuffer) (fifo : IsFifo Rx) (tx_fifo : IsFifo Tx) where
    -- The queue of the sender listens, and holds `bytes`.
    abbrev pub Queued : Core1 F Rx Tx → List ℕ → Type 0
    Queued s bytes =
        (s.uart_0_tx_frame_waiter.dropping_feed_bytes ≡ false)
        × (Tx.contents s.uart_0_tx_frame_waiter.buffer ≡ bytes)

    send_response-Queued :
        (s : Core1 F Rx Tx) (queue : List ℕ) (result : Expected (Frame F) F.ProtocolErrors)
        → Queued s queue
        → length queue + length (sent result) ≤ Tx.capacity
        → Queued (send_response F Rx Tx decode encode s result) (queue ++ sent result)
          × ((send_response F Rx Tx decode encode s result).response_frame_payload
              ≡ s.response_frame_payload)
    unfolding send_response feed_range insert_delimiter
    send_response-Queued s queue (unexpected e) q = λ room. (rw (append-nil queue) q, refl)
    send_response-Queued s queue (value response) q = go (encode response) refl
      where
        go :
            (o : Expected (List ℕ) F.ProtocolErrors)
            → encode response ≡ o
            → length queue + length (encoded (encode response)) ≤ Tx.capacity
            → Queued
                (send_response F Rx Tx decode encode s (value response))
                (queue ++ encoded (encode response))
              × ((send_response F Rx Tx decode encode s (value response)).response_frame_payload
                  ≡ s.response_frame_payload)
        go (unexpected e) m = rw (m, send_response, append-nil queue) (λ room. (q, refl))
        go (value bytes) m =
            rw (m, send_response)
              (λ room.
                let w = s.uart_0_tx_frame_waiter in
                let held : length (Tx.contents w.buffer) ≡ length queue = rw q.1 refl in
                let long = length-append bytes (packet_delimiter ∷ []) in
                let one = feed_range-Fed Tx tx_fifo w bytes q.0 (omega (arith, room, held, long)) in
                let v = feed_range Tx w bytes in
                let grown : length (Tx.contents v.buffer) ≡ length queue + length bytes =
                  rw (one.stored, q.1) (length-append queue bytes) in
                let two =
                  feed_range-Fed Tx tx_fifo v (packet_delimiter ∷ []) one.receiving
                    (omega (arith, room, grown, long)) in
                (
                  (
                    two.receiving,
                    two.stored
                        ∙ ap (λ l. l ++ packet_delimiter ∷ [])
                            (one.stored ∙ ap (λ l. l ++ bytes) q.1)
                        ∙ append_assoc queue bytes (packet_delimiter ∷ []),
                  ),
                  refl,
                ))

    dispatch_written :
        (frame : Frame F) (payload : List ℕ) (n : ℕ)
        → dispatch F frame payload n ≡ dispatch F frame payload 0
    unfolding dispatch
    dispatch_written frame payload n = refl

    answer-Queued :
        (s : Core1 F Rx Tx) (queue : List ℕ) (e : Expected (Frame F) F.ProtocolErrors)
        → Queued s queue
        → length queue + length (reply_to e s.response_frame_payload).0 ≤ Tx.capacity
        → Queued
            (answer F Rx Tx decode encode s e)
            (queue ++ (reply_to e s.response_frame_payload).0)
          × ((answer F Rx Tx decode encode s e).response_frame_payload
              ≡ (reply_to e s.response_frame_payload).1)
    unfolding answer
    answer-Queued s queue (unexpected e) q room = (rw (append-nil queue) q, refl)
    answer-Queued s queue (value frame) q room =
        let a = dispatch F frame s.response_frame_payload 0 in
        rw (dispatch_written frame s.response_frame_payload s.bytes_written, answer)
          (send_response-Queued
            (record s { response_frame_payload = a.buffer; bytes_written = a.bytes_written }) queue
            a.result q room)

    -- Core 1 when it wakes up with the bytes `stream` to be read: the beginning of a frame that is
    -- pending, and the ring.
    pub record Wakes (s : Core1 F Rx Tx) (stream : List ℕ) : Type 0 where
      pub valid : IsValid Rx s.uart_0_rx_frame_waiter
      pub pending_free : IsDelimiterFree (pending Rx s.uart_0_rx_frame_waiter)
      pub unread :
          pending Rx s.uart_0_rx_frame_waiter ++ Rx.contents s.uart_0_rx_frame_waiter.buffer
          ≡ stream

    abbrev pub array_size : Core1 F Rx Tx → ℕ
    array_size s = length s.uart_0_rx_frame_waiter.pending_frame_buffer

    abbrev pub output_size : Core1 F Rx Tx → ℕ
    output_size s = length s.received_frame_codified_buffer

    -- What core 1 leaves alone while it answers.
    pub record Keeps (s t : Core1 F Rx Tx) : Type 0 where
      pub array : array_size t ≡ array_size s
      pub output : output_size t ≡ output_size s
      pub listening :
          t.uart_0_rx_frame_waiter.dropping_feed_bytes
          ≡ s.uart_0_rx_frame_waiter.dropping_feed_bytes
      pub callback : t.uart_0_rx_frame_waiter.callback ≡ s.uart_0_rx_frame_waiter.callback

    pub Keeps-trans : {s t u : Core1 F Rx Tx} → Keeps s t → Keeps t u → Keeps s u
    Keeps-trans a b = record {
      array = b.array ∙ a.array;
      output = b.output ∙ a.output;
      listening = b.listening ∙ a.listening;
      callback = b.callback ∙ a.callback;
    }

    reading-size :
        (f output rest : List ℕ)
        → length f ≤ length output
        → rest ≡ f ++ drop (length f) output
        → length rest ≡ length output
    reading-size f output rest h e = omega (
      arith,
      ap (length {A = ℕ}) e,
      length-append f (drop (length f) output),
      length-drop (length f) output,
    )

    -- One round: a whole frame waits, and its reply is queued.
    pub serve-next :
        (s : Core1 F Rx Tx) (f rest queue : List ℕ)
        → Wakes s (f ++ packet_delimiter ∷ rest)
        → Fits Rx fifo (array_size s) f
        → Fits Rx fifo (output_size s) f
        → Queued s queue
        → length queue + length (reply_to (decode f) s.response_frame_payload).0 ≤ Tx.capacity
        → (t : Core1 F Rx Tx) × ((fuel : ℕ)
            → serve F Rx Tx decode encode (suc fuel) s ≡ serve F Rx Tx decode encode fuel t)
          × Wakes t rest
          × Keeps s t
          × (t.uart_0_rx_frame_waiter.overflow ≡ s.uart_0_rx_frame_waiter.overflow)
          × Queued t (queue ++ (reply_to (decode f) s.response_frame_payload).0)
          × (t.response_frame_payload ≡ (reply_to (decode f) s.response_frame_payload).1)
    unfolding serve
    serve-next s f rest queue k fits fits' q room =
        let output = s.received_frame_codified_buffer in
        let d =
          read_next Rx fifo s.uart_0_rx_frame_waiter output f rest (length output) k.valid
            k.pending_free k.unread fits.0 fits.1 fits'.1 in
        let r = d.reading in
        let read = after_reading F Rx Tx decode encode s r in
        let got : take r.bytes_written r.output ≡ f =
          rw (d.bytes_written, d.output_buffer) (take-append (length f) f _ refl) in
        let t = answer F Rx Tx decode encode read (decode f) in
        let (kept, kept') = answer-keeps F Rx Tx decode encode read (decode f) in
        let sent' = answer-Queued read queue (decode f) q room in
        (
          t,
          (λ fuel. rw (d.returned, d.status, got, serve) refl),
          record {
            valid = rw kept d.valid;
            pending_free = rw (kept, d.pending_frame) tt;
            unread = rw (kept, d.pending_frame) d.ring;
          },
          record {
            array = rw kept d.array;
            output = rw kept' (reading-size f output r.output fits'.1 d.output_buffer);
            listening = rw kept d.producer;
            callback = rw kept d.callback;
          },
          rw kept d.overflowed,
          sent'.0,
          sent'.1,
        )
