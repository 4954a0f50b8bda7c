-- ===== src/Firmware/Core1/Serving.antt =====
-- A wake-up of core 1 from the first frame to the last, and where it stops short.
use easy_lo_ra_reforged.Base.{
  ap, ℕ, zero, suc, ◌+◌, ◌≤◌, ◌<◌, ◌≡◌, refl, subst, ◌∙◌, false, List, [], ◌∷◌, ◌++◌, some, length,
  arith, append-nil, append_assoc, length-append, ◌⊎◌,
}
use easy_lo_ra_reforged.Protocol.Errors.{Expected}
use easy_lo_ra_reforged.Firmware.RingBuffer.{RingBuffer, IsFifo}
use easy_lo_ra_reforged.Firmware.FrameWaiter.{
  buffer_too_small, incomplete_frame, try_read_frame, packet_delimiter,
}
use easy_lo_ra_reforged.Firmware.FrameWaiter.Receive.{pending, IsValid, Did}
use easy_lo_ra_reforged.Firmware.FrameWaiter.Frames.{next_frame}
use easy_lo_ra_reforged.Firmware.FrameWaiter.Streams.{
  to_stream, All, IsDelimiterFree, next_frame-append, next_frame-none, cut_behind,
  IsDelimiterFree-right,
}
use easy_lo_ra_reforged.Firmware.FrameWaiter.Delivery.{
  try_read_frame-complete, try_read_frame-incomplete, Fits,
}
use easy_lo_ra_reforged.Firmware.Responder.{Frames, Frame}
use easy_lo_ra_reforged.Firmware.Core1.{Core1, after_reading, serve}
use easy_lo_ra_reforged.Firmware.Core1.Replies.{
  reply_to, replies, payload_after, Keeps, Keeps-trans, Queued, Wakes, array_size, output_size,
  serve-next,
}

module _ (F : Frames) (decode : List ℕ → Expected (Frame F) F.ProtocolErrors)
    (encode : Frame F → Expected (List ℕ) F.ProtocolErrors) (Rx Tx : RingBuffer) (fifo : IsFifo Rx)
    (tx_fifo : IsFifo Tx) where
  -- No whole frame is left: the rest of the stream becomes the pending frame.
  pub serve-last :
      (s : Core1 F Rx Tx) (tail : List ℕ) (fuel : ℕ)
      → Wakes F decode encode Rx Tx fifo tx_fifo s tail
      → Fits Rx fifo (array_size F decode encode Rx Tx fifo tx_fifo s) tail
      → s.uart_0_rx_frame_waiter.overflow ≡ false
      → (t : Core1 F Rx Tx) × (serve F Rx Tx decode encode (suc fuel) s ≡ some t)
        × (Rx.contents t.uart_0_rx_frame_waiter.buffer ≡ [])
        × (pending Rx t.uart_0_rx_frame_waiter ≡ tail)
        × (t.uart_0_tx_frame_waiter ≡ s.uart_0_tx_frame_waiter)
        × IsValid Rx t.uart_0_rx_frame_waiter
        × (t.uart_0_rx_frame_waiter.overflow ≡ false)
        × Keeps F decode encode Rx Tx fifo tx_fifo s t
        × (t.response_frame_payload ≡ s.response_frame_payload)
  unfolding serve
  serve-last s tail fuel k fits quiet =
      let output = s.received_frame_codified_buffer in
      let d : Did Rx s.uart_0_rx_frame_waiter output
          (try_read_frame Rx s.uart_0_rx_frame_waiter (some output) (length output))
          (record {
            status = incomplete_frame;
            frame = [];
            pending = tail;
            unread = [];
            overflow = false;
          }) =
        subst
          (Did Rx s.uart_0_rx_frame_waiter output
            (try_read_frame Rx s.uart_0_rx_frame_waiter (some output) (length output)))
          (ground (arith, k.unread, fits, quiet))
          (try_read_frame-incomplete Rx fifo s.uart_0_rx_frame_waiter output (length output) k.valid
            (next_frame-none (Rx.contents s.uart_0_rx_frame_waiter.buffer) (
              IsDelimiterFree-right (pending Rx s.uart_0_rx_frame_waiter)
                (Rx.contents s.uart_0_rx_frame_waiter.buffer) (rw k.unread fits.0)))) in
      (
        after_reading F Rx Tx decode encode s d.reading,
        rw (d.returned, d.status, serve) refl,
        d.ring,
        d.pending_frame,
        refl,
        d.valid,
        d.overflowed,
        record {
          array = d.array;
          output = ap length d.output_buffer;
          listening = d.producer;
          callback = d.callback;
        },
        refl,
      )

  -- Core 1 has answered the frames `fs`, and goes to sleep with `tail` pending.
  pub record Served (s t : Core1 F Rx Tx) (fs : List (List ℕ)) (tail queue : List ℕ) : Type 0 where
    pub emptied : Rx.contents t.uart_0_rx_frame_waiter.buffer ≡ []
    pub begun : pending Rx t.uart_0_rx_frame_waiter ≡ tail
    pub valid : IsValid Rx t.uart_0_rx_frame_waiter
    pub quiet : t.uart_0_rx_frame_waiter.overflow ≡ false
    pub kept : Keeps F decode encode Rx Tx fifo tx_fifo s t
    pub queued :
        Queued F decode encode Rx Tx fifo tx_fifo t
          (queue ++ replies F decode encode fs s.response_frame_payload)
    pub payload :
        t.response_frame_payload ≡ payload_after F decode encode fs s.response_frame_payload

  pub serve-Served :
      (fs : List (List ℕ)) (tail : List ℕ) (s : Core1 F Rx Tx) (queue : List ℕ) (fuel : ℕ)
      → Wakes F decode encode Rx Tx fifo tx_fifo s (to_stream fs ++ tail)
      → All (Fits Rx fifo (array_size F decode encode Rx Tx fifo tx_fifo s)) fs
      → All (Fits Rx fifo (output_size F decode encode Rx Tx fifo tx_fifo s)) fs
      → Fits Rx fifo (array_size F decode encode Rx Tx fifo tx_fifo s) tail
      → s.uart_0_rx_frame_waiter.overflow ≡ false
      → Queued F decode encode Rx Tx fifo tx_fifo s queue
      → length queue + length (replies F decode encode fs s.response_frame_payload) ≤ Tx.capacity
      → length fs < fuel
      → (t : Core1 F Rx Tx) × (serve F Rx Tx decode encode fuel s ≡ some t)
        × Served s t fs tail queue
  unfolding replies payload_after
  serve-Served fs tail s queue zero k fits fits' last quiet q room more = absurd (omega arith)
  serve-Served [] tail s queue (suc fuel) k fits fits' last quiet q room more =
      let (t, e, empty, left, same, v, calm, kept, payload) = serve-last s tail fuel k last quiet in
      (
        t,
        e,
        record {
          emptied = empty;
          begun = left;
          valid = v;
          quiet = calm;
          kept = kept;
          queued = rw (same, append-nil queue) q;
          payload = payload;
        },
      )
  serve-Served (f ∷ fs) tail s queue (suc fuel) k fits fits' last quiet q room more =
      let p = s.response_frame_payload in
      let one = reply_to F decode encode (decode f) p in
      let (u, round, k', same, quiet', q', payload) =
        serve-next F decode encode Rx Tx fifo tx_fifo s f (to_stream fs ++ tail) queue
          (rw (append_assoc f (packet_delimiter ∷ to_stream fs) tail) at k) fits.0 fits'.0 q
          (omega (arith, length-append one.0 (replies F decode encode fs one.1))) in
      let (t, e, d) =
        serve-Served fs tail u (queue ++ one.0) fuel k' (rw same.array fits.1)
          (rw same.output fits'.1) (rw same.array last) (quiet' ∙ quiet) q'
          (rw payload (
            omega (
              arith,
              length-append queue one.0,
              length-append one.0 (replies F decode encode fs one.1),
            )))
          (omega arith) in
      (
        t,
        round fuel ∙ e,
        record {
          emptied = d.emptied;
          begun = d.begun;
          valid = d.valid;
          quiet = d.quiet;
          kept = Keeps-trans F decode encode Rx Tx fifo tx_fifo same d.kept;
          queued =
              subst (Queued F decode encode Rx Tx fifo tx_fifo t)
                (ap (λ b. (queue ++ one.0) ++ replies F decode encode fs b) payload
                  ∙ append_assoc queue one.0 (replies F decode encode fs one.1))
                d.queued;
          payload = d.payload ∙ ap (payload_after F decode encode fs) payload;
        },
      )

  -- Core 1 wakes up with whole frames `fs` and the beginning `tail` of another to be read, of which a
  -- part may have been pending before; the frames fit the pending array and the output buffer, no
  -- overflow is flagged, and the queue of the sender has room for the replies. Then, with more fuel
  -- than frames, the loop returns, the whole frames are answered in their order, each reply with a
  -- delimiter behind it and none for a frame that cannot be decoded or answered, the ring is empty, and
  -- `tail` waits to be completed.
  pub serve-replies :
      (fs : List (List ℕ)) (tail : List ℕ) (s : Core1 F Rx Tx) (queue : List ℕ) (fuel : ℕ)
      → Wakes F decode encode Rx Tx fifo tx_fifo s (to_stream fs ++ tail)
      → All (Fits Rx fifo (array_size F decode encode Rx Tx fifo tx_fifo s)) fs
      → All (Fits Rx fifo (output_size F decode encode Rx Tx fifo tx_fifo s)) fs
      → Fits Rx fifo (array_size F decode encode Rx Tx fifo tx_fifo s) tail
      → s.uart_0_rx_frame_waiter.overflow ≡ false
      → Queued F decode encode Rx Tx fifo tx_fifo s queue
      → length queue + length (replies F decode encode fs s.response_frame_payload) ≤ Tx.capacity
      → length fs < fuel
      → (t : Core1 F Rx Tx) × (serve F Rx Tx decode encode fuel s ≡ some t)
        × (Tx.contents t.uart_0_tx_frame_waiter.buffer
            ≡ queue ++ replies F decode encode fs s.response_frame_payload)
        × (Rx.contents t.uart_0_rx_frame_waiter.buffer ≡ [])
        × (pending Rx t.uart_0_rx_frame_waiter ≡ tail)
  serve-replies fs tail s queue fuel k fits fits' last quiet q room more =
      let (t, e, d) = serve-Served fs tail s queue fuel k fits fits' last quiet q room more in
      (t, e, d.queued.1, d.emptied, d.begun)

  -- A frame that does not fit the pending array or the output buffer ends the wake-up, although whole
  -- frames wait behind it: they stay in the ring unread, and nothing is sent.
  pub serve-stops :
      (s : Core1 F Rx Tx) (f rest : List ℕ) (fuel : ℕ)
      → Wakes F decode encode Rx Tx fifo tx_fifo s (f ++ packet_delimiter ∷ rest)
      → IsDelimiterFree f
      → (array_size F decode encode Rx Tx fifo tx_fifo s < length f)
        ⊎ (output_size F decode encode Rx Tx fifo tx_fifo s < length f)
      → (t : Core1 F Rx Tx) × (serve F Rx Tx decode encode (suc fuel) s ≡ some t)
        × Wakes F decode encode Rx Tx fifo tx_fifo t rest
        × (t.uart_0_tx_frame_waiter ≡ s.uart_0_tx_frame_waiter)
  unfolding serve
  serve-stops s f rest fuel k free long =
      let output = s.received_frame_codified_buffer in
      let (g, whole, more) =
        cut_behind (pending Rx s.uart_0_rx_frame_waiter)
          (Rx.contents s.uart_0_rx_frame_waiter.buffer) f rest k.pending_free k.unread in
      let d : Did Rx s.uart_0_rx_frame_waiter output
          (try_read_frame Rx s.uart_0_rx_frame_waiter (some output) (length output))
          (record {
            status = buffer_too_small;
            frame = [];
            pending = [];
            unread = rest;
            overflow = s.uart_0_rx_frame_waiter.overflow;
          }) =
        subst
          (Did Rx s.uart_0_rx_frame_waiter output
            (try_read_frame Rx s.uart_0_rx_frame_waiter (some output) (length output)))
          (ground (arith, rw whole at long))
          (try_read_frame-complete Rx fifo s.uart_0_rx_frame_waiter output (length output) {f = g}
            {rest = rest} k.valid
            (ap next_frame more
              ∙ next_frame-append g rest (
                  IsDelimiterFree-right (pending Rx s.uart_0_rx_frame_waiter) g
                    (rw whole at free)))) in
      (
        after_reading F Rx Tx decode encode s d.reading,
        rw (d.returned, d.status, serve) refl,
        record {
          valid = d.valid;
          pending_free = rw d.pending_frame tt;
          unread = rw d.pending_frame d.ring;
        },
        refl,
      )
