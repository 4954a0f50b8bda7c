-- ===== src/Firmware/FrameWaiter/Faults.antt =====
-- What becomes of frames that do not fit: refusals of the producer, overflow, and overlong frames.
use easy_lo_ra_reforged.Base.{
  ℕ, ◌+◌, ◌≤◌, ◌<◌, ◌≡◌, sym, ap, ◌∙◌, subst, Bool, true, false, List, [], ◌∷◌, ◌++◌, none, some,
  arith, length, append_assoc, length-append,
}
use easy_lo_ra_reforged.Firmware.RingBuffer.{RingBuffer, IsFifo}
use easy_lo_ra_reforged.Firmware.FrameWaiter.{
  ok, buffer_too_small, packet_delimiter, FrameWaiter, feed, feed_range, try_read_frame,
}
use easy_lo_ra_reforged.Firmware.FrameWaiter.Receive.{pending, IsValid, Did}
use easy_lo_ra_reforged.Firmware.FrameWaiter.Frames.{next_frame}
use easy_lo_ra_reforged.Firmware.FrameWaiter.Streams.{IsDelimiterFree, IsDelimiterFree-append}
use easy_lo_ra_reforged.Firmware.FrameWaiter.Delivery.{
  Fed, feed_range-Fed, try_read_frame-incomplete, read_one,
}

module _ (R : RingBuffer) (fifo : IsFifo R) where
  open R use {Ring, contents, insert, capacity}

  -- Nothing but the producer's flags changes.
  pub record Refused (w v : FrameWaiter R) (overflowed dropping : Bool) : Type 0 where
    pub kept : contents v.buffer ≡ contents w.buffer
    pub array : v.pending_frame_buffer ≡ w.pending_frame_buffer
    pub size : v.pending_frame_size ≡ w.pending_frame_size
    pub overflowed' : v.overflow ≡ overflowed
    pub dropping' : v.dropping_feed_bytes ≡ dropping
    pub notified : v.notified ≡ w.notified

  -- A byte that the full ring refuses is lost, an overflow is flagged and the producer goes deaf.
  pub feed_full :
      (w : FrameWaiter R) (byte : ℕ)
      → w.dropping_feed_bytes ≡ false
      → capacity ≤ length (contents w.buffer)
      → Refused w (feed R w byte) true true
  unfolding feed
  feed_full w byte idle full =
      ground (arith, fifo.inserted byte w.buffer, fifo.contents-insert byte w.buffer)

  -- A deaf producer stores and announces nothing, up to and including the next delimiter, after which it
  -- listens again.
  pub feed_range_dropping :
      (w : FrameWaiter R) (bytes : List ℕ)
      → w.dropping_feed_bytes ≡ true
      → IsDelimiterFree bytes
      → Refused w (feed_range R w (bytes ++ packet_delimiter ∷ [])) w.overflow false
  unfolding feed feed_range
  feed_range_dropping w [] deaf free = ground arith
  feed_range_dropping w (b ∷ bytes) deaf free =
      ground (arith, feed_range_dropping w bytes deaf free.1)

  -- After an overflow the beginning `part` of the lost frame stays in the ring. If the consumer does not
  -- empty the ring first, the producer's next frame `f` is stored right behind it: `tryReadFrame` then
  -- returns OK with `part ++ f`, which was never sent, while the overflow is still unreported.
  pub overflow_splices :
      (w : FrameWaiter R) (output lost part f : List ℕ) (buffer_capacity : ℕ)
      → IsValid R w
      → w.dropping_feed_bytes ≡ true
      → w.overflow ≡ true
      → pending R w ≡ []
      → contents w.buffer ≡ part
      → IsDelimiterFree lost
      → IsDelimiterFree part
      → IsDelimiterFree f
      → length part + length f + 1 ≤ capacity
      → length part + length f ≤ length w.pending_frame_buffer
      → length part + length f ≤ buffer_capacity
      → let v =
          feed_range R
            (feed_range R w (lost ++ packet_delimiter ∷ []))
            (f ++ packet_delimiter ∷ []) in
        Did R v output
          (try_read_frame R v (some output) buffer_capacity)
          (record { status = ok; frame = part ++ f; pending = []; unread = []; overflow = true })
  overflow_splices w output lost part f room v deaf over p e free_lost free_part free small fits
        fits' =
      let r = feed_range_dropping w lost deaf free_lost in
      let listening = feed_range R w (lost ++ packet_delimiter ∷ []) in
      let fed = feed_range-Fed R fifo listening (f ++ packet_delimiter ∷ []) r.dropping' (
        omega (
          arith,
          ap (length {A = ℕ}) r.kept,
          ap (length {A = ℕ}) e,
          length-append f (packet_delimiter ∷ []),
        )) in
      let last = feed_range R listening (f ++ packet_delimiter ∷ []) in
      subst
        (λ o.
          Did R last output (try_read_frame R last (some output) room)
            (record { status = ok; frame = part ++ f; pending = []; unread = []; overflow = o }))
        (fed.overflowed ∙ r.overflowed' ∙ over)
        (read_one R fifo last output (part ++ f) [] room
          (rw (fed.size, fed.array, r.size, r.array) v)
          (rw (fed.size, fed.array, r.size, r.array) p)
          (fed.stored ∙ rw (r.kept, e) (sym (append_assoc part f (packet_delimiter ∷ []))))
          (IsDelimiterFree-append part f free_part free)
          (rw (fed.array, r.array) (omega (arith, length-append part f)))
          (omega (arith, length-append part f)))

  -- A frame longer than the pending array, read before its delimiter has arrived, is dropped with
  -- BufferTooSmall, but only as far as it has arrived: its tail `t`, once fed with the delimiter, is then
  -- returned with OK as if it were a frame.
  pub overlong_tail :
      (w : FrameWaiter R) (output output' t : List ℕ) (buffer_capacity : ℕ)
      → IsValid R w
      → w.dropping_feed_bytes ≡ false
      → next_frame (contents w.buffer) ≡ none
      → length w.pending_frame_buffer < length (pending R w ++ contents w.buffer)
      → IsDelimiterFree t
      → length t + 1 ≤ capacity
      → length t ≤ length w.pending_frame_buffer
      → length t ≤ buffer_capacity
      → (d : Did R w output (try_read_frame R w (some output) buffer_capacity) (record {
        status = buffer_too_small;
        frame = [];
        pending = [];
        unread = [];
        overflow = w.overflow;
      }))
        × (let v = feed_range R d.reading.waiter (t ++ packet_delimiter ∷ []) in
            Did R v output'
              (try_read_frame R v (some output') buffer_capacity)
              (record { status = ok; frame = t; pending = []; unread = []; overflow = w.overflow }))
  overlong_tail w output output' t room v listening partial long free small fits fits' = (
    dropped,
    subst
        (λ o.
          Did R last output' (try_read_frame R last (some output') room)
            (record { status = ok; frame = t; pending = []; unread = []; overflow = o }))
        (fed.overflowed ∙ dropped.overflowed)
        (read_one R fifo last output' t [] room (rw (fed.size, fed.array) dropped.valid)
          (rw (fed.size, fed.array) dropped.pending_frame) (fed.stored ∙ rw dropped.ring) free
          (rw (fed.array, dropped.array) fits) fits'),
  )
    where
      dropped : Did R w output (try_read_frame R w (some output) room) (record {
        status = buffer_too_small;
        frame = [];
        pending = [];
        unread = [];
        overflow = w.overflow;
      })
      dropped =
          subst (Did R w output (try_read_frame R w (some output) room)) (ground arith)
            (try_read_frame-incomplete R fifo w output room v partial)

      fed :
          Fed R fifo dropped.reading.waiter
            (feed_range R dropped.reading.waiter (t ++ packet_delimiter ∷ []))
            (t ++ packet_delimiter ∷ [])
      fed =
          feed_range-Fed R fifo dropped.reading.waiter (t ++ packet_delimiter ∷ [])
            (dropped.producer ∙ listening)
            (rw dropped.ring (omega (arith, length-append t (packet_delimiter ∷ []))))

      last : FrameWaiter R
      last = feed_range R dropped.reading.waiter (t ++ packet_delimiter ∷ [])
