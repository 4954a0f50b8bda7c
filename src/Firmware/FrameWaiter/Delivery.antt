-- ===== src/Firmware/FrameWaiter/Delivery.antt =====
-- From `feed` to `tryReadFrame`: frames that fit arrive, once, in order and unchanged.
use easy_lo_ra_reforged.Base.{
  ℕ, zero, suc, ◌+◌, ◌≤◌, ◌<◌, ◌≡◌, refl, sym, ap, ◌∙◌, subst, Bool, true, false, List, [], ◌∷◌,
  ◌++◌, none, some, arith, length, if◌then◌else◌, append-nil, append_assoc, length-append,
  length-take, take, take-append,
}
use easy_lo_ra_reforged.Firmware.RingBuffer.{RingBuffer, IsFifo}
use easy_lo_ra_reforged.Firmware.FrameWaiter.{
  ReadFrameStatus, ok, packet_delimiter, FrameWaiter, feed, feed_range, try_read_frame,
}
use easy_lo_ra_reforged.Firmware.FrameWaiter.Receive.{pending, IsValid, Did}
use easy_lo_ra_reforged.Firmware.FrameWaiter.Loop.{try_read_frame_lem}
use easy_lo_ra_reforged.Firmware.FrameWaiter.Frames.{
  next_frame, complete, receive-complete, incomplete, receive-incomplete,
}
use easy_lo_ra_reforged.Firmware.FrameWaiter.Streams.{
  to_stream, All, IsDelimiterFree, next_frame-append, delimiters, cut_behind, IsDelimiterFree-right,
}

module _ (R : RingBuffer) (fifo : IsFifo R) where
  open R use {Ring, contents, remove, insert, capacity}

  -- What a producer that found room has done to a waiter: the consumer's side and the flags are as they
  -- were, and each delimiter was announced by one call of the callback.
  pub record Fed (w v : FrameWaiter R) (bytes : List ℕ) : Type 0 where
    pub stored : contents v.buffer ≡ contents w.buffer ++ bytes
    pub array : v.pending_frame_buffer ≡ w.pending_frame_buffer
    pub size : v.pending_frame_size ≡ w.pending_frame_size
    pub overflowed : v.overflow ≡ w.overflow
    pub receiving : v.dropping_feed_bytes ≡ false
    pub callback : v.callback ≡ w.callback
    pub notified : v.notified ≡ (if w.callback then w.notified + delimiters bytes else w.notified)

  feed-Fed :
      (w : FrameWaiter R) (byte : ℕ)
      → w.dropping_feed_bytes ≡ false
      → length (contents w.buffer) < capacity
      → Fed w (feed R w byte) (byte ∷ [])
  unfolding feed delimiters
  feed-Fed w byte idle room =
      ground (arith, fifo.inserted byte w.buffer, fifo.contents-insert byte w.buffer)

  Fed-cons :
      (w v u : FrameWaiter R) (byte : ℕ) (bytes : List ℕ)
      → Fed w v (byte ∷ [])
      → Fed v u bytes
      → Fed w u (byte ∷ bytes)
  unfolding delimiters
  Fed-cons w v u byte bytes a b = record {
    stored =
        b.stored
        ∙ ap (λ t. t ++ bytes) a.stored
        ∙ append_assoc (contents w.buffer) (byte ∷ []) bytes;
    array = b.array ∙ a.array;
    size = b.size ∙ a.size;
    overflowed = b.overflowed ∙ a.overflowed;
    receiving = b.receiving;
    callback = b.callback ∙ a.callback;
    notified = ground (arith, a.notified, b.notified, a.callback);
  }

  -- A producer that is not dropping, with room in the ring for all the bytes, stores them all in order.
  pub feed_range-Fed :
      (w : FrameWaiter R) (bytes : List ℕ)
      → w.dropping_feed_bytes ≡ false
      → length (contents w.buffer) + length bytes ≤ capacity
      → Fed w (feed_range R w bytes) bytes
  unfolding feed_range delimiters
  feed_range-Fed w [] idle room = record {
    stored = sym (append-nil (contents w.buffer));
    array = refl;
    size = refl;
    overflowed = refl;
    receiving = idle;
    callback = refl;
    notified = ground arith;
  }
  feed_range-Fed w (b ∷ bs) idle room =
      let one = feed-Fed w b idle (omega arith) in
      let stored : length (contents (feed R w b).buffer) ≡ length (contents w.buffer) + 1 =
        omega (arith, ap (length {A = ℕ}) one.stored, length-append (contents w.buffer) (b ∷ [])) in
      Fed-cons w (feed R w b) (feed_range R (feed R w b) bs) b bs one
        (feed_range-Fed (feed R w b) bs one.receiving (omega arith))

  pending-le :
      (w : FrameWaiter R) → IsValid R w → length (pending R w) ≤ length w.pending_frame_buffer
  pending-le w v = omega (arith, length-take w.pending_frame_size w.pending_frame_buffer)

  -- `tryReadFrame` on a valid waiter in which a whole frame `f` (begun in the pending array, ended in
  -- the ring) waits: it returns, hands `f` over if it fits the array and the output buffer and drops it
  -- otherwise, and leaves exactly the bytes behind its delimiter.
  pub try_read_frame-complete :
      (w : FrameWaiter R) (output : List ℕ) (buffer_capacity : ℕ) {f rest : List ℕ}
      → IsValid R w
      → next_frame (contents w.buffer) ≡ some (f, rest)
      → Did R w output (try_read_frame R w (some output) buffer_capacity) (
          complete
            (length w.pending_frame_buffer)
            buffer_capacity
            w.overflow
            (pending R w ++ f)
            rest)
  try_read_frame-complete w output buffer_capacity {f} {rest} v e =
      subst (Did R w output (try_read_frame R w (some output) buffer_capacity))
        (receive-complete _ _ w.overflow (pending R w) (contents w.buffer) (pending-le w v) e)
        (try_read_frame_lem R fifo w output buffer_capacity v)

  -- `tryReadFrame` on a valid waiter in whose ring no delimiter waits: it returns no frame; it keeps the
  -- bytes for the next call if they fit the pending array and no overflow was flagged, and otherwise
  -- drops all of them.
  pub try_read_frame-incomplete :
      (w : FrameWaiter R) (output : List ℕ) (buffer_capacity : ℕ)
      → IsValid R w
      → next_frame (contents w.buffer) ≡ none
      → Did R w output (try_read_frame R w (some output) buffer_capacity) (
          incomplete
            (length w.pending_frame_buffer)
            buffer_capacity
            w.overflow
            (pending R w ++ contents w.buffer))
  try_read_frame-incomplete w output buffer_capacity v e =
      subst (Did R w output (try_read_frame R w (some output) buffer_capacity))
        (receive-incomplete _ _ w.overflow (pending R w) (contents w.buffer) (pending-le w v) e)
        (try_read_frame_lem R fifo w output buffer_capacity v)

  -- A whole frame that fits is handed over, of which a part may be pending.
  pub read_next :
      (w : FrameWaiter R) (output f rest : List ℕ) (buffer_capacity : ℕ)
      → IsValid R w
      → IsDelimiterFree (pending R w)
      → pending R w ++ contents w.buffer ≡ f ++ packet_delimiter ∷ rest
      → IsDelimiterFree f
      → length f ≤ length w.pending_frame_buffer
      → length f ≤ buffer_capacity
      → Did R w output
          (try_read_frame R w (some output) buffer_capacity)
          (record { status = ok; frame = f; pending = []; unread = rest; overflow = w.overflow })
  read_next w output f rest room v p e free small small' =
      let (g, whole, more) = cut_behind (pending R w) (contents w.buffer) f rest p e in
      let got : (f' : List ℕ) → Type 0 = λ f'.
        Did R w output (try_read_frame R w (some output) room) (record {
          status = ok;
          frame = f';
          pending = [];
          unread = rest;
          overflow = w.overflow;
        }) in
      subst got (sym whole) (
        subst (Did R w output (try_read_frame R w (some output) room))
          (ground (arith, rw whole at small, rw whole at small'))
          (try_read_frame-complete w output room {f = g} {rest = rest} v (
            ap next_frame more
            ∙ next_frame-append g rest (IsDelimiterFree-right (pending R w) g (rw whole at free)))))

  pub read_one :
      (w : FrameWaiter R) (output f rest : List ℕ) (buffer_capacity : ℕ)
      → IsValid R w
      → pending R w ≡ []
      → contents w.buffer ≡ f ++ packet_delimiter ∷ rest
      → IsDelimiterFree f
      → length f ≤ length w.pending_frame_buffer
      → length f ≤ buffer_capacity
      → Did R w output
          (try_read_frame R w (some output) buffer_capacity)
          (record { status = ok; frame = f; pending = []; unread = rest; overflow = w.overflow })
  read_one w output f rest room v p e = read_next w output f rest room v (rw p tt) (rw p e)

  abbrev is_ok : ReadFrameStatus → Bool
  is_ok ok = true
  is_ok _ = false

  -- A consumer's `while (tryReadFrame(...) == OK)`, at most `n` rounds: the frames it sees.
  pub read_frames : ℕ → FrameWaiter R → List ℕ → ℕ → List (List ℕ)
  read_frames zero w output buffer_capacity = []
  read_frames (suc n) w output buffer_capacity =
      elim (try_read_frame R w (some output) buffer_capacity) [
        | none ↦ []
        | some r ↦
            let more = read_frames n r.waiter r.output buffer_capacity in
            if is_ok r.status then take r.bytes_written r.output ∷ more else []
      ]

  -- Frames that can be handed over one by one.
  abbrev pub Fits : ℕ → List ℕ → Type 0
  Fits size f = IsDelimiterFree f × (length f ≤ size)

  read_frames-to_stream :
      (fs : List (List ℕ)) (w : FrameWaiter R) (output : List ℕ) (buffer_capacity : ℕ)
      → IsValid R w
      → pending R w ≡ []
      → contents w.buffer ≡ to_stream fs
      → All (Fits (length w.pending_frame_buffer)) fs
      → All (Fits buffer_capacity) fs
      → read_frames (length fs) w output buffer_capacity ≡ fs
  unfolding read_frames
  read_frames-to_stream [] w output room v p e fits fits' = refl
  read_frames-to_stream (f ∷ fs) w output room v p e fits fits' =
      let d = read_one w output f (to_stream fs) room v p e fits.0.0 fits.0.1 fits'.0.1 in
      let got : take d.reading.bytes_written d.reading.output ≡ f =
        rw (d.bytes_written, d.output_buffer) (take-append (length f) f _ refl) in
      let more =
        read_frames-to_stream fs d.reading.waiter d.reading.output room d.valid d.pending_frame
          d.ring (rw d.array fits.1) fits'.1 in
      rw (d.returned, read_frames, d.status, got, more)

  -- From producer to consumer: frames without the delimiter byte that fit the pending array and the
  -- output buffer, fed with their delimiters into an idle waiter whose empty ring has room for all of
  -- them, are read back one by one, complete, unchanged and in order.
  pub read_frames-feed_range :
      (fs : List (List ℕ)) (w : FrameWaiter R) (output : List ℕ) (buffer_capacity : ℕ)
      → w.dropping_feed_bytes ≡ false
      → w.pending_frame_size ≡ 0
      → contents w.buffer ≡ []
      → length (to_stream fs) ≤ capacity
      → All (Fits (length w.pending_frame_buffer)) fs
      → All (Fits buffer_capacity) fs
      → read_frames (length fs) (feed_range R w (to_stream fs)) output buffer_capacity ≡ fs
  read_frames-feed_range fs w output room idle zero' empty small fits fits' =
      let fed = feed_range-Fed w (to_stream fs) idle (rw empty (omega arith)) in
      read_frames-to_stream fs (feed_range R w (to_stream fs)) output room
        (rw (fed.size, zero') (omega arith)) (rw (fed.size, zero')) (fed.stored ∙ rw empty)
        (rw fed.array fits) fits'
