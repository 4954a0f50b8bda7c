-- ===== src/Firmware/FrameWaiter/Concurrent/Held.antt =====
-- The frames and bytes that the consumer holds, turn by turn.
use easy_lo_ra_reforged.Base.{
  ℕ, ◌+◌, ◌<◌, ◌≡◌, ◌≢◌, refl, sym, ap, ◌∙◌, false, List, [], ◌∷◌, ◌++◌, Option, none, some, length,
  set, ltb, leb, ◌==◌, arith, inl, inr, Bool-cases, append-nil, append_assoc, take-set,
}
use easy_lo_ra_reforged.Firmware.RingBuffer.{RingBuffer, IsFifo}
use easy_lo_ra_reforged.Firmware.FrameWaiter.{
  ReadFrameStatus, ok, buffer_too_small, incomplete_frame, overflow, packet_delimiter, FrameWaiter,
}
use easy_lo_ra_reforged.Firmware.FrameWaiter.Receive.{pending}
use easy_lo_ra_reforged.Firmware.FrameWaiter.Streams.{
  All, IsDelimiterFree, IsDelimiterFree-append, to_stream,
}
use easy_lo_ra_reforged.Firmware.FrameWaiter.Concurrent.{
  Consumer, away, looping, checking, dropping_overlong, dropping_overflown, Return, add_result,
  loop_turn, drop_turn, consumer_turn,
}
use easy_lo_ra_reforged.Firmware.FrameWaiter.Concurrent.Bounds.{All-append}

-- The frames returned with OK, oldest first.
abbrev pub ok_frame : ReadFrameStatus → List ℕ → List (List ℕ)
ok_frame ok frame = frame ∷ []
ok_frame _ frame = []

abbrev pub frames_of : List Return → List (List ℕ)
frames_of [] = []
frames_of (r ∷ rs) = ok_frame r.status r.frame ++ frames_of rs

pub frames_of-append : (xs ys : List Return) → frames_of (xs ++ ys) ≡ frames_of xs ++ frames_of ys
frames_of-append [] ys = refl
frames_of-append (r ∷ rs) ys =
    ap (λ l. ok_frame r.status r.frame ++ l) (frames_of-append rs ys)
    ∙ sym (append_assoc (ok_frame r.status r.frame) (frames_of rs) (frames_of ys))

pub to_stream-append : (xs ys : List (List ℕ)) → to_stream (xs ++ ys) ≡ to_stream xs ++ to_stream ys
to_stream-append [] ys = refl
to_stream-append (x ∷ xs) ys =
    ap (λ l. x ++ packet_delimiter ∷ l) (to_stream-append xs ys)
    ∙ sym (append_assoc x (packet_delimiter ∷ to_stream xs) (to_stream ys))

-- A status with which nothing is dropped.
abbrev pub IsRead : ReadFrameStatus → Type 0
IsRead ok = Unit {0}
IsRead incomplete_frame = Unit {0}
IsRead _ = ⊥

-- Not at work dropping.
abbrev pub IsReading : Consumer → Type 0
IsReading (dropping_overlong capacity) = ⊥
IsReading (dropping_overflown capacity) = ⊥
IsReading _ = Unit {0}

abbrev pub ReadResult : Option Return → Type 0
ReadResult none = Unit {0}
ReadResult (some r) = IsRead r.status

abbrev pub result_frames : Option Return → List (List ℕ)
result_frames none = []
result_frames (some r) = ok_frame r.status r.frame

module _ (R : RingBuffer) where
  open R use {Ring, contents}

  -- The frames, the pending bytes and those in the ring are the bytes that were fed.
  pub record Holds (frames : List (List ℕ)) (w : FrameWaiter R) (fed : List ℕ) : Type 0 where
    pub all : to_stream frames ++ (pending R w ++ contents w.buffer) ≡ fed
    pub frames_free : All IsDelimiterFree frames
    pub pending_free : IsDelimiterFree (pending R w)
    pub listening : w.dropping_feed_bytes ≡ false
    pub quiet : w.overflow ≡ false

  -- The delimiter is read.
  Holds-end :
      (frames : List (List ℕ)) (w : FrameWaiter R) (q : Ring) (fed : List ℕ)
      → contents w.buffer ≡ packet_delimiter ∷ contents q
      → Holds frames w fed
      → Holds (frames ++ pending R w ∷ []) (record w { buffer = q; pending_frame_size = 0 }) fed
  Holds-end frames w q fed e h = record {
    all =
        ap (λ l. l ++ contents q) (to_stream-append frames (pending R w ∷ []))
        ∙ append_assoc (to_stream frames) (pending R w ++ packet_delimiter ∷ []) (contents q)
        ∙ ap (λ l. to_stream frames ++ l)
            (append_assoc (pending R w) (packet_delimiter ∷ []) (contents q))
        ∙ ap (λ l. to_stream frames ++ (pending R w ++ l)) (sym e)
        ∙ h.all;
    frames_free =
        All-append IsDelimiterFree frames (pending R w ∷ []) h.frames_free (h.pending_free, tt);
    pending_free = tt;
    listening = h.listening;
    quiet = h.quiet;
  }

  -- Another byte is read.
  Holds-byte :
      (frames : List (List ℕ)) (w : FrameWaiter R) (byte : ℕ) (q : Ring) (fed : List ℕ)
      → contents w.buffer ≡ byte ∷ contents q
      → byte ≢ packet_delimiter
      → w.pending_frame_size < length w.pending_frame_buffer
      → Holds frames w fed
      → Holds frames
          (record w {
            buffer = q;
            pending_frame_buffer = set w.pending_frame_buffer w.pending_frame_size byte;
            pending_frame_size = w.pending_frame_size + 1;
          })
          fed
  Holds-byte frames w byte q fed e d small h =
      let grown = take-set w.pending_frame_size w.pending_frame_buffer byte (omega arith) in
      record {
        all =
            ap (λ l. to_stream frames ++ (l ++ contents q)) grown
            ∙ ap (λ l. to_stream frames ++ l) (append_assoc (pending R w) (byte ∷ []) (contents q))
            ∙ ap (λ l. to_stream frames ++ (pending R w ++ l)) (sym e)
            ∙ h.all;
        frames_free = h.frames_free;
        pending_free =
            rw grown (IsDelimiterFree-append (pending R w) (byte ∷ []) h.pending_free (d, tt));
        listening = h.listening;
        quiet = h.quiet;
      }

  loop-Holds :
      (frames : List (List ℕ)) (w : FrameWaiter R) (byte capacity : ℕ) (q : Ring) (fed : List ℕ)
      → contents w.buffer ≡ byte ∷ contents q
      → Holds frames w fed
      → let t = loop_turn R (record w { buffer = q }) byte capacity in
        IsReading t.consumer
        → ReadResult t.result
        → Holds (frames ++ result_frames t.result) t.waiter fed
  unfolding loop_turn
  loop-Holds frames w byte capacity q fed e h = elim (Bool-cases (byte == packet_delimiter)) [
    | inl d ↦
        let zero' : byte ≡ packet_delimiter = ground (arith, d) in
        elim (Bool-cases (ltb capacity w.pending_frame_size)) [
          | inl small ↦ rw (d, small, loop_turn) (λ a b. absurd b)
          | inr fits ↦ rw (d, fits, loop_turn) (λ a b. Holds-end frames w q fed (rw (← zero') e) h)
        ]
    | inr d ↦ elim (Bool-cases (leb (length w.pending_frame_buffer) w.pending_frame_size)) [
      | inl full ↦ rw (d, full, loop_turn) (λ a b. absurd a)
      | inr more ↦
          rw (d, more, loop_turn, append-nil frames)
            (λ a b. Holds-byte frames w byte q fed e (ground (arith, d)) (ground (arith, more)) h)
    ]
  ]

  drop-ne-ReadResult :
      (w : FrameWaiter R) (at : Consumer) (status : ReadFrameStatus) (capacity : ℕ)
      → ¬ IsReading at
      → ¬ IsRead status
      → let t = drop_turn R w at status capacity in IsReading t.consumer → ReadResult t.result → ⊥
  unfolding drop_turn
  drop-ne-ReadResult w at status capacity h k = go (R.remove w.buffer) refl
    where
      go :
          (r : Option (ℕ × Ring))
          → R.remove w.buffer ≡ r
          → let t = drop_turn R w at status capacity in
            IsReading t.consumer → ReadResult t.result → ⊥
      go none e = rw (e, drop_turn) (λ a b. k b)
      go (some (byte, ring)) e = elim (Bool-cases (byte == packet_delimiter)) [
        | inl d ↦ rw (e, d, drop_turn) (λ a b. k b)
        | inr d ↦ rw (e, d, drop_turn) (λ a b. h a)
      ]

  pub frames_of-add_result :
      (returned : List Return) (result : Option Return)
      → frames_of (add_result R returned result) ≡ frames_of returned ++ result_frames result
  frames_of-add_result returned none = sym (append-nil (frames_of returned))
  frames_of-add_result returned (some r) =
      frames_of-append returned (r ∷ [])
      ∙ ap (λ l. frames_of returned ++ l) (append-nil (ok_frame r.status r.frame))

  module _ (fifo : IsFifo R) where
    looping-Holds :
        (frames : List (List ℕ)) (w : FrameWaiter R) (capacity : ℕ) (fed : List ℕ)
        → Holds frames w fed
        → let t = consumer_turn R w (looping capacity) in
          IsReading t.consumer
          → ReadResult t.result
          → Holds (frames ++ result_frames t.result) t.waiter fed
    unfolding consumer_turn
    looping-Holds frames w capacity fed h = elim (fifo.removed w.buffer) [
      | inl (e, none_left) ↦ rw (none_left, consumer_turn, append-nil frames) (λ a b. h)
      | inr (byte, q, e, some_left) ↦
          rw (some_left, consumer_turn) (loop-Holds frames w byte capacity q fed e h)
    ]

    checking-Holds :
        (frames : List (List ℕ)) (w : FrameWaiter R) (capacity : ℕ) (fed : List ℕ)
        → Holds frames w fed
        → let t = consumer_turn R w (checking capacity) in
          IsReading t.consumer
          → ReadResult t.result
          → Holds (frames ++ result_frames t.result) t.waiter fed
    unfolding consumer_turn
    checking-Holds frames w capacity fed h =
        rw (h.quiet, consumer_turn, append-nil frames)
          (λ a b. record {
            all = h.all;
            frames_free = h.frames_free;
            pending_free = h.pending_free;
            listening = h.listening;
            quiet = refl;
          })

    pub consumer-Holds :
        (frames : List (List ℕ)) (w : FrameWaiter R) (c : Consumer) (fed : List ℕ)
        → Holds frames w fed
        → let t = consumer_turn R w c in
          IsReading t.consumer
          → ReadResult t.result
          → Holds (frames ++ result_frames t.result) t.waiter fed
    unfolding consumer_turn
    consumer-Holds frames w away fed h = λ a b. rw (append-nil frames) h
    consumer-Holds frames w (looping capacity) fed h = looping-Holds frames w capacity fed h
    consumer-Holds frames w (checking capacity) fed h = checking-Holds frames w capacity fed h
    consumer-Holds frames w (dropping_overlong capacity) fed h = λ a b. absurd (
        drop-ne-ReadResult w (dropping_overlong capacity) buffer_too_small capacity (λ x. x)
          (λ x. x) a b)
    consumer-Holds frames w (dropping_overflown capacity) fed h = λ a b.
        absurd (
          drop-ne-ReadResult w (dropping_overflown capacity) overflow capacity (λ x. x) (λ x. x) a
            b)

    -- A turn of the consumer out of dropping ends in dropping or returns that something was dropped.
    pub IsReading-before :
        (w : FrameWaiter R) (c : Consumer)
        → IsReading (consumer_turn R w c).consumer
        → ReadResult (consumer_turn R w c).result
        → IsReading c
    unfolding consumer_turn
    IsReading-before w away a b = tt
    IsReading-before w (looping capacity) a b = tt
    IsReading-before w (checking capacity) a b = tt
    IsReading-before w (dropping_overlong capacity) a b =
        drop-ne-ReadResult w (dropping_overlong capacity) buffer_too_small capacity (λ x. x)
          (λ x. x) a b
    IsReading-before w (dropping_overflown capacity) a b =
        drop-ne-ReadResult w (dropping_overflown capacity) overflow capacity (λ x. x) (λ x. x) a b
