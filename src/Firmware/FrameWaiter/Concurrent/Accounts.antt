-- ===== src/Firmware/FrameWaiter/Concurrent/Accounts.antt =====
-- What the consumer has taken out of the ring against what it returned, whatever was lost.
use easy_lo_ra_reforged.Base.{
  ℕ, ◌+◌, ◌≡◌, ◌≢◌, refl, sym, ap, ◌∙◌, subst, Bool, true, false, List, [], ◌∷◌, ◌++◌, some, length,
  set, ltb, leb, ◌==◌, if◌then◌else◌, arith, inl, inr, Bool-cases, append-nil, append_assoc,
  take-set,
}
use easy_lo_ra_reforged.Base.Thinned.{Thinned, Thinned-drop, Thinned-keep, IsSuffix}
use easy_lo_ra_reforged.Firmware.RingBuffer.{RingBuffer, IsFifo}
use easy_lo_ra_reforged.Firmware.FrameWaiter.{
  ReadFrameStatus, buffer_too_small, incomplete_frame, overflow, packet_delimiter, FrameWaiter,
}
use easy_lo_ra_reforged.Firmware.FrameWaiter.Receive.{pending}
use easy_lo_ra_reforged.Firmware.FrameWaiter.Streams.{
  All, IsDelimiterFree, IsDelimiterFree-append, to_stream,
}
use easy_lo_ra_reforged.Firmware.FrameWaiter.Concurrent.{
  Consumer, away, looping, checking, dropping_overlong, dropping_overflown, Turn, goes_on, returns,
  loop_turn, drop_turn, consumer_turn,
}
use easy_lo_ra_reforged.Firmware.FrameWaiter.Concurrent.Bounds.{All-append}
use easy_lo_ra_reforged.Firmware.FrameWaiter.Concurrent.Turns.{
  drop_turn-none, drop_turn-some, looping-none, looping-some,
}
use easy_lo_ra_reforged.Firmware.FrameWaiter.Concurrent.Held.{
  IsReading, result_frames, to_stream-append,
}

module _ (R : RingBuffer) where
  open R use {Ring, contents}

  abbrev PendingEnds : Consumer → List ℕ → List ℕ → Type 0
  PendingEnds c pending begun = IsReading c → IsSuffix pending begun

  -- `segments` and then `begun` have been taken out of the ring, the former with a delimiter behind each;
  -- `frames` are ends of segments. With the ring they are some of the bytes that were fed.
  pub record Accounts (w : FrameWaiter R) (c : Consumer) (frames : List (List ℕ)) (fed : List ℕ)
      : Type 0 where
    pub segments : List (List ℕ)
    pub begun : List ℕ
    pub taken : Thinned ◌≡◌ (to_stream segments ++ (begun ++ contents w.buffer)) fed
    pub segments_free : All IsDelimiterFree segments
    pub begun_free : IsDelimiterFree begun
    pub salvaged : Thinned IsSuffix frames segments
    pub pending_ends : IsReading c → IsSuffix (pending R w) begun

  -- A byte that is no delimiter is taken out of the ring.
  Accounts-byte :
      {c : Consumer} {frames : List (List ℕ)} {fed : List ℕ} (w v : FrameWaiter R) (d : Consumer)
      (byte : ℕ) (q : Ring) (a : Accounts w c frames fed)
      → contents w.buffer ≡ byte ∷ contents q
      → contents v.buffer ≡ contents q
      → byte ≢ packet_delimiter
      → (IsReading d → IsSuffix (pending R v) (a.begun ++ byte ∷ []))
      → Accounts v d frames fed
  Accounts-byte {fed} w v d byte q a e e' n p = record {
    segments = a.segments;
    begun = a.begun ++ byte ∷ [];
    taken =
        subst (λ l. Thinned ◌≡◌ (to_stream a.segments ++ l) fed)
          (ap (λ l. a.begun ++ l) (e ∙ ap (λ l. byte ∷ l) (sym e'))
            ∙ sym (append_assoc a.begun (byte ∷ []) (contents v.buffer)))
          a.taken;
    segments_free = a.segments_free;
    begun_free = IsDelimiterFree-append a.begun (byte ∷ []) a.begun_free (n, tt);
    salvaged = a.salvaged;
    pending_ends = p;
  }

  -- A delimiter is taken out of the ring; `more` is what is returned for the segment.
  Accounts-end :
      {c : Consumer} {frames : List (List ℕ)} {fed : List ℕ} (w v : FrameWaiter R) (d : Consumer)
      (q : Ring) (more : List (List ℕ)) (a : Accounts w c frames fed)
      → contents w.buffer ≡ packet_delimiter ∷ contents q
      → contents v.buffer ≡ contents q
      → Thinned IsSuffix (frames ++ more) (a.segments ++ a.begun ∷ [])
      → pending R v ≡ []
      → Accounts v d (frames ++ more) fed
  Accounts-end {fed} w v d q more a e e' t p = record {
    segments = a.segments ++ a.begun ∷ [];
    begun = [];
    taken =
        subst (λ l. Thinned ◌≡◌ l fed)
          (ap (λ l. to_stream a.segments ++ (a.begun ++ l))
              (e ∙ ap (λ l. packet_delimiter ∷ l) (sym e'))
            ∙ ap (λ l. to_stream a.segments ++ l)
                (sym (append_assoc a.begun (packet_delimiter ∷ []) (contents v.buffer)))
            ∙ sym (
                append_assoc (to_stream a.segments) (a.begun ++ packet_delimiter ∷ [])
                  (contents v.buffer))
            ∙ ap (λ l. l ++ contents v.buffer) (sym (to_stream-append a.segments (a.begun ∷ []))))
          a.taken;
    segments_free =
        All-append IsDelimiterFree a.segments (a.begun ∷ []) a.segments_free (a.begun_free, tt);
    begun_free = tt;
    salvaged = t;
    pending_ends = λ r. ([], sym p);
  }

  -- Nothing is taken.
  Accounts-same :
      {c : Consumer} {frames : List (List ℕ)} {fed : List ℕ} (w v : FrameWaiter R) (d : Consumer)
      (a : Accounts w c frames fed)
      → v.buffer ≡ w.buffer
      → (IsReading d → IsSuffix (pending R v) a.begun)
      → Accounts v d frames fed
  Accounts-same {fed} w v d a e p = record {
    segments = a.segments;
    begun = a.begun;
    taken = rw e a.taken;
    segments_free = a.segments_free;
    begun_free = a.begun_free;
    salvaged = a.salvaged;
    pending_ends = p;
  }

  abbrev AccountsTurn : Turn R → List (List ℕ) → List ℕ → Type 0
  AccountsTurn t frames fed = Accounts t.waiter t.consumer (frames ++ result_frames t.result) fed

  -- A turn that returns no frame.
  Accounts-nothing :
      {w : FrameWaiter R} {c : Consumer} (frames : List (List ℕ)) {fed : List ℕ}
      → Accounts w c frames fed
      → Accounts w c (frames ++ []) fed
  Accounts-nothing {w} {c} frames {fed} a =
      subst (λ l. Accounts w c l fed) (sym (append-nil frames)) a

  -- The segment is dropped.
  Accounts-skip :
      {c : Consumer} (frames : List (List ℕ)) {fed : List ℕ} (w v : FrameWaiter R) (d : Consumer)
      (q : Ring)
      → Accounts w c frames fed
      → contents w.buffer ≡ packet_delimiter ∷ contents q
      → contents v.buffer ≡ contents q
      → pending R v ≡ []
      → Accounts v d (frames ++ []) fed
  Accounts-skip frames w v d q a e e' p =
      Accounts-end w v d q [] a e e'
        (subst (λ l. Thinned IsSuffix l (a.segments ++ a.begun ∷ [])) (sym (append-nil frames))
          (Thinned-drop IsSuffix a.begun a.salvaged))
        p

  loop_turn-Accounts :
      (frames : List (List ℕ)) (fed : List ℕ) (w : FrameWaiter R) (byte n : ℕ) (q : Ring)
      → Accounts w (looping n) frames fed
      → contents w.buffer ≡ byte ∷ contents q
      → AccountsTurn (loop_turn R (record w { buffer = q }) byte n) frames fed
  unfolding loop_turn
  loop_turn-Accounts frames fed w byte n q a e = elim (Bool-cases (byte == packet_delimiter)) [
    | inl d ↦
        let zero' : byte ≡ packet_delimiter = ground (arith, d) in
        elim (Bool-cases (ltb n w.pending_frame_size)) [
          | inl small ↦
              rw (d, small, loop_turn)
                (Accounts-skip frames w (record w { buffer = q; pending_frame_size = 0 }) away q a
                  (rw (← zero') e) refl refl)
          | inr fits ↦
              rw (d, fits, loop_turn)
                (Accounts-end w (record w { buffer = q; pending_frame_size = 0 }) away q
                  (pending R w ∷ []) a (rw (← zero') e) refl
                  (Thinned-keep IsSuffix (pending R w) a.begun (a.pending_ends tt) a.salvaged) refl)
        ]
    | inr d ↦
        let other : byte ≢ packet_delimiter = ground (arith, d) in
        elim (Bool-cases (leb (length w.pending_frame_buffer) w.pending_frame_size)) [
          | inl full ↦
              rw (d, full, loop_turn)
                (Accounts-nothing frames (
                  Accounts-byte w (record w { buffer = q }) (dropping_overlong n) byte q a e refl
                    other (λ r. absurd r)))
          | inr more ↦
              rw (d, more, loop_turn)
                (Accounts-nothing frames (
                  Accounts-byte w
                    (record w {
                      buffer = q;
                      pending_frame_buffer = set w.pending_frame_buffer w.pending_frame_size byte;
                      pending_frame_size = w.pending_frame_size + 1;
                    })
                    (looping n) byte q a e refl other
                    (λ r.
                      let (p, whole) = a.pending_ends tt in
                      (
                        p,
                        ap (λ l. l ++ byte ∷ []) whole
                            ∙ append_assoc p (pending R w) (byte ∷ [])
                            ∙ ap (λ l. p ++ l)
                                (sym (
                                  take-set w.pending_frame_size w.pending_frame_buffer byte
                                    (ground (arith, more)))),
                      ))))
        ]
  ]

  module _ (fifo : IsFifo R) where
    looping-Accounts :
        (frames : List (List ℕ)) (fed : List ℕ) (w : FrameWaiter R) (n : ℕ)
        → Accounts w (looping n) frames fed
        → AccountsTurn (consumer_turn R w (looping n)) frames fed
    looping-Accounts frames fed w n a = elim (fifo.removed w.buffer) [
      | inl (empty, none_left) ↦
          subst (λ t. AccountsTurn t frames fed) (sym (looping-none R w n none_left))
            (Accounts-nothing frames (Accounts-same w w (checking n) a refl a.pending_ends))
      | inr (byte, q, first, some_left) ↦
          subst (λ t. AccountsTurn t frames fed) (sym (looping-some R w n byte q some_left))
            (loop_turn-Accounts frames fed w byte n q a first)
    ]

    -- A round of a drop, with the test as a variable.
    drop_round-Accounts :
        (frames : List (List ℕ)) (fed : List ℕ) (w : FrameWaiter R) (c : Consumer)
        (status : ReadFrameStatus) (n byte : ℕ) (q : Ring)
        → ¬ IsReading c
        → result_frames (some (record { status = status; capacity = n; frame = [] })) ≡ []
        → Accounts w c frames fed
        → contents w.buffer ≡ byte ∷ contents q
        → (b : Bool) → byte == packet_delimiter ≡ b
        → let v = record w { buffer = q } in
          AccountsTurn (if b then returns R v 0 status n [] else goes_on R v c) frames fed
    drop_round-Accounts frames fed w c status n byte q dropping lost a e true d =
        let zero' : byte ≡ packet_delimiter = ground (arith, d) in
        subst
          (λ l. Accounts (record w { buffer = q; pending_frame_size = 0 }) away (frames ++ l) fed)
          (sym lost)
          (Accounts-skip frames w (record w { buffer = q; pending_frame_size = 0 }) away q a
            (rw (← zero') e) refl refl)
    drop_round-Accounts frames fed w c status n byte q dropping lost a e false d =
        Accounts-nothing frames (
          Accounts-byte w (record w { buffer = q }) c byte q a e refl (ground (arith, d))
            (λ r. absurd (dropping r)))

    drop_turn-Accounts :
        (frames : List (List ℕ)) (fed : List ℕ) (w : FrameWaiter R) (c : Consumer)
        (status : ReadFrameStatus) (n : ℕ)
        → ¬ IsReading c
        → result_frames (some (record { status = status; capacity = n; frame = [] })) ≡ []
        → Accounts w c frames fed
        → AccountsTurn (drop_turn R w c status n) frames fed
    drop_turn-Accounts frames fed w c status n dropping lost a = elim (fifo.removed w.buffer) [
      | inl (empty, none_left) ↦
          subst (λ t. AccountsTurn t frames fed) (sym (drop_turn-none R w c status n none_left))
            (subst (λ l. Accounts (record w { pending_frame_size = 0 }) away (frames ++ l) fed)
              (sym lost)
              (Accounts-nothing frames (
                Accounts-same w (record w { pending_frame_size = 0 }) away a refl
                  (λ r. (a.begun, sym (append-nil a.begun))))))
      | inr (byte, q, first, some_left) ↦
          subst (λ t. AccountsTurn t frames fed)
            (sym (drop_turn-some R w c status n byte q some_left))
            (drop_round-Accounts frames fed w c status n byte q dropping lost a first
              (byte == packet_delimiter) refl)
    ]

    checking-Accounts :
        (frames : List (List ℕ)) (fed : List ℕ) (w : FrameWaiter R) (n : ℕ)
        → Accounts w (checking n) frames fed
        → (b : Bool)
        → let v = record w { overflow = false } in
          AccountsTurn
            (if b
              then goes_on R v (dropping_overflown n)
              else returns R v w.pending_frame_size incomplete_frame n [])
            frames
            fed
    checking-Accounts frames fed w n a true = Accounts-nothing frames (
        Accounts-same w (record w { overflow = false }) (dropping_overflown n) a refl
          (λ r. absurd r))
    checking-Accounts frames fed w n a false =
        Accounts-nothing frames
          (Accounts-same w (record w { overflow = false }) away a refl a.pending_ends)

    pub consumer_turn-Accounts :
        (frames : List (List ℕ)) (fed : List ℕ) (w : FrameWaiter R) (c : Consumer)
        → Accounts w c frames fed
        → AccountsTurn (consumer_turn R w c) frames fed
    unfolding consumer_turn
    consumer_turn-Accounts frames fed w away a = Accounts-nothing frames a
    consumer_turn-Accounts frames fed w (looping n) a = looping-Accounts frames fed w n a
    consumer_turn-Accounts frames fed w (checking n) a =
        checking-Accounts frames fed w n a w.overflow
    consumer_turn-Accounts frames fed w (dropping_overlong n) a =
        drop_turn-Accounts frames fed w (dropping_overlong n) buffer_too_small n (λ r. r) refl a
    consumer_turn-Accounts frames fed w (dropping_overflown n) a =
        drop_turn-Accounts frames fed w (dropping_overflown n) overflow n (λ r. r) refl a
