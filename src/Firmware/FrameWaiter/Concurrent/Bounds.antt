-- ===== src/Firmware/FrameWaiter/Concurrent/Bounds.antt =====
-- The pending array while both cores run.
use easy_lo_ra_reforged.Base.{
  ℕ, ◌+◌, ◌≤◌, ◌≡◌, ◌≢◌, refl, ◌∙◌, Bool, List, [], ◌∷◌, ◌++◌, Option, none, some, length, arith,
  length-set, length-take, length-replicate,
}
use easy_lo_ra_reforged.Firmware.RingBuffer.{RingBuffer}
use easy_lo_ra_reforged.Firmware.FrameWaiter.{
  ReadFrameStatus, buffer_too_small, overflow, FrameWaiter, init,
}
use easy_lo_ra_reforged.Firmware.FrameWaiter.Streams.{All}
use easy_lo_ra_reforged.Firmware.FrameWaiter.Concurrent.{
  between, Consumer, away, looping, checking, dropping_overlong, dropping_overflown, Return, Turn,
  loop_turn, drop_turn, consumer_turn, feed_turn, producer_turn, System, add_result, after_consumer,
  after_feed, after_producer, calls, consumes, feeds, proceeds, start, Reach, here, next,
}

pub All-append {ℓ κ} :
    {A : Type ℓ} (P : A → Type κ) (xs ys : List A) → All P xs → All P ys → All P (xs ++ ys)
All-append P [] ys h k = k
All-append P (x ∷ xs) ys h k = (h.0, All-append P xs ys h.1 k)

-- A result that fits the output buffer of its call and the pending array.
abbrev pub Fitting : ℕ → Return → Type 0
Fitting size r = (length r.frame ≤ r.capacity) × (length r.frame ≤ size)

module _ (R : RingBuffer) where
  open R use {Ring, insert, remove}

  pub record IsBounded (size : ℕ) (s : System R) : Type 0 where
    pub array : length s.waiter.pending_frame_buffer ≡ size
    pub valid : s.waiter.pending_frame_size ≤ size
    pub fitting : All (Fitting size) s.returned

  -- The same for one turn of the consumer.
  record TurnIsBounded (size : ℕ) (t : Turn R) : Type 0 where
    array : length t.waiter.pending_frame_buffer ≡ size
    valid : t.waiter.pending_frame_size ≤ size
    fitting : (r : Return) → t.result ≡ some r → Fitting size r

  loop-TurnIsBounded :
      (w : FrameWaiter R) (byte capacity : ℕ)
      → w.pending_frame_size ≤ length w.pending_frame_buffer
      → TurnIsBounded (length w.pending_frame_buffer) (loop_turn R w byte capacity)
  unfolding loop_turn
  loop-TurnIsBounded w byte capacity v = ground (
    arith,
    length-set w.pending_frame_buffer w.pending_frame_size byte,
    length-take w.pending_frame_size w.pending_frame_buffer,
  )

  drop-TurnIsBounded :
      (w : FrameWaiter R) (at : Consumer) (status : ReadFrameStatus) (capacity : ℕ)
      → w.pending_frame_size ≤ length w.pending_frame_buffer
      → TurnIsBounded (length w.pending_frame_buffer) (drop_turn R w at status capacity)
  unfolding drop_turn
  drop-TurnIsBounded w at status capacity v = ground arith

  consumer-TurnIsBounded :
      (w : FrameWaiter R) (c : Consumer)
      → w.pending_frame_size ≤ length w.pending_frame_buffer
      → TurnIsBounded (length w.pending_frame_buffer) (consumer_turn R w c)
  unfolding consumer_turn
  consumer-TurnIsBounded w away v = ground arith
  consumer-TurnIsBounded w (looping capacity) v = go (remove w.buffer) refl
    where
      go :
          (r : Option (ℕ × Ring))
          → remove w.buffer ≡ r
          → TurnIsBounded (length w.pending_frame_buffer) (consumer_turn R w (looping capacity))
      go none e = rw (e, consumer_turn) (ground arith)
      go (some (byte, ring)) e =
          rw (e, consumer_turn) (loop-TurnIsBounded (record w { buffer = ring }) byte capacity v)
  consumer-TurnIsBounded w (checking capacity) v = ground arith
  consumer-TurnIsBounded w (dropping_overlong capacity) v =
      drop-TurnIsBounded w (dropping_overlong capacity) buffer_too_small capacity v
  consumer-TurnIsBounded w (dropping_overflown capacity) v =
      drop-TurnIsBounded w (dropping_overflown capacity) overflow capacity v

  add_result-Fitting :
      (size : ℕ) (returned : List Return) (result : Option Return)
      → All (Fitting size) returned
      → ((r : Return) → result ≡ some r → Fitting size r)
      → All (Fitting size) (add_result R returned result)
  add_result-Fitting size returned none h k = h
  add_result-Fitting size returned (some r) h k =
      All-append (Fitting size) returned (r ∷ []) h (k r refl, tt)

  after_consumer-IsBounded :
      (size : ℕ) (s : System R) → IsBounded size s → IsBounded size (after_consumer R s)
  after_consumer-IsBounded size s b =
      let t = consumer-TurnIsBounded s.waiter s.consumer (omega (arith, b.array, b.valid)) in
      record {
        array = t.array ∙ b.array;
        valid = omega (arith, t.valid, b.array);
        fitting =
            add_result-Fitting size s.returned _ b.fitting (λ r e. rw b.array at t.fitting r e);
      }

  after_feed-IsBounded :
      (size : ℕ) (s : System R) (byte : ℕ) → IsBounded size s → IsBounded size (after_feed R s byte)
  unfolding feed_turn
  after_feed-IsBounded size s byte b = ground (arith, b.array, b.valid, b.fitting)

  after_producer-IsBounded :
      (size : ℕ) (s : System R) → IsBounded size s → IsBounded size (after_producer R s)
  unfolding producer_turn
  after_producer-IsBounded size s b = ground (arith, b.array, b.valid, b.fitting)

  -- However the two cores take turns, the pending frame stays within its array of `size` bytes, and what
  -- a call of `tryReadFrame` writes fits the output buffer of that call and that array.
  pub Reach-IsBounded :
      (ring : Ring) (size : ℕ) (callback : Bool) {s : System R}
      → Reach R (start R ring size callback) s
      → IsBounded size s
  unfolding init
  Reach-IsBounded ring size callback here = record {
    array = length-replicate {A = ℕ} size 0;
    valid = omega arith;
    fitting = tt;
  }
  Reach-IsBounded ring size callback (next r (calls capacity e)) =
      let b = Reach-IsBounded ring size callback r in
      record { array = b.array; valid = b.valid; fitting = b.fitting }
  Reach-IsBounded ring size callback (next r (consumes e)) =
      after_consumer-IsBounded size _ (Reach-IsBounded ring size callback r)
  Reach-IsBounded ring size callback (next r (feeds byte e)) =
      after_feed-IsBounded size _ byte (Reach-IsBounded ring size callback r)
  Reach-IsBounded ring size callback (next r (proceeds e)) =
      after_producer-IsBounded size _ (Reach-IsBounded ring size callback r)

  -- A stretch of the run in which the consumer stays in the loop of one call, and the number of its
  -- turns; the producer takes any turns in between.
  pub data Loops (s : System R) : ℕ → System R → Type 0 where
    begun : Loops s 0 s
    turned :
        {n capacity : ℕ} {t : System R}
        → Loops s n t
        → t.consumer ≡ looping capacity
        → (after_consumer R t).consumer ≡ looping capacity
        → Loops s (n + 1) (after_consumer R t)
    offered :
        {n : ℕ} {t : System R} (byte : ℕ)
        → Loops s n t
        → t.producer ≡ between
        → Loops s n (after_feed R t byte)
    proceeded :
        {n : ℕ} {t : System R} → Loops s n t → t.producer ≢ between → Loops s n (after_producer R t)

  loop_turn-grows :
      (w : FrameWaiter R) (byte capacity : ℕ)
      → (loop_turn R w byte capacity).consumer ≡ looping capacity
      → (loop_turn R w byte capacity).waiter.pending_frame_size ≡ w.pending_frame_size + 1
  unfolding loop_turn
  loop_turn-grows w byte capacity e = ground arith

  turned-grows :
      (w : FrameWaiter R) (capacity : ℕ)
      → (consumer_turn R w (looping capacity)).consumer ≡ looping capacity
      → (consumer_turn R w (looping capacity)).waiter.pending_frame_size ≡ w.pending_frame_size + 1
  unfolding consumer_turn
  turned-grows w capacity = go (remove w.buffer) refl
    where
      go :
          (r : Option (ℕ × Ring))
          → remove w.buffer ≡ r
          → (consumer_turn R w (looping capacity)).consumer ≡ looping capacity
          → (consumer_turn R w (looping capacity)).waiter.pending_frame_size
            ≡ w.pending_frame_size + 1
      go none e = rw (e, consumer_turn) (λ h. absurd (ground arith))
      go (some (byte, ring)) e =
          rw (e, consumer_turn) (λ h. loop_turn-grows (record w { buffer = ring }) byte capacity h)

  Loops-grows :
      {s t : System R} {n : ℕ}
      → Loops s n t
      → t.waiter.pending_frame_size ≡ s.waiter.pending_frame_size + n
  unfolding feed_turn producer_turn
  Loops-grows begun = omega arith
  Loops-grows {s} (turned {n} {capacity} {t} l c d) =
      let grown = turned-grows t.waiter capacity (rw c at d) in
      let same : (after_consumer R t).waiter.pending_frame_size ≡ t.waiter.pending_frame_size + 1 =
        rw c grown in
      omega (arith, same, Loops-grows l)
  Loops-grows (offered byte l e) = ground (arith, Loops-grows l)
  Loops-grows (proceeded l e) = ground (arith, Loops-grows l)

  Loops-IsBounded :
      (size : ℕ) {s t : System R} {n : ℕ} → IsBounded size s → Loops s n t → IsBounded size t
  Loops-IsBounded size b begun = b
  Loops-IsBounded size b (turned {t} l c d) =
      after_consumer-IsBounded size t (Loops-IsBounded size b l)
  Loops-IsBounded size b (offered {t} byte l e) =
      after_feed-IsBounded size t byte (Loops-IsBounded size b l)
  Loops-IsBounded size b (proceeded {t} l e) =
      after_producer-IsBounded size t (Loops-IsBounded size b l)

  -- The loop of a call ends however fast bytes arrive: in a reachable system with a pending array of
  -- `size` bytes, the consumer takes at most `size` turns that leave it in the loop of one call.
  pub Loops-le :
      (ring : Ring) (size : ℕ) (callback : Bool) {s t : System R} {n : ℕ}
      → Reach R (start R ring size callback) s
      → Loops s n t
      → n ≤ size
  Loops-le ring size callback r l =
      omega (
        arith,
        Loops-grows l,
        (Loops-IsBounded size (Reach-IsBounded ring size callback r) l).valid,
      )
