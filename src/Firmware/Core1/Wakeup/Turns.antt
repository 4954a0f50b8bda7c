-- ===== src/Firmware/Core1/Wakeup/Turns.antt =====
-- The turns of core 1 keep that it is woken for a whole frame.
use easy_lo_ra_reforged.Base.{
  ℕ, ◌≡◌, ◌≢◌, refl, sym, subst, Bool, true, false, List, [], ◌∷◌, Option, none, some, inl, inr,
  ◌==◌, if◌then◌else◌, arith,
}
use easy_lo_ra_reforged.Firmware.RingBuffer.{RingBuffer, IsFifo}
use easy_lo_ra_reforged.Firmware.FrameWaiter.{
  ReadFrameStatus, buffer_too_small, incomplete_frame, overflow, packet_delimiter, FrameWaiter,
}
use easy_lo_ra_reforged.Firmware.FrameWaiter.Concurrent.{
  Producer, Consumer, away, looping, checking, dropping_overlong, dropping_overflown, Turn, goes_on,
  returns, loop_turn, drop_turn, consumer_turn,
}
use easy_lo_ra_reforged.Firmware.FrameWaiter.Concurrent.Turns.{
  drop_turn-none, drop_turn-some, looping-none, looping-some,
}
use easy_lo_ra_reforged.Firmware.Core1.Wakeup.{Hears, Heard, Cores, after_result}

Hears-shorter :
    (byte : ℕ) (q : List ℕ) (event : Bool) (p : Producer)
    → Hears (byte ∷ q) event p
    → Hears q event p
Hears-shorter byte q event p (inl free) = inl free.1
Hears-shorter byte q event p (inr h) = inr h

module _ (R : RingBuffer) where
  open R use {Ring, contents}

  abbrev pub HeardAt : Cores R → Consumer → Type 0
  HeardAt c (checking capacity) = Heard R c
  HeardAt c (dropping_overflown capacity) = Heard R c
  HeardAt c _ = Unit {0}

  abbrev pub HeardIn : Cores R → Option ReadFrameStatus → Type 0
  HeardIn c none = HeardAt c c.consumer
  HeardIn c (some status) = status ≢ buffer_too_small → Heard R c

  module _ (fifo : IsFifo R) where
    abbrev pub HeardAfter : ℕ → Cores R → Turn R → Type 0
    HeardAfter capacity c t =
        let d =
          after_result R capacity (record c { waiter = t.waiter; consumer = t.consumer })
            t.result in
        HeardIn d d.waiting

    loop_turn-HeardIn :
        (capacity n : ℕ) (c : Cores R) (w : FrameWaiter R) (byte : ℕ)
        → c.waiting ≡ none
        → HeardAfter capacity c (loop_turn R w byte n)
    unfolding loop_turn
    loop_turn-HeardIn capacity n c w byte e = ground arith

    -- The ring without its first byte.
    Heard-removed :
        (c : Cores R) (byte : ℕ) (q : Ring)
        → contents c.waiter.buffer ≡ byte ∷ contents q
        → Heard R c
        → Hears (contents q) c.event c.producer
    Heard-removed c byte q e h =
        Hears-shorter byte (contents q) c.event c.producer
          (subst (λ l. Hears l c.event c.producer) e h)

    drop-Heard :
        (c : Cores R) (capacity n byte : ℕ) (q : Ring)
        → c.waiting ≡ none
        → Hears (contents q) c.event c.producer
        → (b : Bool)
        → HeardAfter capacity c (
            let v = record c.waiter { buffer = q } in
            if b then returns R v 0 overflow n [] else goes_on R v (dropping_overflown n))
    drop-Heard c capacity n byte q e h true = λ s. h
    drop-Heard c capacity n byte q e h false = rw e h

    drop_turn-Heard :
        (capacity n : ℕ) (c : Cores R)
        → c.waiting ≡ none
        → Heard R c
        → HeardAfter capacity c (drop_turn R c.waiter (dropping_overflown n) overflow n)
    drop_turn-Heard capacity n c e h = elim (fifo.removed c.waiter.buffer) [
      | inl (empty, none_left) ↦
          subst (λ t. HeardAfter capacity c t)
            (sym (drop_turn-none R c.waiter (dropping_overflown n) overflow n none_left)) (λ s. h)
      | inr (byte, q, first, some_left) ↦
          subst (λ t. HeardAfter capacity c t)
            (sym (drop_turn-some R c.waiter (dropping_overflown n) overflow n byte q some_left))
            (drop-Heard c capacity n byte q e (Heard-removed c byte q first h)
              (byte == packet_delimiter))
    ]

    overlong-Heard :
        (c : Cores R) (capacity n : ℕ) (w : FrameWaiter R)
        → c.waiting ≡ none
        → (b : Bool)
        → HeardAfter capacity c
            (if b then returns R w 0 buffer_too_small n [] else goes_on R w (dropping_overlong n))
    overlong-Heard c capacity n w e true = λ s. absurd (s refl)
    overlong-Heard c capacity n w e false = rw e tt

    drop_overlong_turn-Heard :
        (capacity n : ℕ) (c : Cores R)
        → c.waiting ≡ none
        → HeardAfter capacity c (drop_turn R c.waiter (dropping_overlong n) buffer_too_small n)
    drop_overlong_turn-Heard capacity n c e = elim (fifo.removed c.waiter.buffer) [
      | inl (empty, none_left) ↦
          subst (λ t. HeardAfter capacity c t)
            (sym (drop_turn-none R c.waiter (dropping_overlong n) buffer_too_small n none_left))
            (λ s. absurd (s refl))
      | inr (byte, q, first, some_left) ↦
          subst (λ t. HeardAfter capacity c t)
            (sym
              (drop_turn-some R c.waiter (dropping_overlong n) buffer_too_small n byte q some_left))
            (overlong-Heard c capacity n (record c.waiter { buffer = q }) e
              (byte == packet_delimiter))
    ]

    checking-Heard :
        (capacity n : ℕ) (c : Cores R)
        → c.waiting ≡ none
        → Heard R c
        → (b : Bool)
        → HeardAfter capacity c (
            let v = record c.waiter { overflow = false } in
            if b
            then goes_on R v (dropping_overflown n)
            else returns R v c.waiter.pending_frame_size incomplete_frame n [])
    checking-Heard capacity n c e h true = rw e h
    checking-Heard capacity n c e h false = λ s. h

    looping_turn-Heard :
        (capacity n : ℕ) (c : Cores R)
        → c.waiting ≡ none
        → HeardAfter capacity c (consumer_turn R c.waiter (looping n))
    looping_turn-Heard capacity n c e = elim (fifo.removed c.waiter.buffer) [
      | inl (empty, none_left) ↦
          subst (λ t. HeardAfter capacity c t) (sym (looping-none R c.waiter n none_left))
            (rw (e, empty) (inl tt))
      | inr (byte, q, first, some_left) ↦
          subst (λ t. HeardAfter capacity c t) (sym (looping-some R c.waiter n byte q some_left))
            (loop_turn-HeardIn capacity n c (record c.waiter { buffer = q }) byte e)
    ]

    pub consumer_turn-Heard :
        (capacity : ℕ) (c : Cores R) (k : Consumer)
        → c.waiting ≡ none
        → HeardAt c k
        → HeardAfter capacity c (consumer_turn R c.waiter k)
    unfolding consumer_turn
    consumer_turn-Heard capacity c away e h = rw e tt
    consumer_turn-Heard capacity c (looping n) e h = looping_turn-Heard capacity n c e
    consumer_turn-Heard capacity c (checking n) e h =
        checking-Heard capacity n c e h c.waiter.overflow
    consumer_turn-Heard capacity c (dropping_overlong n) e h =
        drop_overlong_turn-Heard capacity n c e
    consumer_turn-Heard capacity c (dropping_overflown n) e h = drop_turn-Heard capacity n c e h
