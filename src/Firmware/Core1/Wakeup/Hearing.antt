-- ===== src/Firmware/Core1/Wakeup/Hearing.antt =====
-- No wake-up of core 1 is lost.
use easy_lo_ra_reforged.Base.{
  ℕ, ◌≡◌, ◌≢◌, refl, subst, Bool, [], ◌∷◌, Option, none, some, inl, inr, arith,
}
use easy_lo_ra_reforged.Firmware.RingBuffer.{RingBuffer, IsFifo}
use easy_lo_ra_reforged.Firmware.FrameWaiter.{ReadFrameStatus, buffer_too_small, FrameWaiter}
use easy_lo_ra_reforged.Firmware.FrameWaiter.Streams.{IsDelimiterFree-append}
use easy_lo_ra_reforged.Firmware.FrameWaiter.Concurrent.{
  Producer, between, refused, announcing, Consumer, away, looping, checking, dropping_overlong,
  dropping_overflown, feed_turn, producer_turn,
}
use easy_lo_ra_reforged.Firmware.Core1.Wakeup.{
  Hears, Heard, Cores, core_1_turn, wake, after_call, feed_begin, feed_end, Step, reads, wakes,
  feeds, ends, begin, Reach, here, next,
}
use easy_lo_ra_reforged.Firmware.Core1.Wakeup.Turns.{HeardAt, HeardIn, consumer_turn-Heard}

module _ (R : RingBuffer) where
  open R use {Ring, contents}

  module _ (fifo : IsFifo R) where
    feed_turn-Heard :
        (w : FrameWaiter R) (byte : ℕ) (event : Bool)
        → Hears (contents w.buffer) event between
        → let t = feed_turn R w byte in Hears (contents t.0.buffer) event t.1
    unfolding feed_turn
    feed_turn-Heard w byte event (inl free) = ground (
      arith,
      fifo.inserted byte w.buffer,
      fifo.contents-insert byte w.buffer,
      IsDelimiterFree-append (contents w.buffer) (byte ∷ []) free,
    )
    feed_turn-Heard w byte event (inr (inl e)) = inr (inl e)
    feed_turn-Heard w byte event (inr (inr e)) = ground (arith, e)

    producer_turn-Heard :
        (w : FrameWaiter R) (event : Bool) (p : Producer)
        → Hears (contents w.buffer) event p
        → Hears (contents (producer_turn R w p).buffer) (after_call event p) between
    unfolding producer_turn
    producer_turn-Heard w event between h = h
    producer_turn-Heard w event refused (inl h) = inl h
    producer_turn-Heard w event refused (inr (inl h)) = inr (inl h)
    producer_turn-Heard w event refused (inr (inr e)) = ground (arith, e)
    producer_turn-Heard w event announcing h = inr (inl refl)

    HeardAt-map :
        (c d : Cores R) (k : Consumer) → (Heard R c → Heard R d) → HeardAt R c k → HeardAt R d k
    HeardAt-map c d away f h = tt
    HeardAt-map c d (looping n) f h = tt
    HeardAt-map c d (checking n) f h = f h
    HeardAt-map c d (dropping_overlong n) f h = tt
    HeardAt-map c d (dropping_overflown n) f h = f h

    -- The other core does something.
    HeardIn-map :
        (c d : Cores R) (n : Option ReadFrameStatus)
        → d.consumer ≡ c.consumer
        → (Heard R c → Heard R d)
        → HeardIn R c n
        → HeardIn R d n
    HeardIn-map c d none e f h = rw e (HeardAt-map c d c.consumer f h)
    HeardIn-map c d (some status) e f h = λ s. f (h s)

    Step-Heard :
        (capacity : ℕ) (c d : Cores R)
        → HeardIn R c c.waiting
        → Step R capacity c d
        → HeardIn R d d.waiting
    unfolding core_1_turn wake feed_begin feed_end
    Step-Heard capacity c d h (reads e) =
        consumer_turn-Heard R fifo capacity c c.consumer e (rw e at h)
    Step-Heard capacity c d h (wakes status e event) = tt
    Step-Heard capacity c d h (feeds byte e) =
        HeardIn-map c (feed_begin R c byte) c.waiting refl
          (λ g. feed_turn-Heard c.waiter byte c.event (rw e at g)) h
    Step-Heard capacity c d h (ends e) =
        HeardIn-map c (feed_end R c) c.waiting refl
          (producer_turn-Heard c.waiter c.event c.producer) h

    Reach-HeardIn :
        (capacity : ℕ) (ring : Ring) (buffer_size : ℕ) {c : Cores R}
        → Reach R capacity (begin R capacity ring buffer_size) c
        → HeardIn R c c.waiting
    Reach-HeardIn capacity ring buffer_size here = tt
    Reach-HeardIn capacity ring buffer_size (next {d} {e} r s) =
        Step-Heard capacity d e (Reach-HeardIn capacity ring buffer_size r) s

    -- No wake-up is lost: however the turns of the two cores alternate, when core 1 is in `__wfe` behind a
    -- call of `tryReadFrame` that did not return BufferTooSmall, then no whole frame waits in the ring, or
    -- the event of core 1 is set, or the other core is about to call `__sev`.
    pub Reach-Heard :
        (capacity : ℕ) (ring : Ring) (buffer_size : ℕ) {c : Cores R} (status : ReadFrameStatus)
        → Reach R capacity (begin R capacity ring buffer_size) c
        → c.waiting ≡ some status
        → status ≢ buffer_too_small
        → Heard R c
    Reach-Heard capacity ring buffer_size {c} status r e n =
        subst (λ w. HeardIn R c w) e (Reach-HeardIn capacity ring buffer_size r) n
