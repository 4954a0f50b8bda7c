-- ===== src/Firmware/Core1/Wakeup.antt =====
-- firmware/lib/Core_1/Core_1.cpp: the endless loop of `main` with its `__wfe`, while the other core feeds
-- the waiter that core 1 reads, whose callback is `__sev`. Both cores take turns as in
-- FrameWaiter/Concurrent. The SDK's `__sev` sets the event register of both cores; `__wfe` waits until
-- the core's own is set, and clears it.
pub mod Turns
pub mod Hearing
use easy_lo_ra_reforged.Base.{
  ℕ, ◌≡◌, ◌≢◌, refl, sym, ap, ◌∙◌, subst, Bool, true, false, not, List, [], ◌∷◌, ◌++◌, Option, none,
  some, ◌⊎◌, inl, inr, ◌==◌, if◌then◌else◌, arith, Bool-cases,
}
use easy_lo_ra_reforged.Firmware.RingBuffer.{RingBuffer, IsFifo}
use easy_lo_ra_reforged.Firmware.FrameWaiter.{
  ReadFrameStatus, ok, buffer_too_small, incomplete_frame, overflow, packet_delimiter, FrameWaiter,
  init,
}
use easy_lo_ra_reforged.Firmware.FrameWaiter.Streams.{IsDelimiterFree, IsDelimiterFree-append}
use easy_lo_ra_reforged.Firmware.FrameWaiter.Concurrent.{
  Producer, between, refused, announcing, Consumer, away, looping, checking, dropping_overlong,
  dropping_overflown, Return, Turn, goes_on, returns, loop_turn, drop_turn, consumer_turn,
  feed_turn, producer_turn,
}
use easy_lo_ra_reforged.Firmware.Core1.{is_ok}

abbrev pub Hears : List ℕ → Bool → Producer → Type 0
Hears held event producer = IsDelimiterFree held ⊎ (event ≡ true) ⊎ (producer ≡ announcing)

-- The event register behind the end of a call of `feed`: the callback is `__sev`.
abbrev pub after_call : Bool → Producer → Bool
after_call event announcing = true
after_call event _ = event

module _ (R : RingBuffer) where
  open R use {Ring, contents, insert, remove}

  -- `waiting` is the status with which the inner loop ended, while core 1 is in `__wfe`; `event` is its
  -- event register.
  pub record Cores : Type 0 where
    pub waiter : FrameWaiter R
    pub producer : Producer
    pub consumer : Consumer
    pub waiting : Option ReadFrameStatus
    pub event : Bool

  -- Behind a turn of core 1: a call that returned OK is followed by the next (the frame is answered in
  -- between), any other status ends the inner loop.
  abbrev pub after_result : ℕ → Cores → Option Return → Cores
  after_result capacity c none = c
  after_result capacity c (some r) =
      if is_ok r.status
      then record c { consumer = looping capacity }
      else record c { waiting = some r.status }

  unfoldable pub core_1_turn : ℕ → Cores → Cores
  core_1_turn capacity c =
      let t = consumer_turn R c.waiter c.consumer in
      after_result capacity (record c { waiter = t.waiter; consumer = t.consumer }) t.result

  -- `__wfe` returns, and the inner loop begins again.
  unfoldable pub wake : ℕ → Cores → Cores
  wake capacity c = record c { event = false; waiting = none; consumer = looping capacity }

  -- The end of a call of `feed`.
  unfoldable pub feed_end : Cores → Cores
  feed_end c = record c {
    waiter = producer_turn R c.waiter c.producer;
    producer = between;
    event = after_call c.event c.producer;
  }

  unfoldable pub feed_begin : Cores → ℕ → Cores
  feed_begin c byte =
      let (w, p) = feed_turn R c.waiter byte in record c { waiter = w; producer = p }

  -- A turn of either core.
  pub data Step (capacity : ℕ) (c : Cores) : Cores → Type 0 where
    reads : c.waiting ≡ none → Step capacity c (core_1_turn capacity c)
    wakes :
        (status : ReadFrameStatus)
        → c.waiting ≡ some status
        → c.event ≡ true
        → Step capacity c (wake capacity c)
    feeds : (byte : ℕ) → c.producer ≡ between → Step capacity c (feed_begin c byte)
    ends : c.producer ≢ between → Step capacity c (feed_end c)

  -- `main` begins: core 1 is in its first call.
  abbrev pub begin : ℕ → Ring → ℕ → Cores
  begin capacity ring buffer_size = record {
    waiter = init R ring buffer_size true;
    producer = between;
    consumer = looping capacity;
    waiting = none;
    event = false;
  }

  pub data Reach (capacity : ℕ) (c : Cores) : Cores → Type 0 where
    here : Reach capacity c c
    next : {d e : Cores} → Reach capacity c d → Step capacity d e → Reach capacity c e

  -- No whole frame waits, or core 1 is going to be woken: its event is set, or the other core is about to
  -- set it.
  abbrev pub Heard : Cores → Type 0
  Heard c = Hears (contents c.waiter.buffer) c.event c.producer
