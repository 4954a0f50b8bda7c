-- ===== src/Firmware/FrameWaiter/Concurrent/Turns.antt =====
-- The turns of the consumer by what `remove` gives.
use easy_lo_ra_reforged.Base.{ℕ, ◌≡◌, refl, [], none, some, ◌==◌, if◌then◌else◌}
use easy_lo_ra_reforged.Firmware.RingBuffer.{RingBuffer}
use easy_lo_ra_reforged.Firmware.FrameWaiter.{ReadFrameStatus, packet_delimiter, FrameWaiter}
use easy_lo_ra_reforged.Firmware.FrameWaiter.Concurrent.{
  Consumer, looping, checking, goes_on, returns, loop_turn, drop_turn, consumer_turn,
}

module _ (R : RingBuffer) where
  open R use {Ring, remove}

  pub drop_turn-none :
      (w : FrameWaiter R) (c : Consumer) (status : ReadFrameStatus) (capacity : ℕ)
      → remove w.buffer ≡ none
      → drop_turn R w c status capacity ≡ returns R w 0 status capacity []
  unfolding drop_turn
  drop_turn-none w c status capacity m = rw (m, drop_turn) refl

  pub drop_turn-some :
      (w : FrameWaiter R) (c : Consumer) (status : ReadFrameStatus) (capacity byte : ℕ)
      (ring : Ring)
      → remove w.buffer ≡ some (byte, ring)
      → drop_turn R w c status capacity ≡ (
          if byte == packet_delimiter
          then returns R (record w { buffer = ring }) 0 status capacity []
          else goes_on R (record w { buffer = ring }) c)
  unfolding drop_turn
  drop_turn-some w c status capacity byte ring m = rw (m, drop_turn) refl

  pub looping-none :
      (w : FrameWaiter R) (capacity : ℕ)
      → remove w.buffer ≡ none
      → consumer_turn R w (looping capacity) ≡ goes_on R w (checking capacity)
  unfolding consumer_turn
  looping-none w capacity m = rw (m, consumer_turn) refl

  pub looping-some :
      (w : FrameWaiter R) (capacity byte : ℕ) (ring : Ring)
      → remove w.buffer ≡ some (byte, ring)
      → consumer_turn R w (looping capacity)
        ≡ loop_turn R (record w { buffer = ring }) byte capacity
  unfolding consumer_turn
  looping-some w capacity byte ring m = rw (m, consumer_turn) refl
