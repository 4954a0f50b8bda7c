-- ===== src/Firmware/FrameWaiter/Receive.antt =====
-- What `tryReadFrame` is to do, seen from outside: on the bytes of the pending frame and the bytes in the ring.
use easy_lo_ra_reforged.Base.{
  ℕ, ◌≤◌, ◌≡◌, Bool, false, List, [], ◌∷◌, ◌++◌, Option, some, length, take, drop, ltb, leb, ◌==◌,
  if◌then◌else◌,
}
use easy_lo_ra_reforged.Firmware.RingBuffer.{RingBuffer}
use easy_lo_ra_reforged.Firmware.FrameWaiter.{
  ReadFrameStatus, ok, buffer_too_small, incomplete_frame, overflow, packet_delimiter, FrameWaiter,
  Reading,
}

pub record Received : Type 0 where
  pub status : ReadFrameStatus
  pub frame : List ℕ
  pub pending : List ℕ
  pub unread : List ℕ
  pub overflow : Bool

-- What follows the first delimiter, or nothing.
unfoldable pub after_delimiter : List ℕ → List ℕ
after_delimiter [] = []
after_delimiter (b ∷ bs) = if b == packet_delimiter then bs else after_delimiter bs

module _ (buffer_size buffer_capacity : ℕ) where
  unfoldable pub receive : Bool → List ℕ → List ℕ → Received
  receive overflowed pending [] =
      if overflowed
      then record { status = overflow; frame = []; pending = []; unread = []; overflow = false }
      else record {
        status = incomplete_frame;
        frame = [];
        pending = pending;
        unread = [];
        overflow = false;
      }
  receive overflowed pending (b ∷ bs) =
      let next = receive overflowed (pending ++ b ∷ []) bs in
      if b == packet_delimiter
      then if ltb buffer_capacity (length pending)
        then record {
          status = buffer_too_small;
          frame = [];
          pending = [];
          unread = bs;
          overflow = overflowed;
        }
        else record {
          status = ok;
          frame = pending;
          pending = [];
          unread = bs;
          overflow = overflowed;
        }
      else if leb buffer_size (length pending)
      then record {
        status = buffer_too_small;
        frame = [];
        pending = [];
        unread = after_delimiter bs;
        overflow = overflowed;
      }
      else next

module _ (R : RingBuffer) where
  open R use {contents}

  abbrev pub pending : FrameWaiter R → List ℕ
  pending w = take w.pending_frame_size w.pending_frame_buffer

  -- The pending frame lies within its array.
  abbrev pub IsValid : FrameWaiter R → Type 0
  IsValid w = w.pending_frame_size ≤ length w.pending_frame_buffer

  -- A call on `w` and `output` returned, and did what `r` says, and nothing else.
  pub record Did (w : FrameWaiter R) (output : List ℕ) (res : Option (Reading R)) (r : Received)
      : Type 0 where
    pub reading : Reading R
    pub returned : res ≡ some reading
    pub status : reading.status ≡ r.status
    pub bytes_written : reading.bytes_written ≡ length r.frame
    pub output_buffer : reading.output ≡ r.frame ++ drop (length r.frame) output
    pub pending_frame : pending reading.waiter ≡ r.pending
    pub valid : IsValid reading.waiter
    pub array : length reading.waiter.pending_frame_buffer ≡ length w.pending_frame_buffer
    pub ring : contents reading.waiter.buffer ≡ r.unread
    pub overflowed : reading.waiter.overflow ≡ r.overflow
    pub producer : reading.waiter.dropping_feed_bytes ≡ w.dropping_feed_bytes
    pub notified : reading.waiter.notified ≡ w.notified
    pub callback : reading.waiter.callback ≡ w.callback
