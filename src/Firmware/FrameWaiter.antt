-- ===== src/Firmware/FrameWaiter.antt =====
-- firmware/lib/FrameWaiter/FrameWaiter.hpp: the producer feeds bytes into a ring buffer, the consumer
-- takes delimited frames out of it. `BufferSize` is the length of the pending frame's array.
pub mod Receive
pub mod Branches
pub mod Loop
pub mod Frames
pub mod Streams
pub mod Delivery
pub mod Faults
pub mod Concurrent
mod Tests
use easy_lo_ra_reforged.Base.{
  ℕ, zero, suc, ◌+◌, Bool, true, false, not, List, [], ◌∷◌, ◌++◌, Option, none, some, length, take,
  drop, set, ltb, leb, ◌==◌, if◌then◌else◌, replicate,
}
use easy_lo_ra_reforged.Firmware.RingBuffer.{RingBuffer}

pub data ReadFrameStatus : Type 0 where
  ok no_frame buffer_too_small buffer_nullptr incomplete_frame overflow : ReadFrameStatus

abbrev pub packet_delimiter : ℕ
packet_delimiter = 0

module _ (R : RingBuffer) where
  open R use {Ring, contents, insert, remove}

  -- `callback` says whether the pointer is not null, `notified` counts the calls through it.
  pub record FrameWaiter : Type 0 where
    pub buffer : Ring
    pub pending_frame_buffer : List ℕ
    pub pending_frame_size : ℕ
    pub overflow : Bool
    pub dropping_feed_bytes : Bool
    pub callback : Bool
    pub notified : ℕ

  -- The constructor; the ring is empty and the array is zeroed by a static instance.
  unfoldable pub init : Ring → ℕ → Bool → FrameWaiter
  init ring buffer_size callback = record {
    buffer = ring;
    pending_frame_buffer = replicate buffer_size 0;
    pending_frame_size = 0;
    overflow = false;
    dropping_feed_bytes = false;
    callback = callback;
    notified = 0;
  }

  -- `feed(uint8_t)`.
  unfoldable pub feed : FrameWaiter → ℕ → FrameWaiter
  feed w byte =
      if w.dropping_feed_bytes
      then if byte == packet_delimiter then record w { dropping_feed_bytes = false } else w
      else let (inserted, ring) = insert byte w.buffer in
        if not inserted
        then record w { buffer = ring; overflow = true; dropping_feed_bytes = true }
        else if byte == packet_delimiter
        then if w.callback
          then record w { buffer = ring; notified = w.notified + 1 }
          else record w { buffer = ring }
        else record w { buffer = ring }

  -- `feed(std::span<const uint8_t>)`.
  unfoldable pub feed_range : FrameWaiter → List ℕ → FrameWaiter
  feed_range w [] = w
  feed_range w (byte ∷ range) = feed_range (feed w byte) range

  unfoldable pub insert_delimiter : FrameWaiter → FrameWaiter
  insert_delimiter w = feed w packet_delimiter

  -- The loop of `dropBufferUntilDelimiterOrEmpty`, on fuel; `none` means that the fuel ran out.
  drop_buffer : ℕ → Ring → Option Ring
  drop_buffer zero ring = none
  drop_buffer (suc fuel) ring = elim (remove ring) [
    | none ↦ some ring
    | some (byte, rest) ↦
        let next = drop_buffer fuel rest in if byte == packet_delimiter then some rest else next
  ]

  -- What `tryReadFrame` leaves: the waiter, the output buffer, `bytesWritten` and the status.
  pub record Reading : Type 0 where
    pub waiter : FrameWaiter
    pub output : List ℕ
    pub bytes_written : ℕ
    pub status : ReadFrameStatus

  -- `dropBufferUntilDelimiterOrEmpty(); pendingFrameSize_m = 0; return status;`
  pub drop_frame : ℕ → FrameWaiter → List ℕ → ReadFrameStatus → Option Reading
  drop_frame fuel w output status = elim (drop_buffer fuel w.buffer) [
    | none ↦ none
    | some ring ↦ some (record {
      waiter = record w { buffer = ring; pending_frame_size = 0 };
      output = output;
      bytes_written = 0;
      status = status;
    })
  ]

  -- The delimiter's branch of the loop.
  pub take_frame : FrameWaiter → List ℕ → ℕ → Reading
  take_frame w output buffer_capacity =
      if ltb buffer_capacity w.pending_frame_size
      then record {
        waiter = record w { pending_frame_size = 0 };
        output = output;
        bytes_written = 0;
        status = buffer_too_small;
      }
      else record {
        waiter = record w { pending_frame_size = 0 };
        output =
            take w.pending_frame_size w.pending_frame_buffer ++ drop w.pending_frame_size output;
        bytes_written = w.pending_frame_size;
        status = ok;
      }

  -- What follows the loop.
  unfoldable pub end_of_buffer : ℕ → FrameWaiter → List ℕ → Option Reading
  end_of_buffer fuel w output =
      if w.overflow
      then drop_frame fuel (record w { overflow = false }) output overflow
      else some
          (record { waiter = w; output = output; bytes_written = 0; status = incomplete_frame })

  -- `while (buffer_m.remove(byte))`, and what follows it.
  unfoldable pub read_loop : ℕ → FrameWaiter → List ℕ → ℕ → Option Reading
  read_loop zero w output buffer_capacity = none
  read_loop (suc fuel) w output buffer_capacity = elim (remove w.buffer) [
    | none ↦ end_of_buffer (suc fuel) w output
    | some (byte, ring) ↦
        let v = record w { buffer = ring } in
        let next =
          read_loop fuel
            (record v {
              pending_frame_buffer = set w.pending_frame_buffer w.pending_frame_size byte;
              pending_frame_size = w.pending_frame_size + 1;
            })
            output buffer_capacity in
        if byte == packet_delimiter
        then some (take_frame v output buffer_capacity)
        else if leb (length w.pending_frame_buffer) w.pending_frame_size
        then drop_frame (suc fuel) v output buffer_too_small
        else next
  ]

  -- `tryReadFrame`; the output buffer is `none` for `nullptr`. One round for each byte in the ring and
  -- one more are enough.
  unfoldable pub try_read_frame : FrameWaiter → Option (List ℕ) → ℕ → Option Reading
  try_read_frame w none buffer_capacity =
      some (record { waiter = w; output = []; bytes_written = 0; status = buffer_nullptr })
  try_read_frame w (some output) buffer_capacity =
      read_loop (suc (length (contents w.buffer))) w output buffer_capacity
