-- ===== src/Firmware/FrameWaiter/Tests.antt =====
-- Runs and instances, over a ring that is a list of at most eight bytes.
use easy_lo_ra_reforged.Base.{ℕ, ◌≡◌, refl, Bool, true, false, List, [], ◌∷◌, some, arith}
use easy_lo_ra_reforged.Firmware.RingBuffer.{RingBuffer, IsFifo, list_ring, list_ring-IsFifo}
use easy_lo_ra_reforged.Firmware.FrameWaiter.{
  ok, buffer_too_small, FrameWaiter, init, feed_range, read_loop, take_frame, try_read_frame,
}
use easy_lo_ra_reforged.Firmware.FrameWaiter.Receive.{receive, Did}
use easy_lo_ra_reforged.Firmware.FrameWaiter.Loop.{try_read_frame_lem}
use easy_lo_ra_reforged.Firmware.FrameWaiter.Frames.{next_frame}
use easy_lo_ra_reforged.Firmware.FrameWaiter.Streams.{to_stream}
use easy_lo_ra_reforged.Firmware.FrameWaiter.Delivery.{read_frames, read_frames-feed_range}
use easy_lo_ra_reforged.Firmware.FrameWaiter.Faults.{overflow_splices, overlong_tail}

abbrev eight : RingBuffer
eight = list_ring 8

abbrev eight-IsFifo : IsFifo eight
eight-IsFifo = list_ring-IsFifo 8

-- A waiter with four bytes of pending array.
abbrev waiter : List ℕ → List ℕ → ℕ → Bool → Bool → FrameWaiter eight
waiter ring array size overflowed dropping = record {
  buffer = ring;
  pending_frame_buffer = array;
  pending_frame_size = size;
  overflow = overflowed;
  dropping_feed_bytes = dropping;
  callback = true;
  notified = 0;
}

abbrev idle : FrameWaiter eight
idle = waiter [] (0 ∷ 0 ∷ 0 ∷ 0 ∷ []) 0 false false

-- Two bytes of a frame are pending, the rest of it and another one are in the ring.
abbrev halfway : FrameWaiter eight
halfway = waiter (3 ∷ 0 ∷ 9 ∷ []) (1 ∷ 2 ∷ 0 ∷ 0 ∷ []) 2 false false

-- An overflow was flagged while `7 ∷ 8 ∷ []` was stored.
abbrev overflown : FrameWaiter eight
overflown = waiter (7 ∷ 8 ∷ []) (0 ∷ 0 ∷ 0 ∷ 0 ∷ []) 0 true true

abbrev full : FrameWaiter eight
full = waiter (1 ∷ 1 ∷ 1 ∷ 1 ∷ 1 ∷ 1 ∷ 1 ∷ 1 ∷ []) (0 ∷ 0 ∷ 0 ∷ 0 ∷ []) 0 false false

abbrev out : List ℕ
out = 5 ∷ 5 ∷ 5 ∷ 5 ∷ []

halfway_read :
    try_read_frame eight halfway (some out) 4
    ≡ some (record {
      waiter = waiter (9 ∷ []) (1 ∷ 2 ∷ 3 ∷ 0 ∷ []) 0 false false;
      output = 1 ∷ 2 ∷ 3 ∷ 5 ∷ [];
      bytes_written = 3;
      status = ok;
    })
unfolding try_read_frame read_loop take_frame
halfway_read = refl

init-idle : init eight [] 4 true ≡ idle
unfolding init
init-idle = refl

read_frames-feed_range_example :
    read_frames eight eight-IsFifo 3
      (feed_range eight idle (to_stream ((1 ∷ 2 ∷ []) ∷ [] ∷ (3 ∷ []) ∷ [])))
      out
      4
    ≡ (1 ∷ 2 ∷ []) ∷ [] ∷ (3 ∷ []) ∷ []
read_frames-feed_range_example =
    read_frames-feed_range eight eight-IsFifo ((1 ∷ 2 ∷ []) ∷ [] ∷ (3 ∷ []) ∷ []) idle out 4 refl
      refl refl (omega arith) (ground arith) (ground arith)

try_read_frame_lem_example :
    Did eight halfway out
      (try_read_frame eight halfway (some out) 4)
      (receive 4 4 false (1 ∷ 2 ∷ []) (3 ∷ 0 ∷ 9 ∷ []))
try_read_frame_lem_example = try_read_frame_lem eight eight-IsFifo halfway out 4 (omega arith)

-- The frame `7 ∷ 8 ∷ 4 ∷ []`, of which `4 ∷ []` was lost, and `3 ∷ []` come out as `7 ∷ 8 ∷ 3 ∷ []`.
overflow_splices_example :
    let v = feed_range eight (feed_range eight overflown (4 ∷ 0 ∷ [])) (3 ∷ 0 ∷ []) in
    Did eight v out
      (try_read_frame eight v (some out) 4)
      (record { status = ok; frame = 7 ∷ 8 ∷ 3 ∷ []; pending = []; unread = []; overflow = true })
overflow_splices_example =
    overflow_splices eight eight-IsFifo overflown out (4 ∷ []) (7 ∷ 8 ∷ []) (3 ∷ []) 4 (omega arith)
      refl refl refl refl (ground arith) (ground arith) (ground arith) (omega arith) (omega arith)
      (omega arith)

overlong_tail_example :
    (d : Did eight full out (try_read_frame eight full (some out) 4) (record {
      status = buffer_too_small;
      frame = [];
      pending = [];
      unread = [];
      overflow = false;
    }))
    × (let v = feed_range eight d.reading.waiter (2 ∷ 3 ∷ 0 ∷ []) in
        Did eight v out
          (try_read_frame eight v (some out) 4)
          (record { status = ok; frame = 2 ∷ 3 ∷ []; pending = []; unread = []; overflow = false }))
overlong_tail_example =
    overlong_tail eight eight-IsFifo full out out (2 ∷ 3 ∷ []) 4 (omega arith) refl
      (unfold next_frame in refl) (omega arith) (ground arith) (omega arith) (omega arith)
      (omega arith)
