-- ===== src/Firmware/FrameWaiter/Concurrent/Tests.antt =====
-- Runs and instances, over a ring of at most eight bytes and a pending array of four.
use easy_lo_ra_reforged.Base.{ℕ, ◌≤◌, ◌≡◌, refl, true, false, List, [], ◌∷◌, ◌++◌, arith}
use easy_lo_ra_reforged.Firmware.RingBuffer.{RingBuffer, list_ring, list_ring-IsFifo}
use easy_lo_ra_reforged.Firmware.FrameWaiter.{ok, init}
use easy_lo_ra_reforged.Firmware.FrameWaiter.Concurrent.{
  between, away, looping, Return, consumer_turn, feed_turn, producer_turn, System, calls, consumes,
  feeds, proceeds, start, Reach, here, next,
}
use easy_lo_ra_reforged.Firmware.FrameWaiter.Concurrent.Bounds.{
  IsBounded, Reach-IsBounded, Loops, begun, turned, offered, Loops-le,
}
use easy_lo_ra_reforged.Firmware.FrameWaiter.Concurrent.Stream.{IsLossless, Reach-IsLossless}
use easy_lo_ra_reforged.Base.Thinned.{Thinned, IsSuffix}
use easy_lo_ra_reforged.Firmware.FrameWaiter.Streams.{All, IsDelimiterFree, to_stream}
use easy_lo_ra_reforged.Firmware.FrameWaiter.Concurrent.Held.{frames_of}
use easy_lo_ra_reforged.Firmware.FrameWaiter.Concurrent.Salvage.{Reach-Salvaged}

abbrev eight : RingBuffer
eight = list_ring 8

abbrev system : List ℕ → List ℕ → ℕ → ℕ → List Return → List ℕ → System eight
system ring array size notified returned fed = record {
  waiter = record {
    buffer = ring;
    pending_frame_buffer = array;
    pending_frame_size = size;
    overflow = false;
    dropping_feed_bytes = false;
    callback = true;
    notified = notified;
  };
  producer = between;
  consumer = looping 4;
  fed = fed;
  refusals = 0;
  returned = returned;
}

-- A call has begun and has read the byte 5.
abbrev one_read : System eight
one_read = system [] (5 ∷ 0 ∷ 0 ∷ 0 ∷ []) 1 0 [] (5 ∷ [])

abbrev the_frame : Return
the_frame = record { status = ok; capacity = 4; frame = 5 ∷ [] }

-- The delimiter was fed in the meantime, and the call returned the frame.
abbrev all_read : System eight
all_read = record (system [] (5 ∷ 0 ∷ 0 ∷ 0 ∷ []) 0 1 (the_frame ∷ []) (5 ∷ 0 ∷ [])) {
  consumer = away;
}

one_read-Reach : Reach eight (start eight [] 4 true) one_read
unfolding init consumer_turn feed_turn
one_read-Reach =
    next (next (next here (feeds 5 refl)) (calls 4 refl)) (consumes (λ e. ground arith))

all_read-Reach : Reach eight (start eight [] 4 true) all_read
unfolding consumer_turn feed_turn producer_turn
all_read-Reach =
    next (next (next one_read-Reach (feeds 0 refl)) (proceeds (λ e. ground arith)))
      (consumes (λ e. ground arith))

Reach-IsBounded_example : IsBounded eight 4 all_read
Reach-IsBounded_example = Reach-IsBounded eight [] 4 true all_read-Reach

Reach-IsLossless_example : IsLossless eight (list_ring-IsFifo 8) all_read
Reach-IsLossless_example =
    Reach-IsLossless eight (list_ring-IsFifo 8) [] 4 true refl all_read-Reach
      (record { stored_all = refl; read_all = (tt, tt); reading = tt })

-- Two more bytes come in and one of them is read.
two_more : Loops eight one_read 1 (system (7 ∷ []) (5 ∷ 6 ∷ 0 ∷ 0 ∷ []) 2 0 [] (5 ∷ 6 ∷ 7 ∷ []))
unfolding consumer_turn feed_turn
two_more = turned (offered 7 (offered 6 begun refl) refl) refl refl

Loops-le_example : 1 ≤ 4
Loops-le_example = Loops-le eight [] 4 true one_read-Reach two_more

-- A ring of one byte refuses the 6; the delimiter behind it is dropped, and 3 comes behind the 5.
abbrev spliced : System (list_ring 1)
spliced = record {
  waiter = record {
    buffer = [];
    pending_frame_buffer = 5 ∷ 3 ∷ 0 ∷ 0 ∷ [];
    pending_frame_size = 0;
    overflow = true;
    dropping_feed_bytes = false;
    callback = true;
    notified = 1;
  };
  producer = between;
  consumer = away;
  fed = 5 ∷ 6 ∷ 0 ∷ 3 ∷ 0 ∷ [];
  refusals = 1;
  returned = record { status = ok; capacity = 4; frame = 5 ∷ 3 ∷ [] } ∷ [];
}

-- Behind the overflow, with the 5 read.
abbrev refusing : System (list_ring 1)
refusing = record {
  waiter = record {
    buffer = [];
    pending_frame_buffer = 5 ∷ 0 ∷ 0 ∷ 0 ∷ [];
    pending_frame_size = 1;
    overflow = true;
    dropping_feed_bytes = true;
    callback = true;
    notified = 0;
  };
  producer = between;
  consumer = looping 4;
  fed = 5 ∷ 6 ∷ [];
  refusals = 1;
  returned = [];
}

refusing-Reach : Reach (list_ring 1) (start (list_ring 1) [] 4 true) refusing
unfolding init consumer_turn feed_turn producer_turn
refusing-Reach =
    next
      (next (next (next (next here (feeds 5 refl)) (feeds 6 refl)) (proceeds (λ e. ground arith)))
        (calls 4 refl))
      (consumes (λ e. ground arith))

spliced-Reach : Reach (list_ring 1) (start (list_ring 1) [] 4 true) spliced
unfolding consumer_turn feed_turn producer_turn
spliced-Reach =
    next
      (next
        (next
          (next (next (next refusing-Reach (feeds 0 refl)) (feeds 3 refl))
            (consumes (λ e. ground arith)))
          (feeds 0 refl))
        (proceeds (λ e. ground arith)))
      (consumes (λ e. ground arith))

Reach-Salvaged_example :
    (segments : List (List ℕ)) × (rest : List ℕ) × Thinned ◌≡◌
      (to_stream segments ++ rest)
      (5 ∷ 6 ∷ 0 ∷ 3 ∷ 0 ∷ [])
    × All IsDelimiterFree segments
    × Thinned IsSuffix (frames_of spliced.returned) segments
Reach-Salvaged_example =
    Reach-Salvaged (list_ring 1) (list_ring-IsFifo 1) [] 4 true refl spliced-Reach
