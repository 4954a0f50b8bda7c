-- ===== src/Firmware/FrameWaiter/Concurrent.antt =====
-- firmware/lib/FrameWaiter/FrameWaiter.hpp with the two cores at once: `feed` and `tryReadFrame` cut at
-- their accesses to what the cores share, which are the ring and `overflow_m`. `droppingFeedBytes_m` is
-- read and written by the producer alone, the pending frame by the consumer alone, so each of their
-- accesses stands in one turn with an access to the ring or to the flag.
pub mod Bounds
pub mod Held
pub mod Accounts
pub mod Salvage
pub mod Stream
pub mod Turns
pub mod Running
pub mod Alone
mod Tests
use easy_lo_ra_reforged.Base.{
  ℕ, ◌+◌, ◌≡◌, ◌≢◌, Bool, true, false, not, List, [], ◌∷◌, ◌++◌, Option, none, some, length, take,
  set, ltb, leb, ◌==◌, if◌then◌else◌,
}
use easy_lo_ra_reforged.Firmware.RingBuffer.{RingBuffer}
use easy_lo_ra_reforged.Firmware.FrameWaiter.{
  ReadFrameStatus, ok, buffer_too_small, incomplete_frame, overflow, packet_delimiter, FrameWaiter,
  init,
}

-- Where the producer stands: between two calls of `feed`, behind an `insert` that was refused, or
-- behind one that stored a delimiter.
pub data Producer : Type 0 where
  between refused announcing : Producer

-- Where the consumer stands, with the capacity of its output buffer: between two calls of
-- `tryReadFrame`, before the `remove` of its loop, before the `exchange` of the flag, or before the
-- `remove` of `dropBufferUntilDelimiterOrEmpty` as called from the loop and from behind it.
pub data Consumer : Type 0 where
  away : Consumer
  looping checking dropping_overlong dropping_overflown : ℕ → Consumer

-- What a call of `tryReadFrame` returned, and the bytes that it wrote.
pub record Return : Type 0 where
  pub status : ReadFrameStatus
  pub capacity : ℕ
  pub frame : List ℕ

module _ (R : RingBuffer) where
  open R use {Ring, insert, remove}

  -- What a turn of the consumer leaves, and what it returned if the call is over.
  pub record Turn : Type 0 where
    pub waiter : FrameWaiter R
    pub consumer : Consumer
    pub result : Option Return

  abbrev pub goes_on : FrameWaiter R → Consumer → Turn
  goes_on w c = record { waiter = w; consumer = c; result = none }

  -- The end of a call; `pendingFrameSize_m` is set to `size`.
  abbrev pub returns : FrameWaiter R → ℕ → ReadFrameStatus → ℕ → List ℕ → Turn
  returns w size status capacity frame = record {
    waiter = record w { pending_frame_size = size };
    consumer = away;
    result = some (record { status = status; capacity = capacity; frame = frame });
  }

  -- The body of the loop, with the byte removed.
  unfoldable pub loop_turn : FrameWaiter R → ℕ → ℕ → Turn
  loop_turn w byte capacity =
      if byte == packet_delimiter
      then if ltb capacity w.pending_frame_size
        then returns w 0 buffer_too_small capacity []
        else returns w 0 ok capacity (take w.pending_frame_size w.pending_frame_buffer)
      else if leb (length w.pending_frame_buffer) w.pending_frame_size
      then goes_on w (dropping_overlong capacity)
      else goes_on
          (record w {
            pending_frame_buffer = set w.pending_frame_buffer w.pending_frame_size byte;
            pending_frame_size = w.pending_frame_size + 1;
          })
          (looping capacity)

  -- A round of `dropBufferUntilDelimiterOrEmpty`, called at `here`.
  unfoldable pub drop_turn : FrameWaiter R → Consumer → ReadFrameStatus → ℕ → Turn
  drop_turn w here status capacity = elim (remove w.buffer) [
    | none ↦ returns w 0 status capacity []
    | some (byte, ring) ↦
        let v = record w { buffer = ring } in
        if byte == packet_delimiter then returns v 0 status capacity [] else goes_on v here
  ]

  -- One access of the consumer, and what it does until the next.
  unfoldable pub consumer_turn : FrameWaiter R → Consumer → Turn
  unfolding loop_turn drop_turn
  consumer_turn w away = goes_on w away
  consumer_turn w (looping capacity) = elim (remove w.buffer) [
    | none ↦ goes_on w (checking capacity)
    | some (byte, ring) ↦ loop_turn (record w { buffer = ring }) byte capacity
  ]
  consumer_turn w (checking capacity) =
      let v = record w { overflow = false } in
      if w.overflow
      then goes_on v (dropping_overflown capacity)
      else returns v w.pending_frame_size incomplete_frame capacity []
  consumer_turn w (dropping_overlong capacity) =
      drop_turn w (dropping_overlong capacity) buffer_too_small capacity
  consumer_turn w (dropping_overflown capacity) =
      drop_turn w (dropping_overflown capacity) overflow capacity

  -- `feed` up to and including its `insert`.
  unfoldable pub feed_turn : FrameWaiter R → ℕ → FrameWaiter R × Producer
  feed_turn w byte =
      if w.dropping_feed_bytes
      then if byte == packet_delimiter
        then (record w { dropping_feed_bytes = false }, between)
        else (w, between)
      else let (inserted, ring) = insert byte w.buffer in
        if not inserted
        then (record w { buffer = ring }, refused)
        else if byte == packet_delimiter
        then (record w { buffer = ring }, announcing)
        else (record w { buffer = ring }, between)

  -- The rest of `feed`: the two stores, or the call of the callback.
  unfoldable pub producer_turn : FrameWaiter R → Producer → FrameWaiter R
  producer_turn w between = w
  producer_turn w refused = record w { overflow = true; dropping_feed_bytes = true }
  producer_turn w announcing = if w.callback then record w { notified = w.notified + 1 } else w

  -- Both cores; `fed` are the bytes given to `feed`, `refusals` counts the bytes that the ring refused,
  -- `returned` are the results of `tryReadFrame`, oldest first.
  pub record System : Type 0 where
    pub waiter : FrameWaiter R
    pub producer : Producer
    pub consumer : Consumer
    pub fed : List ℕ
    pub refusals : ℕ
    pub returned : List Return

  abbrev pub refusal : Producer → ℕ
  refusal refused = 1
  refusal _ = 0

  abbrev pub add_result : List Return → Option Return → List Return
  add_result returned none = returned
  add_result returned (some r) = returned ++ r ∷ []

  abbrev pub after_consumer : System → System
  after_consumer s =
      let turn = consumer_turn s.waiter s.consumer in
      record s {
        waiter = turn.waiter;
        consumer = turn.consumer;
        returned = add_result s.returned turn.result;
      }

  abbrev pub after_feed : System → ℕ → System
  after_feed s byte =
      let (w, p) = feed_turn s.waiter byte in
      record s {
        waiter = w;
        producer = p;
        fed = s.fed ++ byte ∷ [];
        refusals = s.refusals + refusal p;
      }

  abbrev pub after_producer : System → System
  after_producer s = record s { waiter = producer_turn s.waiter s.producer; producer = between }

  -- A turn of either core: a call of `tryReadFrame` begins, or the one under way goes on; a call of `feed`
  -- begins, or the one under way ends.
  pub data Step (s : System) : System → Type 0 where
    calls : (capacity : ℕ) → s.consumer ≡ away → Step s (record s { consumer = looping capacity })
    consumes : s.consumer ≢ away → Step s (after_consumer s)
    feeds : (byte : ℕ) → s.producer ≡ between → Step s (after_feed s byte)
    proceeds : s.producer ≢ between → Step s (after_producer s)

  abbrev pub start : Ring → ℕ → Bool → System
  start ring buffer_size callback = record {
    waiter = init R ring buffer_size callback;
    producer = between;
    consumer = away;
    fed = [];
    refusals = 0;
    returned = [];
  }

  pub data Reach (s : System) : System → Type 0 where
    here : Reach s s
    next : {t u : System} → Reach s t → Step t u → Reach s u
