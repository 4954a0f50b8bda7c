-- ===== src/Firmware/FrameWaiter/Concurrent/Stream.antt =====
-- The bytes on their way from one core to the other.
use easy_lo_ra_reforged.Base.{
  ℕ, ◌≡◌, ◌≢◌, refl, sym, ap, ◌∙◌, Bool, false, List, [], ◌∷◌, ◌++◌, Option, none, some, arith,
  append_assoc,
}
use easy_lo_ra_reforged.Firmware.RingBuffer.{RingBuffer, IsFifo}
use easy_lo_ra_reforged.Firmware.FrameWaiter.{FrameWaiter, init}
use easy_lo_ra_reforged.Firmware.FrameWaiter.Receive.{pending}
use easy_lo_ra_reforged.Firmware.FrameWaiter.Streams.{All, to_stream}
use easy_lo_ra_reforged.Firmware.FrameWaiter.Concurrent.{
  Producer, between, refused, announcing, Return, consumer_turn, feed_turn, producer_turn, System,
  add_result, calls, consumes, feeds, proceeds, start, Reach, here, next, refusal,
}
use easy_lo_ra_reforged.Firmware.FrameWaiter.Concurrent.Held.{
  frames_of, frames_of-add_result, IsRead, IsReading, ReadResult, Holds, consumer-Holds,
  IsReading-before,
}

module _ (R : RingBuffer) where
  open R use {Ring, contents}

  -- No byte was refused, and none was dropped by the consumer.
  pub record IsClean (s : System R) : Type 0 where
    pub stored_all : s.refusals ≡ 0
    pub read_all : All (λ r. IsRead r.status) s.returned
    pub reading : IsReading s.consumer

  module _ (fifo : IsFifo R) where
    -- The same frames, with one more byte in the ring.
    Holds-stored :
        (frames : List (List ℕ)) (w v : FrameWaiter R) (byte : ℕ) (fed : List ℕ)
        → Holds R frames w fed
        → contents v.buffer ≡ contents w.buffer ++ byte ∷ []
        → pending R v ≡ pending R w
        → v.dropping_feed_bytes ≡ false
        → v.overflow ≡ false
        → Holds R frames v (fed ++ byte ∷ [])
    Holds-stored frames w v byte fed h stored same listening quiet = record {
      all =
          ap (λ l. to_stream frames ++ l)
            (rw (same, stored) (sym (append_assoc (pending R w) (contents w.buffer) (byte ∷ []))))
          ∙ sym (append_assoc (to_stream frames) (pending R w ++ contents w.buffer) (byte ∷ []))
          ∙ ap (λ l. l ++ byte ∷ []) h.all;
      frames_free = h.frames_free;
      pending_free = rw same h.pending_free;
      listening = listening;
      quiet = quiet;
    }

    feed_turn-stored :
        (w : FrameWaiter R) (byte : ℕ)
        → w.dropping_feed_bytes ≡ false
        → refusal R (feed_turn R w byte).1 ≡ 0
        → (contents (feed_turn R w byte).0.buffer ≡ contents w.buffer ++ byte ∷ [])
          × ((feed_turn R w byte).1 ≢ refused)
    unfolding feed_turn
    feed_turn-stored w byte l e =
        ground (arith, fifo.inserted byte w.buffer, fifo.contents-insert byte w.buffer)

    feed_turn-keeps :
        (w : FrameWaiter R) (byte : ℕ)
        → w.dropping_feed_bytes ≡ false
        → (pending R (feed_turn R w byte).0 ≡ pending R w)
          × ((feed_turn R w byte).0.dropping_feed_bytes ≡ false)
          × ((feed_turn R w byte).0.overflow ≡ w.overflow)
    unfolding feed_turn
    feed_turn-keeps w byte l = ground arith

    producer_turn-Holds :
        (frames : List (List ℕ)) (w : FrameWaiter R) (p : Producer) (fed : List ℕ)
        → p ≢ refused
        → Holds R frames w fed
        → Holds R frames (producer_turn R w p) fed
    unfolding producer_turn
    producer_turn-Holds frames w between fed n h = h
    producer_turn-Holds frames w refused fed n h = absurd (n refl)
    producer_turn-Holds frames w announcing fed n h =
        ground (arith, h.all, h.frames_free, h.pending_free, h.listening, h.quiet)

    -- A system in which nothing has been lost.
    pub record IsLossless (s : System R) : Type 0 where
      pub held : Holds R (frames_of s.returned) s.waiter s.fed
      pub stored : s.producer ≢ refused

    add_result-IsRead :
        (returned : List Return) (result : Option Return)
        → All (λ r. IsRead r.status) (add_result R returned result)
        → All (λ r. IsRead r.status) returned × ReadResult result
    add_result-IsRead returned none h = (h, tt)
    add_result-IsRead [] (some r) h = (tt, h.0)
    add_result-IsRead (x ∷ xs) (some r) h =
        let more = add_result-IsRead xs (some r) h.1 in ((h.0, more.0), more.1)

    -- However the two cores take turns: as long as the ring refuses no byte and no call returns that it
    -- dropped something, the bytes fed so far are exactly the frames returned with OK, each with its
    -- delimiter, then the pending bytes, then those in the ring; and no frame has a delimiter in it.
    pub Reach-IsLossless :
        (ring : Ring) (size : ℕ) (callback : Bool) {s : System R}
        → contents ring ≡ []
        → Reach R (start R ring size callback) s
        → IsClean s
        → IsLossless s
    unfolding init
    Reach-IsLossless ring size callback empty here c = record {
      held = record {
        all = empty;
        frames_free = tt;
        pending_free = tt;
        listening = refl;
        quiet = refl;
      };
      stored = λ e. ground arith;
    }
    Reach-IsLossless ring size callback empty (next r (calls capacity e)) c =
        let before =
          Reach-IsLossless ring size callback empty r
            (record { stored_all = c.stored_all; read_all = c.read_all; reading = rw e tt }) in
        record { held = before.held; stored = before.stored }
    Reach-IsLossless ring size callback empty (next {t = s} r (consumes e)) c =
        let turn = consumer_turn R s.waiter s.consumer in
        let (read, result) = add_result-IsRead s.returned turn.result c.read_all in
        let before = Reach-IsLossless ring size callback empty r (record {
          stored_all = c.stored_all;
          read_all = read;
          reading = IsReading-before R fifo s.waiter s.consumer c.reading result;
        }) in
        record {
          held = rw (frames_of-add_result R s.returned turn.result) (
              consumer-Holds R fifo (frames_of s.returned) s.waiter s.consumer s.fed before.held
                c.reading result);
          stored = before.stored;
        }
    Reach-IsLossless ring size callback empty (next {t = s} r (feeds byte e)) c =
        let before = Reach-IsLossless ring size callback empty r (record {
          stored_all = omega (arith, c.stored_all);
          read_all = c.read_all;
          reading = c.reading;
        }) in
        let (stored, fine) =
          feed_turn-stored s.waiter byte before.held.listening (omega (arith, c.stored_all)) in
        let (same, listening, quiet) = feed_turn-keeps s.waiter byte before.held.listening in
        record {
          held =
              Holds-stored (frames_of s.returned) s.waiter (feed_turn R s.waiter byte).0 byte s.fed
                before.held stored same listening (quiet ∙ before.held.quiet);
          stored = fine;
        }
    Reach-IsLossless ring size callback empty (next {t = s} r (proceeds e)) c =
        let before =
          Reach-IsLossless ring size callback empty r
            (record { stored_all = c.stored_all; read_all = c.read_all; reading = c.reading }) in
        record {
          held =
              producer_turn-Holds (frames_of s.returned) s.waiter s.producer s.fed before.stored
                before.held;
          stored = λ e. ground arith;
        }
