-- ===== src/Firmware/FrameWaiter/Concurrent/Salvage.antt =====
-- What the consumer gets where bytes are lost.
use easy_lo_ra_reforged.Base.{
  ℕ, ◌≡◌, refl, sym, ap, ◌∙◌, subst, Bool, List, [], ◌∷◌, ◌++◌, ◌⊎◌, inl, inr, arith, append_assoc,
}
use easy_lo_ra_reforged.Base.Thinned.{Thinned, end, Thinned-drop, Thinned-keep, IsSuffix}
use easy_lo_ra_reforged.Firmware.RingBuffer.{RingBuffer, IsFifo}
use easy_lo_ra_reforged.Firmware.FrameWaiter.{FrameWaiter, init}
use easy_lo_ra_reforged.Firmware.FrameWaiter.Receive.{pending}
use easy_lo_ra_reforged.Firmware.FrameWaiter.Streams.{All, IsDelimiterFree, to_stream}
use easy_lo_ra_reforged.Firmware.FrameWaiter.Concurrent.{
  Producer, between, refused, announcing, Consumer, consumer_turn, feed_turn, producer_turn, System,
  calls, consumes, feeds, proceeds, start, Reach, here, next,
}
use easy_lo_ra_reforged.Firmware.FrameWaiter.Concurrent.Held.{frames_of, frames_of-add_result}
use easy_lo_ra_reforged.Firmware.FrameWaiter.Concurrent.Accounts.{Accounts, consumer_turn-Accounts}

module _ (R : RingBuffer) where
  open R use {Ring, contents}

  -- The producer's turns change the ring at its end only.
  Accounts-fed :
      {w : FrameWaiter R} {c : Consumer} {frames : List (List ℕ)} {fed : List ℕ} (v : FrameWaiter R)
      (byte : ℕ)
      → (contents v.buffer ≡ contents w.buffer)
        ⊎ (contents v.buffer ≡ contents w.buffer ++ byte ∷ [])
      → pending R v ≡ pending R w
      → Accounts R w c frames fed
      → Accounts R v c frames (fed ++ byte ∷ [])
  Accounts-fed {w} {c} {frames} {fed} v byte o p a = record {
    segments = a.segments;
    begun = a.begun;
    taken = grown o;
    segments_free = a.segments_free;
    begun_free = a.begun_free;
    salvaged = a.salvaged;
    pending_ends = λ r. subst (λ l. IsSuffix l a.begun) (sym p) (a.pending_ends r);
  }
    where
      grown :
          (contents v.buffer ≡ contents w.buffer)
            ⊎ (contents v.buffer ≡ contents w.buffer ++ byte ∷ [])
          → Thinned ◌≡◌ (to_stream a.segments ++ (a.begun ++ contents v.buffer)) (fed ++ byte ∷ [])
      grown (inl e) = rw e (Thinned-drop ◌≡◌ byte a.taken)
      grown (inr e) =
          subst (λ l. Thinned ◌≡◌ l (fed ++ byte ∷ []))
            (append_assoc (to_stream a.segments) (a.begun ++ contents w.buffer) (byte ∷ [])
              ∙ ap (λ l. to_stream a.segments ++ l)
                  (append_assoc a.begun (contents w.buffer) (byte ∷ [])
                    ∙ ap (λ l. a.begun ++ l) (sym e)))
            (Thinned-keep ◌≡◌ byte byte refl a.taken)

  Accounts-kept :
      {w : FrameWaiter R} {c : Consumer} {frames : List (List ℕ)} {fed : List ℕ} (v : FrameWaiter R)
      → v.buffer ≡ w.buffer
      → pending R v ≡ pending R w
      → Accounts R w c frames fed
      → Accounts R v c frames fed
  Accounts-kept {w} {c} {frames} {fed} v e p a = record {
    segments = a.segments;
    begun = a.begun;
    taken = rw e a.taken;
    segments_free = a.segments_free;
    begun_free = a.begun_free;
    salvaged = a.salvaged;
    pending_ends = λ r. subst (λ l. IsSuffix l a.begun) (sym p) (a.pending_ends r);
  }

  producer_turn-keeps :
      (w : FrameWaiter R) (p : Producer)
      → ((producer_turn R w p).buffer ≡ w.buffer) × (pending R (producer_turn R w p) ≡ pending R w)
  unfolding producer_turn
  producer_turn-keeps w between = (refl, refl)
  producer_turn-keeps w refused = (refl, refl)
  producer_turn-keeps w announcing = ground arith

  module _ (fifo : IsFifo R) where
    feed_turn-adds :
        (w : FrameWaiter R) (byte : ℕ)
        → let v = (feed_turn R w byte).0 in
          ((contents v.buffer ≡ contents w.buffer)
            ⊎ (contents v.buffer ≡ contents w.buffer ++ byte ∷ []))
          × (pending R v ≡ pending R w)
    unfolding feed_turn
    feed_turn-adds w byte =
        ground (arith, fifo.inserted byte w.buffer, fifo.contents-insert byte w.buffer)

    Reach-Accounts :
        (ring : Ring) (size : ℕ) (callback : Bool) {s : System R}
        → contents ring ≡ []
        → Reach R (start R ring size callback) s
        → Accounts R s.waiter s.consumer (frames_of s.returned) s.fed
    unfolding init
    Reach-Accounts ring size callback empty here = record {
      segments = [];
      begun = [];
      taken = rw empty end;
      segments_free = tt;
      begun_free = tt;
      salvaged = end;
      pending_ends = λ r. ([], refl);
    }
    Reach-Accounts ring size callback empty (next {t = s} r (calls capacity e)) =
        let a = Reach-Accounts ring size callback empty r in
        record {
          segments = a.segments;
          begun = a.begun;
          taken = a.taken;
          segments_free = a.segments_free;
          begun_free = a.begun_free;
          salvaged = a.salvaged;
          pending_ends = λ i. a.pending_ends (rw e tt);
        }
    Reach-Accounts ring size callback empty (next {t = s} r (consumes e)) =
        let t = consumer_turn R s.waiter s.consumer in
        subst (λ l. Accounts R t.waiter t.consumer l s.fed)
          (sym (frames_of-add_result R s.returned t.result))
          (consumer_turn-Accounts R fifo (frames_of s.returned) s.fed s.waiter s.consumer
            (Reach-Accounts ring size callback empty r))
    Reach-Accounts ring size callback empty (next {t = s} r (feeds byte e)) =
        let (adds, same) = feed_turn-adds s.waiter byte in
        Accounts-fed (feed_turn R s.waiter byte).0 byte adds same
          (Reach-Accounts ring size callback empty r)
    Reach-Accounts ring size callback empty (next {t = s} r (proceeds e)) =
        let (buffer, same) = producer_turn-keeps s.waiter s.producer in
        Accounts-kept (producer_turn R s.waiter s.producer) buffer same
          (Reach-Accounts ring size callback empty r)

    -- However the two cores take turns: the bytes fed, less some that may be missing anywhere, delimiters
    -- too, are segments without a delimiter in them, each followed by a delimiter, and then a rest; and the
    -- frames returned with OK are ends of those segments, in their order and at most one from each. So
    -- no byte of a frame is invented, repeated or out of order. A frame need not be the end of what was
    -- fed between two delimiters, since what is missing may lie inside it.
    pub Reach-Salvaged :
        (ring : Ring) (size : ℕ) (callback : Bool) {s : System R}
        → contents ring ≡ []
        → Reach R (start R ring size callback) s
        → (segments : List (List ℕ)) × (rest : List ℕ) × Thinned ◌≡◌
            (to_stream segments ++ rest)
            s.fed
          × All IsDelimiterFree segments
          × Thinned IsSuffix (frames_of s.returned) segments
    Reach-Salvaged ring size callback {s} empty r =
        let a = Reach-Accounts ring size callback empty r in
        (a.segments, a.begun ++ contents s.waiter.buffer, a.taken, a.segments_free, a.salvaged)
