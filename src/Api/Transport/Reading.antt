-- ===== src/Api/Transport/Reading.antt =====
-- api/include/SerialTransport.hpp, `handleRead` and `startRead`: what comes in over one session in which
-- the reads succeed. `delimiter` is `Frame::Frame_Delimiter`, a constant of a header that is not in the repository.
use easy_lo_ra_reforged.Base.{
  ℕ, ◌+◌, ◌≡◌, ◌≢◌, refl, sym, ◌∙◌, false, List, [], ◌∷◌, ◌++◌, some, arith, length, ap,
  length-append, append-nil, append_assoc, take, drop, take-append, drop-append,
}
use easy_lo_ra_reforged.Api.Boost.{Boost}
use easy_lo_ra_reforged.Api.Transport.{
  Pimpl, returned, Call, frame_call, fatal_call, recuperable_call, write_call,
}
use easy_lo_ra_reforged.Api.Transport.Handlers.{handle_read}
use easy_lo_ra_reforged.Api.Transport.Counting.{count, count-append}

-- The frames that the frame handler was given, oldest first.
abbrev pub told_frames : List Call → List (List ℕ)
told_frames [] = []
told_frames (frame_call h frame ∷ calls) = frame ∷ told_frames calls
told_frames (write_call h result id ∷ calls) = told_frames calls
told_frames (fatal_call h error ∷ calls) = told_frames calls
told_frames (recuperable_call h error ∷ calls) = told_frames calls

told_frames-append : (xs ys : List Call) → told_frames (xs ++ ys) ≡ told_frames xs ++ told_frames ys
told_frames-append [] ys = refl
told_frames-append (frame_call h frame ∷ xs) ys = ap (◌∷◌ frame) (told_frames-append xs ys)
told_frames-append (write_call h result id ∷ xs) ys = told_frames-append xs ys
told_frames-append (fatal_call h error ∷ xs) ys = told_frames-append xs ys
told_frames-append (recuperable_call h error ∷ xs) ys = told_frames-append xs ys

abbrev pub join : List (List ℕ) → List ℕ
join [] = []
join (x ∷ xs) = x ++ join xs

join-append : (xs ys : List (List ℕ)) → join (xs ++ ys) ≡ join xs ++ join ys
join-append [] ys = refl
join-append (x ∷ xs) ys =
    ap (λ l. x ++ l) (join-append xs ys) ∙ sym (append_assoc x (join xs) (join ys))

module _ (B : Boost) (delimiter : ℕ) where
  open B use {ErrorCode}

  -- No byte is the delimiter.
  abbrev pub IsFree : List ℕ → Type 0
  IsFree [] = Unit {0}
  IsFree (b ∷ bs) = (b ≢ delimiter) × IsFree bs

  -- Each is bytes without the delimiter, and the delimiter.
  abbrev pub AllFrames : List (List ℕ) → Type 0
  AllFrames [] = Unit {0}
  AllFrames (f ∷ fs) = ((body : List ℕ) × (f ≡ body ++ delimiter ∷ []) × IsFree body) × AllFrames fs

  AllFrames-append : (xs ys : List (List ℕ)) → AllFrames xs → AllFrames ys → AllFrames (xs ++ ys)
  AllFrames-append [] ys a b = b
  AllFrames-append (x ∷ xs) ys a b = (a.0, AllFrames-append xs ys a.1 b)

  -- Running, and with a frame handler.
  abbrev pub IsListening : Pimpl B → ℕ → Type 0
  IsListening p h = (p.closing ≡ false) × (p.stopped ≡ false) × (p.frame_handler ≡ some h)

  -- A read completes: it was in flight for the current session and is no more, and Asio has appended what
  -- it received to the buffer.
  abbrev pub arrived : Pimpl B → List ℕ → (before after : List ℕ) → Pimpl B
  arrived p chunk before after = record p {
    rx_buffer = p.rx_buffer ++ chunk;
    reads = before ++ after;
  }

  -- Reads that succeed, one after the other; the list holds the bytes that came in. Asio reports the bytes
  -- up to the first delimiter.
  pub data Receives (p : Pimpl B) : List ℕ → Pimpl B → Type 0 where
    begun : Receives p [] p
    completed :
        {bytes : List ℕ} {q r : Pimpl B} (ec : ErrorCode) (chunk body rest before after : List ℕ)
        → Receives p bytes q
        → q.reads ≡ before ++ q.generation ∷ after
        → B.failed ec ≡ false
        → q.rx_buffer ++ chunk ≡ body ++ delimiter ∷ rest
        → IsFree body
        → handle_read B (arrived q chunk before after) ec (length body + 1) q.generation
          ≡ returned r
        → Receives p (bytes ++ chunk) r

  completed_shape :
      (p q : Pimpl B) (ec : ErrorCode) (n h : ℕ)
      → IsListening p h
      → B.failed ec ≡ false
      → handle_read B p ec n p.generation ≡ returned q
      → (q.rx_buffer ≡ drop n p.rx_buffer)
        × (q.log ≡ p.log ++ frame_call h (take n p.rx_buffer) ∷ [])
        × IsListening q h
        × (q.generation ≡ p.generation)
        × (q.reads ≡ p.generation ∷ p.reads)
  unfolding handle_read
  completed_shape p q ec n h s f e = ground arith

  first_frame :
      (body rest : List ℕ)
      → take (length body + 1) (body ++ delimiter ∷ rest) ≡ body ++ delimiter ∷ []
  first_frame body rest = rw (sym (append_assoc body (delimiter ∷ []) rest)) (
      take-append (length body + 1) (body ++ delimiter ∷ []) rest
        (omega (arith, length-append body (delimiter ∷ []))))

  behind_frame : (body rest : List ℕ) → drop (length body + 1) (body ++ delimiter ∷ rest) ≡ rest
  behind_frame body rest = rw (sym (append_assoc body (delimiter ∷ []) rest)) (
      drop-append (length body + 1) (body ++ delimiter ∷ []) rest
        (omega (arith, length-append body (delimiter ∷ []))))

  -- What the handler is told in one read, what stays, and that the next read is in flight.
  completed_frame :
      (q r : Pimpl B) (ec : ErrorCode) (h : ℕ) (chunk body rest before after : List ℕ)
      → IsListening q h
      → B.failed ec ≡ false
      → q.rx_buffer ++ chunk ≡ body ++ delimiter ∷ rest
      → handle_read B (arrived q chunk before after) ec (length body + 1) q.generation ≡ returned r
      → (r.rx_buffer ≡ rest)
        × (told_frames r.log ≡ told_frames q.log ++ (body ++ delimiter ∷ []) ∷ [])
        × IsListening r h
        × (r.generation ≡ q.generation)
        × (r.reads ≡ q.generation ∷ (before ++ after))
  completed_frame q r ec h chunk body rest before after s f e v =
      let (left, told, s', same, again) =
        completed_shape (arrived q chunk before after) r ec (length body + 1) h s f v in
      (
        left ∙ ap (drop (length body + 1)) e ∙ behind_frame body rest,
        ap told_frames told
            ∙ told_frames-append q.log _
            ∙ ap (λ l. told_frames q.log ++ l ∷ [])
                (ap (take (length body + 1)) e ∙ first_frame body rest),
        s',
        same,
        again,
      )

  Receives-IsListening :
      (p : Pimpl B) {q : Pimpl B} {bytes : List ℕ} (h : ℕ)
      → IsListening p h
      → Receives p bytes q
      → IsListening q h
  Receives-IsListening p h s begun = s
  Receives-IsListening p h s
        (completed {q = q} {r = r} ec chunk body rest before after t o f e free v) =
      (completed_frame q r ec h chunk body rest before after (Receives-IsListening p h s t) f e v).2

  -- The session goes on, and as many reads of it are in flight as at first.
  Receives-reads :
      (p : Pimpl B) {q : Pimpl B} {bytes : List ℕ} (h : ℕ)
      → IsListening p h
      → Receives p bytes q
      → (q.generation ≡ p.generation) × (count p.generation q.reads ≡ count p.generation p.reads)
  Receives-reads p h s begun = (refl, refl)
  Receives-reads p h s (completed {q = q} {r = r} ec chunk body rest before after t o f e free v) =
      let (same, reads) = Receives-reads p h s t in
      let (_, _, _, same', again) =
        completed_frame q r ec h chunk body rest before after (Receives-IsListening p h s t) f e
          v in
      let g = p.generation in
      (
        same' ∙ same,
        ap (count g) again
            ∙ omega (
              arith,
              count-append g before after,
              count-append g before (q.generation ∷ after),
              ap (count g) o,
              reads,
            ),
      )

  Receives-told :
      (p : Pimpl B) {q : Pimpl B} {bytes : List ℕ} (h : ℕ)
      → IsListening p h
      → Receives p bytes q
      → (frames : List (List ℕ)) × (told_frames q.log ≡ told_frames p.log ++ frames)
        × AllFrames frames
        × (join frames ++ q.rx_buffer ≡ p.rx_buffer ++ bytes)
  Receives-told p h s begun = ([], sym (append-nil _), tt, sym (append-nil _))
  Receives-told p h s
        (completed {bytes = bytes} {q = q} {r = r} ec chunk body rest before after t o f e free v) =
      let (frames, told, good, joined) = Receives-told p h s t in
      let (left, more, _, _, _) =
        completed_frame q r ec h chunk body rest before after (Receives-IsListening p h s t) f e
          v in
      let frame : List ℕ = body ++ delimiter ∷ [] in
      (
        frames ++ frame ∷ [],
        more
            ∙ ap (λ l. l ++ frame ∷ []) told
            ∙ append_assoc (told_frames p.log) frames (frame ∷ []),
        AllFrames-append frames (frame ∷ []) good ((body, refl, free), tt),
        ap (λ l. join (frames ++ frame ∷ []) ++ l) left
            ∙ ap (λ l. l ++ rest)
                (join-append frames (frame ∷ []) ∙ ap (λ l. join frames ++ l) (append-nil frame))
            ∙ append_assoc (join frames) frame rest
            ∙ ap (λ l. join frames ++ l) (append_assoc body (delimiter ∷ []) rest ∙ sym e)
            ∙ sym (append_assoc (join frames) q.rx_buffer chunk)
            ∙ ap (λ l. l ++ chunk) joined
            ∙ append_assoc p.rx_buffer bytes chunk,
      )

  -- In a session with a frame handler in which every read succeeds, each the completion of one that was in
  -- flight: the handler is given frames, each of which is bytes without the delimiter, then the
  -- delimiter; joined and followed by what is still in the buffer, they are what was in the buffer at
  -- first followed by all the bytes that came in since then; and as many reads of the session are in
  -- flight as at first.
  pub Receives-frames :
      (p : Pimpl B) {q : Pimpl B} {bytes : List ℕ} (h : ℕ)
      → IsListening p h
      → Receives p bytes q
      → ((frames : List (List ℕ)) × (told_frames q.log ≡ told_frames p.log ++ frames)
          × AllFrames frames
          × (join frames ++ q.rx_buffer ≡ p.rx_buffer ++ bytes))
        × (q.generation ≡ p.generation)
        × (count p.generation q.reads ≡ count p.generation p.reads)
  Receives-frames p h s r =
      let (same, reads) = Receives-reads p h s r in (Receives-told p h s r, same, reads)
