-- ===== src/Firmware/FrameWaiter/Frames.antt =====
-- What the receiver makes of a byte stream, against its division at the delimiters.
use easy_lo_ra_reforged.Base.{
  ℕ, ◌≤◌, ◌≡◌, refl, Bool, false, List, [], ◌∷◌, ◌++◌, ◌&&◌, Option, none, some, arith, length, leb,
  ◌==◌, if◌then◌else◌, inl, inr, Option-cases, append-nil, append_assoc, length-append,
}
use easy_lo_ra_reforged.Firmware.FrameWaiter.{
  ok, buffer_too_small, incomplete_frame, overflow, packet_delimiter,
}
use easy_lo_ra_reforged.Firmware.FrameWaiter.Receive.{Received, after_delimiter, receive}

-- The bytes in front of the first delimiter, and those behind it.
abbrev pub after_byte : ℕ → Option (List ℕ × List ℕ) → Option (List ℕ × List ℕ)
after_byte b none = none
after_byte b (some (f, rest)) = some (b ∷ f, rest)

unfoldable pub next_frame : List ℕ → Option (List ℕ × List ℕ)
next_frame [] = none
next_frame (b ∷ bs) = if b == packet_delimiter then some ([], bs) else after_byte b (next_frame bs)

after_delimiter-next_frame :
    (bs : List ℕ) {f rest : List ℕ} → next_frame bs ≡ some (f, rest) → after_delimiter bs ≡ rest
unfolding next_frame after_delimiter
after_delimiter-next_frame [] e = cc
after_delimiter-next_frame (b ∷ bs) {f} {rest} e = elim (Option-cases (next_frame bs)) [
  | inl n ↦ ground (arith, n)
  | inr ((f', rest'), s) ↦ ground (arith, s, after_delimiter-next_frame bs s)
]

after_delimiter-none : (bs : List ℕ) → next_frame bs ≡ none → after_delimiter bs ≡ []
unfolding next_frame after_delimiter
after_delimiter-none [] e = refl
after_delimiter-none (b ∷ bs) e = elim (Option-cases (next_frame bs)) [
  | inl n ↦ ground (arith, n, after_delimiter-none bs n)
  | inr ((f', rest'), s) ↦ ground (arith, s)
]

module _ (size capacity : ℕ) where
  -- The outcome for a complete frame: it is handed over if it fits the pending array and the output
  -- buffer, and dropped whole otherwise; in both cases reading goes on behind its delimiter.
  abbrev pub complete : Bool → List ℕ → List ℕ → Received
  complete overflowed f rest =
      if leb (length f) size && leb (length f) capacity
      then record { status = ok; frame = f; pending = []; unread = rest; overflow = overflowed }
      else record {
        status = buffer_too_small;
        frame = [];
        pending = [];
        unread = rest;
        overflow = overflowed;
      }

  pub receive-complete :
      (overflowed : Bool) (pending bs : List ℕ) {f rest : List ℕ}
      → length pending ≤ size
      → next_frame bs ≡ some (f, rest)
      → receive size capacity overflowed pending bs ≡ complete overflowed (pending ++ f) rest
  unfolding receive next_frame
  receive-complete o p [] h e = cc
  receive-complete o p (b ∷ bs) {f} {rest} h e = elim (Option-cases (next_frame bs)) [
    | inl n ↦ ground (arith, n, append-nil p)
    | inr ((g, left), s) ↦ ground (
      arith,
      s,
      append-nil p,
      append_assoc p (b ∷ []) g,
      length-append p (b ∷ g),
      length-append p (b ∷ []),
      after_delimiter-next_frame bs s,
      receive-complete o (p ++ b ∷ []) bs {f = g} {rest = left},
    )
  ]

  -- The outcome where no delimiter has arrived: after an overflow, or where the bytes exceed the pending
  -- array, everything read is dropped; otherwise it is kept for the next call.
  abbrev pub incomplete : Bool → List ℕ → Received
  incomplete overflowed f =
      if leb (length f) size
      then if overflowed
        then record { status = overflow; frame = []; pending = []; unread = []; overflow = false }
        else record {
          status = incomplete_frame;
          frame = [];
          pending = f;
          unread = [];
          overflow = false;
        }
      else record {
        status = buffer_too_small;
        frame = [];
        pending = [];
        unread = [];
        overflow = overflowed;
      }

  pub receive-incomplete :
      (overflowed : Bool) (pending bs : List ℕ)
      → length pending ≤ size
      → next_frame bs ≡ none
      → receive size capacity overflowed pending bs ≡ incomplete overflowed (pending ++ bs)
  unfolding receive next_frame
  receive-incomplete o p [] h e = ground (arith, append-nil p)
  receive-incomplete o p (b ∷ bs) h e = elim (Option-cases (next_frame bs)) [
    | inl n ↦ ground (
      arith,
      n,
      append_assoc p (b ∷ []) bs,
      length-append p (b ∷ bs),
      length-append p (b ∷ []),
      after_delimiter-none bs n,
      receive-incomplete o (p ++ b ∷ []) bs,
    )
    | inr ((g, left), s) ↦ ground (arith, s)
  ]
