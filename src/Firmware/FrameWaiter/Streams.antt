-- ===== src/Firmware/FrameWaiter/Streams.antt =====
-- Frames as the bytes on a line, each with its delimiter behind it.
use easy_lo_ra_reforged.Base.{
  suc, if◌then◌else◌, ◌==◌, ℕ, ◌≡◌, refl, List, [], ◌∷◌, ◌++◌, none, some, arith, ◌≢◌,
}
use easy_lo_ra_reforged.Firmware.FrameWaiter.{packet_delimiter}
use easy_lo_ra_reforged.Firmware.FrameWaiter.Frames.{next_frame}

-- The bytes that stand for a sequence of frames.
abbrev pub to_stream : List (List ℕ) → List ℕ
to_stream [] = []
to_stream (f ∷ fs) = f ++ packet_delimiter ∷ to_stream fs

abbrev pub All {ℓ κ} : {A : Type ℓ} → (A → Type κ) → List A → Type κ
All P [] = Unit
All P (x ∷ xs) = P x × All P xs

-- Without the delimiter, as COBS leaves a frame.
abbrev pub IsDelimiterFree : List ℕ → Type 0
IsDelimiterFree = All (λ b. b ≢ packet_delimiter)

pub next_frame-append :
    (f rest : List ℕ)
    → IsDelimiterFree f
    → next_frame (f ++ packet_delimiter ∷ rest) ≡ some (f, rest)
unfolding next_frame
next_frame-append [] rest h = refl
next_frame-append (b ∷ f) rest h = ground (arith, next_frame-append f rest h.1)

pub next_frame-none : (f : List ℕ) → IsDelimiterFree f → next_frame f ≡ none
unfolding next_frame
next_frame-none [] h = refl
next_frame-none (b ∷ f) h = ground (arith, next_frame-none f h.1)

pub IsDelimiterFree-append :
    (f g : List ℕ) → IsDelimiterFree f → IsDelimiterFree g → IsDelimiterFree (f ++ g)
IsDelimiterFree-append [] g hf hg = hg
IsDelimiterFree-append (b ∷ f) g hf hg = (hf.0, IsDelimiterFree-append f g hf.1 hg)

-- How many delimiters there are.
unfoldable pub delimiters : List ℕ → ℕ
delimiters [] = 0
delimiters (b ∷ bs) = if b == packet_delimiter then suc (delimiters bs) else delimiters bs

pub IsDelimiterFree-right : (p c : List ℕ) → IsDelimiterFree (p ++ c) → IsDelimiterFree c
IsDelimiterFree-right [] c h = h
IsDelimiterFree-right (b ∷ p) c h = IsDelimiterFree-right p c h.1

-- A frame that has begun goes on behind the cut.
pub cut_behind :
    (p c f rest : List ℕ)
    → IsDelimiterFree p
    → p ++ c ≡ f ++ packet_delimiter ∷ rest
    → (g : List ℕ) × (f ≡ p ++ g) × (c ≡ g ++ packet_delimiter ∷ rest)
cut_behind [] c f rest h e = (f, refl, e)
cut_behind (b ∷ p) c [] rest h e = absurd (h.0 (cc))
cut_behind (b ∷ p) c (x ∷ f) rest h e =
    let (g, whole, more) = cut_behind p c f rest h.1 (cc) in (g, cc, more)
