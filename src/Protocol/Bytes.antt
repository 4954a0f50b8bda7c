-- ===== src/Protocol/Bytes.antt =====
-- protocol/src/detail/BytesUtilities.hpp: a `uint16_t` and its two bytes, big endian.
-- A byte is a number below 256, a `uint16_t` one below 65536; each cast keeps its `%`.
use Prim.Native.Nat.{bit_or}
use easy_lo_ra_reforged.Base.{ℕ, ◌+◌, ◌*◌, ◌/◌, ◌%◌, ◌^◌, ◌<◌, ◌≡◌, arith}
use easy_lo_ra_reforged.Base.Bits.{bit_or_shift}

abbrev pub byte_shift : ℕ
byte_shift = 8

unfoldable pub get_high_byte : ℕ → ℕ
get_high_byte two_bytes = (two_bytes / 2 ^ byte_shift) % 256

unfoldable pub get_low_byte : ℕ → ℕ
get_low_byte two_bytes = two_bytes % 256

unfoldable pub bind_two_bytes : ℕ → ℕ → ℕ
bind_two_bytes high_byte low_byte = bit_or (high_byte * 2 ^ byte_shift) low_byte % 2 ^ 16

-- Each half of a word is a byte.
pub get_high_byte-lt : (w : ℕ) → get_high_byte w < 256
unfolding get_high_byte
get_high_byte-lt w = omega arith

pub get_low_byte-lt : (w : ℕ) → get_low_byte w < 256
unfolding get_low_byte
get_low_byte-lt w = omega arith

-- The bit operation on two bytes is positional arithmetic.
pub bind_two_bytes-eq : (h l : ℕ) → h < 256 → l < 256 → bind_two_bytes h l ≡ h * 256 + l
unfolding bind_two_bytes
bind_two_bytes-eq h l hh hl = omega (arith, bit_or_shift 8 h l hl)

-- Joining the two halves of any `uint16_t` gives it back.
pub bind_two_bytes-split :
    (w : ℕ) → w < 2 ^ 16 → bind_two_bytes (get_high_byte w) (get_low_byte w) ≡ w
unfolding get_high_byte get_low_byte
bind_two_bytes-split w h =
    omega (arith, bind_two_bytes-eq (get_high_byte w) (get_low_byte w) (omega arith) (omega arith))

-- Splitting a joined pair of bytes gives each of them back.
pub split-bind_two_bytes :
    (h l : ℕ)
    → h < 256
    → l < 256
    → (get_high_byte (bind_two_bytes h l) ≡ h) × (get_low_byte (bind_two_bytes h l) ≡ l)
unfolding get_high_byte get_low_byte
split-bind_two_bytes h l hh hl = omega (arith, bind_two_bytes-eq h l hh hl)
