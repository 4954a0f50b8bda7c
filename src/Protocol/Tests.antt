-- ===== src/Protocol/Tests.antt =====
-- Runs and instances of the protocol library, with a checksum that stands in for CRC++.
use easy_lo_ra_reforged.Base.{
  ℕ, ◌+◌, ◌*◌, ◌%◌, ◌^◌, ◌≡◌, ◌<◌, refl, List, [], ◌∷◌, ◌++◌, arith, length,
}
use easy_lo_ra_reforged.Protocol.Errors.{value}
use easy_lo_ra_reforged.Protocol.Bytes.{get_high_byte, get_low_byte}
use easy_lo_ra_reforged.Protocol.Header.{Header, to_bytes}
use easy_lo_ra_reforged.Protocol.Crc.{add_crc, remove_crc}
use easy_lo_ra_reforged.Protocol.Crc.RoundTrip.{remove_crc-eq-value, remove_crc-add_crc}

abbrev checksum : List ℕ → ℕ
checksum xs = (length xs * 257 + 7) % 2 ^ 16

abbrev checksum_fits : (xs : List ℕ) → checksum xs < 2 ^ 16
checksum_fits xs = omega arith

abbrev payload : List ℕ
payload = 10 ∷ 20 ∷ 30 ∷ []

abbrev room : List ℕ
room = 0 ∷ 0 ∷ 0 ∷ 0 ∷ 0 ∷ 99 ∷ []

abbrev header : Header
header = record { version = 2; flags = 7; payload_lenght = 0x0102 }

header_bytes : to_bytes header ≡ 2 ∷ 7 ∷ 1 ∷ 2 ∷ []
unfolding to_bytes get_high_byte get_low_byte
header_bytes = refl

remove_crc-eq-value_example :
    remove_crc checksum (payload ++ 3 ∷ 10 ∷ []) room ≡ (payload ++ 0 ∷ 0 ∷ 99 ∷ [], value payload)
unfolding get_high_byte get_low_byte
remove_crc-eq-value_example =
    (remove_crc-eq-value checksum payload room payload (payload ++ 0 ∷ 0 ∷ 99 ∷ []) 3 10
        checksum_fits (omega arith) (omega arith)).1
      (refl, refl, omega arith, refl)

remove_crc-add_crc_example :
    (frame : List ℕ) × ((add_crc checksum payload room).1 ≡ value frame)
    × (remove_crc checksum frame room ≡ (payload ++ 0 ∷ 0 ∷ 99 ∷ [], value payload))
remove_crc-add_crc_example =
    remove_crc-add_crc checksum payload room room checksum_fits (omega arith) (omega arith)
      (omega arith) (omega arith)
