-- ===== src/Protocol/Header.antt =====
-- protocol/include/Header/Header.hpp, protocol/include/Constants/Constants.hpp and
-- protocol/src/Header.cpp: the four bytes in front of each packet.
pub mod Wire
use easy_lo_ra_reforged.Base.{
  ℕ, ◌+◌, ◌^◌, ◌<◌, ◌≡◌, refl, List, arith, replicate, set, length, get_or,
}
use easy_lo_ra_reforged.Protocol.Bytes.{
  get_high_byte, get_low_byte, bind_two_bytes, bind_two_bytes-split,
}

abbrev pub current_protocol_version : ℕ
current_protocol_version = 2

abbrev pub max_payload_lenght : ℕ
max_payload_lenght = 512

pub record Header : Type 0 where
  pub version : ℕ  -- std::byte
  pub flags : ℕ  -- std::byte
  pub payload_lenght : ℕ  -- uint16_t

-- `sizeof(version) + sizeof(flags) + sizeof(payloadLenght)`
abbrev pub header_size : ℕ
header_size = 1 + 1 + 2

pub data HeaderIndex : Type 0 where
  version flags payload_lenght_high payload_lenght_low : HeaderIndex

-- `std::to_underlying`
abbrev pub to_underlying : HeaderIndex → ℕ
to_underlying HeaderIndex.version = 0
to_underlying HeaderIndex.flags = 1
to_underlying HeaderIndex.payload_lenght_high = 2
to_underlying HeaderIndex.payload_lenght_low = 3

unfoldable pub to_bytes : Header → List ℕ
to_bytes h =
    let b0 = replicate {A = ℕ} header_size 0 in
    let b1 = set b0 (to_underlying HeaderIndex.version) h.version in
    let b2 = set b1 (to_underlying HeaderIndex.flags) h.flags in
    let b3 =
      set b2 (to_underlying HeaderIndex.payload_lenght_high) (get_high_byte h.payload_lenght) in
    set b3 (to_underlying HeaderIndex.payload_lenght_low) (get_low_byte h.payload_lenght)

-- A reader of the wire format: the fields at their documented places, big endian.
pub read_header : List ℕ → Header
read_header bytes = record {
  version = get_or bytes 0 0;
  flags = get_or bytes 1 0;
  payload_lenght = bind_two_bytes (get_or bytes 2 0) (get_or bytes 3 0);
}

-- For a header whose length field is a `uint16_t`, `to_bytes` gives exactly `header_size` bytes,
-- from which the big-endian reader recovers every field.
pub read_header-to_bytes :
    (h : Header)
    → h.payload_lenght < 2 ^ 16
    → (length (to_bytes h) ≡ header_size) × (read_header (to_bytes h) ≡ h)
unfolding read_header to_bytes
read_header-to_bytes h fits = (refl, ground (arith, bind_two_bytes-split h.payload_lenght fits))
