-- ===== src/Protocol/Header/Wire.antt =====
-- protocol/include/Header/Header.hpp and protocol/src/Header.cpp: the headers that the types of the fields
-- allow, and the arrays of bytes that stand for them.
use mathlib.Core.Equiv.{◌≃◌, iso_to_equiv, inv_equiv}
use mathlib.Core.HLevel.{Σ_prop_path}
use native.Mathlib.Bridge.{le_prop}
use native.Mathlib.Nat.{ℕ_set}
use easy_lo_ra_reforged.Base.{ℕ, ◌^◌, ◌<◌, ◌≡◌, refl, List, [], ◌∷◌, arith, length}
use easy_lo_ra_reforged.Protocol.Bytes.{
  bind_two_bytes, get_high_byte-lt, get_low_byte-lt, split-bind_two_bytes,
}
use easy_lo_ra_reforged.Protocol.Header.{
  Header, header_size, to_bytes, read_header, read_header-to_bytes,
}

-- `std::byte version`, `std::byte flags`, `uint16_t payloadLenght`.
abbrev pub InRange : Header → Type 0
InRange h = (h.version < 256) × (h.flags < 256) × (h.payload_lenght < 2 ^ 16)

abbrev pub AllBytes : List ℕ → Type 0
AllBytes [] = Unit
AllBytes (b ∷ bytes) = (b < 256) × AllBytes bytes

-- `std::array<std::byte, Header_Size>`.
abbrev pub IsHeaderArray : List ℕ → Type 0
IsHeaderArray bytes = (length bytes ≡ header_size) × AllBytes bytes

AllBytes-prop : (bytes : List ℕ) → IsProp (AllBytes bytes)
AllBytes-prop [] = hlevel
AllBytes-prop (b ∷ bytes) = hlevel (le_prop, AllBytes-prop bytes)

InRange-prop : (h : Header) → IsProp (InRange h)
InRange-prop h = hlevel le_prop

IsHeaderArray-prop : (bytes : List ℕ) → IsProp (IsHeaderArray bytes)
IsHeaderArray-prop bytes = hlevel (ℕ_set, AllBytes-prop bytes)

to_bytes-IsHeaderArray : (h : Header) → InRange h → IsHeaderArray (to_bytes h)
unfolding to_bytes
to_bytes-IsHeaderArray h (v, f, p) =
    (refl, (v, (f, (get_high_byte-lt h.payload_lenght, (get_low_byte-lt h.payload_lenght, tt)))))

-- An array of four bytes, byte by byte.
record Four (bytes : List ℕ) : Type 0 where
  first : ℕ
  second : ℕ
  third : ℕ
  fourth : ℕ
  eq : bytes ≡ first ∷ second ∷ third ∷ fourth ∷ []
  first-lt : first < 256
  second-lt : second < 256
  third-lt : third < 256
  fourth-lt : fourth < 256

four : (bytes : List ℕ) → IsHeaderArray bytes → Four bytes
four (a ∷ b ∷ c ∷ d ∷ []) (e, (ha, (hb, (hc, (hd, _))))) = record {
  first = a;
  second = b;
  third = c;
  fourth = d;
  eq = refl;
  first-lt = ha;
  second-lt = hb;
  third-lt = hc;
  fourth-lt = hd;
}
four [] (e, h) = ground arith
four (a ∷ []) (e, h) = ground arith
four (a ∷ b ∷ []) (e, h) = ground arith
four (a ∷ b ∷ c ∷ []) (e, h) = ground arith
four (a ∷ b ∷ c ∷ d ∷ x ∷ bytes) (e, h) = ground arith

bind_two_bytes-lt : (h l : ℕ) → bind_two_bytes h l < 2 ^ 16
unfolding bind_two_bytes
bind_two_bytes-lt h l = omega arith

read_header-InRange : (bytes : List ℕ) → IsHeaderArray bytes → InRange (read_header bytes)
unfolding read_header
read_header-InRange bytes h =
    let f = four bytes h in rw f.eq (f.first-lt, f.second-lt, bind_two_bytes-lt f.third f.fourth)

to_bytes-read_header : (bytes : List ℕ) → IsHeaderArray bytes → to_bytes (read_header bytes) ≡ bytes
unfolding read_header to_bytes
to_bytes-read_header bytes h =
    let f = four bytes h in
    let halves = split-bind_two_bytes f.third f.fourth f.third-lt f.fourth-lt in
    rw (f.eq, halves.0, halves.1) refl

-- The headers that the types of the fields allow and the arrays of `header_size` bytes are the same type up
-- to an equivalence, whose one direction is `to_bytes` and whose other is the big-endian reader: no two
-- headers have the same bytes, and every array of four bytes is the bytes of a header.
pub header_equiv :
    (e : ((h : Header) × InRange h) ≃ ((bytes : List ℕ) × IsHeaderArray bytes)) × ((h : (h : Header)
        × InRange h)
      → (e.0 h).0 ≡ to_bytes h.0)
    × ((b : (bytes : List ℕ) × IsHeaderArray bytes) → ((inv_equiv e).0 b).0 ≡ read_header b.0)
header_equiv = (
  iso_to_equiv (record {
    fun = λ h. (to_bytes h.0, to_bytes-IsHeaderArray h.0 h.1);
    inv = λ b. (read_header b.0, read_header-InRange b.0 b.1);
    rinv = λ b. Σ_prop_path IsHeaderArray-prop (to_bytes-read_header b.0 b.1);
    linv = λ h. Σ_prop_path InRange-prop (let (v, f, p) = h.1 in (read_header-to_bytes h.0 p).1);
  }),
  λ h. refl,
  λ b. refl,
)
