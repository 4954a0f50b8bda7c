-- ===== src/Protocol/Crc.antt =====
-- protocol/src/detail/CrcCalculator.cpp and .hpp. `CRC::Calculate(data, size,
-- CRC::CRC_16_CCITTFALSE())` is the CRC++ library's: the parameter `calculate`.
-- An output span is the list of its bytes: an operation returns what the caller's buffer holds
-- afterwards, and the bytes of the view that it hands back. Sizes are `size_t`.
pub mod RoundTrip
use easy_lo_ra_reforged.Base.{
  ℕ, ◌+◌, ◌-◌, ◌%◌, ◌^◌, List, [], ◌∷◌, ◌++◌, length, take, drop, get_or, set, ltb, ◌==◌,
  if◌then◌else◌,
}
use easy_lo_ra_reforged.Protocol.Errors.{
  ProtocolErrors, input_buffer_too_small, output_buffer_too_small, crc_mismatch, Expected, value,
  unexpected,
}
use easy_lo_ra_reforged.Protocol.Bytes.{get_high_byte, get_low_byte, bind_two_bytes}

abbrev pub crc_lenght : ℕ
crc_lenght = 2

-- `std::memcpy(out, in, n)` for `n` within both buffers.
abbrev pub memcpy : List ℕ → List ℕ → ℕ → List ℕ
memcpy out in' n = take n in' ++ drop n out

unfoldable pub minimum_adding_output_buffer_size : ℕ → ℕ
minimum_adding_output_buffer_size input_buffer_size = (input_buffer_size + crc_lenght) % 2 ^ 64

unfoldable pub minimum_removing_output_buffer_size : ℕ → Expected ℕ ProtocolErrors
minimum_removing_output_buffer_size input_buffer_size =
    if ltb input_buffer_size crc_lenght
    then unexpected input_buffer_too_small
    else value (input_buffer_size - crc_lenght)

abbrev pub Outcome : Type 0
Outcome = List ℕ × Expected (List ℕ) ProtocolErrors

module _ (calculate : List ℕ → ℕ) where
  -- The body of `addCRC` after its two guards.
  append_crc : List ℕ → List ℕ → Outcome
  append_crc input output =
      let copied = memcpy output input (length input) in
      let last_byte = length input in
      let crc = calculate input in
      let high = set copied last_byte (get_high_byte crc) in
      let low = set high (last_byte + 1) (get_low_byte crc) in
      (low, value (take (last_byte + 2) low))

  pub add_crc : List ℕ → List ℕ → Outcome
  unfolding append_crc minimum_adding_output_buffer_size
  add_crc input output =
      if length input == 0
      then (output, unexpected input_buffer_too_small)
      else if ltb (length output) (minimum_adding_output_buffer_size (length input))
      then (output, unexpected output_buffer_too_small)
      else append_crc input output

  -- The body of `removeCRC` once its minimum output size is known.
  strip_crc : List ℕ → List ℕ → ℕ → Outcome
  strip_crc input output minimum_output_size =
      if ltb (length output) minimum_output_size
      then (output, unexpected output_buffer_too_small)
      else let crc_bytes = drop (length input - crc_lenght) input in
        let actual_crc = bind_two_bytes (get_or crc_bytes 0 0) (get_or crc_bytes 1 0) in
        let expected_crc = calculate (take minimum_output_size input) in
        if actual_crc == expected_crc
        then (let copied = memcpy output input minimum_output_size in
            (copied, value (take minimum_output_size copied)))
        else (output, unexpected crc_mismatch)

  pub remove_crc : List ℕ → List ℕ → Outcome
  remove_crc input output = elim (minimum_removing_output_buffer_size (length input)) [
    | unexpected e ↦ (output, unexpected e)
    | value minimum_output_size ↦ strip_crc input output minimum_output_size
  ]
