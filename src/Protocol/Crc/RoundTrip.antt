-- ===== src/Protocol/Crc/RoundTrip.antt =====
-- What `addCRC` and `removeCRC` do on every branch, and that they undo each other.
use easy_lo_ra_reforged.Base.{
  ℕ, ◌+◌, ◌-◌, ◌^◌, ◌≤◌, ◌<◌, ◌≡◌, ◌↔◌, refl, List, [], ◌∷◌, ◌++◌, arith, length, drop,
  length-append, take-append, drop-append, take_all, set-append, set-append_self, take-append_add,
  drop_two, ltb, ◌==◌, Bool-cases, inl, inr, ◌⊎◌, if◌then◌else◌, ltb→le, le→ltb,
}
use easy_lo_ra_reforged.Protocol.Errors.{
  input_buffer_too_small, output_buffer_too_small, crc_mismatch, value, unexpected,
}
use easy_lo_ra_reforged.Protocol.Bytes.{
  get_high_byte, get_low_byte, bind_two_bytes, bind_two_bytes-split, split-bind_two_bytes,
}
use easy_lo_ra_reforged.Protocol.Crc.{
  minimum_removing_output_buffer_size, append_crc, add_crc, strip_crc, remove_crc,
}

module _ (calculate : List ℕ → ℕ) where
  -- The frame that a payload is sent as.
  abbrev pub trailer : List ℕ → List ℕ
  trailer xs = get_high_byte (calculate xs) ∷ get_low_byte (calculate xs) ∷ []

  append_crc_lem :
      (input output : List ℕ)
      → length input + 2 ≤ length output
      → append_crc calculate input output ≡ (
        input ++ (trailer input ++ drop (length input + 2) output),
        value (input ++ trailer input),
      )
  unfolding append_crc
  append_crc_lem input output room = rw (
    take_all (length input) input (omega arith),
    drop_two (length input) output 0 room,
    set-append_self input _ _,
    set-append input _ 1 _,
    take-append_add input _ 2,
  )

  -- `addCRC` on every branch: it refuses an empty input and an output buffer with no room for two
  -- more bytes, in that order, leaving the buffer as it was; otherwise the buffer begins with the
  -- input and its CRC, big endian, the rest of it is untouched, and the view is that beginning.
  pub add_crc_lem :
      (input output : List ℕ)
      → length input + 2 < 2 ^ 64
      → ((length input ≡ 0)
          × (add_crc calculate input output ≡ (output, unexpected input_buffer_too_small)))
        ⊎ ((0 < length input)
            × (length output < length input + 2)
            × (add_crc calculate input output ≡ (output, unexpected output_buffer_too_small)))
        ⊎ ((0 < length input)
            × (length input + 2 ≤ length output)
            × (add_crc calculate input output ≡ (
              input ++ (trailer input ++ drop (length input + 2) output),
              value (input ++ trailer input),
            )))
  unfolding add_crc
  add_crc_lem input output small = ground (arith, append_crc_lem input output)

  strip_crc_lem :
      (p output : List ℕ) (h l : ℕ)
      → length p ≤ length output
      → strip_crc calculate (p ++ h ∷ l ∷ []) output (length p) ≡ (
          if bind_two_bytes h l == calculate p
          then (p ++ drop (length p) output, value p)
          else (output, unexpected crc_mismatch))
  unfolding strip_crc
  strip_crc_lem p output h l room =
      let len : length (p ++ h ∷ l ∷ []) - 2 ≡ length p =
        omega (arith, length-append p (h ∷ l ∷ [])) in
      rw (
        len,
        le→ltb _ _ room,
        drop-append (length p) p (h ∷ l ∷ []) refl,
        take-append (length p) p (h ∷ l ∷ []) refl,
        take-append (length p) p (drop (length p) output) refl,
      )

  minimum_removing_lem :
      (p : List ℕ) (h l : ℕ)
      → minimum_removing_output_buffer_size (length (p ++ h ∷ l ∷ [])) ≡ value (length p)
  unfolding minimum_removing_output_buffer_size
  minimum_removing_lem p h l = ground (arith, length-append p (h ∷ l ∷ []))

  -- `removeCRC` on a frame `p` with the trailing bytes `h` and `l`.
  pub remove_crc_lem :
      (p output : List ℕ) (h l : ℕ)
      → remove_crc calculate (p ++ h ∷ l ∷ []) output ≡ (
          if ltb (length output) (length p)
          then (output, unexpected output_buffer_too_small)
          else if bind_two_bytes h l == calculate p
          then (p ++ drop (length p) output, value p)
          else (output, unexpected crc_mismatch))
  unfolding remove_crc
  remove_crc_lem p output h l =
      rw (minimum_removing_lem p h l, remove_crc)
        (elim (Bool-cases (ltb (length output) (length p))) [
          | inl e ↦ rw e (unfold strip_crc in rw e)
          | inr e ↦ rw e (strip_crc_lem p output h l (ltb→le _ _ e))
        ])

  -- `removeCRC` hands back the view `q` exactly when its input is `q` followed by the CRC of `q`, big
  -- endian, and the output buffer has room for `q`. The input consists of a body and two bytes.
  pub remove_crc-eq-value :
      (p output q buffer : List ℕ) (h l : ℕ)
      → ((xs : List ℕ) → calculate xs < 2 ^ 16)
      → h < 256
      → l < 256
      → (remove_crc calculate (p ++ h ∷ l ∷ []) output ≡ (buffer, value q)) ↔ (
          (h ∷ l ∷ [] ≡ trailer q)
          × (p ≡ q)
          × (length q ≤ length output)
          × (buffer ≡ q ++ drop (length q) output))
  remove_crc-eq-value p output q buffer h l crc_fits hh hl = (
    λ e. ground (arith, remove_crc_lem p output h l, split-bind_two_bytes h l hh hl),
    λ e.
        ground
          (arith, remove_crc_lem p output h l, bind_two_bytes-split (calculate p) (crc_fits p)),
  )

  -- What `addCRC` hands back, `removeCRC` accepts, and gives the original bytes again.
  pub remove_crc-add_crc :
      (input output output' : List ℕ)
      → ((xs : List ℕ) → calculate xs < 2 ^ 16)
      → 0 < length input
      → length input + 2 < 2 ^ 64
      → length input + 2 ≤ length output
      → length input ≤ length output'
      → (frame : List ℕ) × ((add_crc calculate input output).1 ≡ value frame)
        × (remove_crc calculate frame output' ≡ (input ++ drop (length input) output', value input))
  remove_crc-add_crc input output output' crc_fits some_input small room room' = (
    input ++ trailer input,
    ground (arith, add_crc_lem input output small),
    ground (
      arith,
      remove_crc_lem input output' (get_high_byte (calculate input))
          (get_low_byte (calculate input)),
      bind_two_bytes-split (calculate input) (crc_fits input),
    ),
  )
