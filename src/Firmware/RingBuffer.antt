-- ===== src/Firmware/RingBuffer.antt =====
-- The interface of `jnk0le::Ringbuffer<uint8_t, BufferSize>` (a git submodule of the firmware): the
-- two operations that the firmware calls, with the documented behaviour of a bounded FIFO.
use easy_lo_ra_reforged.Base.{
  ℕ, ◌≡◌, refl, Bool, true, false, List, [], ◌∷◌, ◌++◌, Option, none, some, ◌⊎◌, inl, inr, length,
  ltb, if◌then◌else◌, arith,
}

pub record RingBuffer : Type 1 where
  pub Ring : Type 0
  pub capacity : ℕ
  -- The bytes held, oldest first; used to state the laws, never by the code.
  pub contents : Ring → List ℕ
  -- `bool insert(byte)`.
  pub insert : ℕ → Ring → Bool × Ring
  -- `bool remove(byte&)`: `none` is false, with the ring unchanged.
  pub remove : Ring → Option (ℕ × Ring)

-- A full ring refuses a byte and stays as it was; otherwise the byte is put last.
pub record IsFifo (R : RingBuffer) : Type 0 where
  pub inserted : (b : ℕ) (r : R.Ring) → (R.insert b r).0 ≡ ltb (length (R.contents r)) R.capacity
  pub contents-insert :
      (b : ℕ) (r : R.Ring)
      → R.contents (R.insert b r).1
        ≡ (if ltb (length (R.contents r)) R.capacity then R.contents r ++ b ∷ [] else R.contents r)
  pub removed :
      (r : R.Ring)
      → ((R.contents r ≡ []) × (R.remove r ≡ none))
        ⊎ ((b : ℕ) × (q : R.Ring) × (R.contents r ≡ b ∷ R.contents q) × (R.remove r ≡ some (b, q)))

-- A list of at most `n` bytes meets the interface.
abbrev pub list_ring : ℕ → RingBuffer
list_ring n = record {
  Ring = List ℕ;
  capacity = n;
  contents = λ r. r;
  insert = λ b r. if ltb (length r) n then (true, r ++ b ∷ []) else (false, r);
  remove = elim [ [] ↦ none | b ∷ r ↦ some (b, r) ];
}

pub list_ring-IsFifo : (n : ℕ) → IsFifo (list_ring n)
list_ring-IsFifo n = record {
  inserted = λ b r. ground arith;
  contents-insert = λ b r. ground arith;
  removed = elim [ [] ↦ inl (refl, refl) | b ∷ r ↦ inr (b, r, refl, refl) ];
}
