-- ===== src/Protocol/Errors.antt =====
-- protocol/include/ProtocolErrors/ProtocolErrors.hpp, and `std::expected` over it.
pub data ProtocolErrors : Type 0 where
  input_buffer_too_small output_buffer_too_small crc_mismatch : ProtocolErrors

-- `std::expected<A, E>`.
pub data Expected {ℓ κ} (A : Type ℓ) (E : Type κ) : Type (ℓ ⊔ κ) where
  value : A → Expected A E
  unexpected : E → Expected A E
