-- ===== src/Api/Types.antt =====
-- api/include/SerialTransportTypes.hpp: the results, the errors and the buffer limits.
use easy_lo_ra_reforged.Base.{ℕ}

pub data WriteStatus : Type 0 where
  scheduled closed queue_full message_too_long : WriteStatus

pub data WriteResult : Type 0 where
  written failed cancelled : WriteResult

pub data FatalErrors : Type 0 where
  unplugged_device permission_denied externally_closed_port : FatalErrors

pub data RecoverableErrors : Type 0 where
  rx_buffer_full : RecoverableErrors

-- The three option types are Boost's enumerations.
pub record SerialConfig (FlowControl Parity StopBits : Type 0) : Type 0 where
  pub baud_rate : ℕ  -- uint32_t
  pub flow_control : FlowControl
  pub parity_byte : Parity
  pub stop_bits : StopBits
  pub character_size : ℕ  -- uint32_t

-- The fields are `size_t`.
pub record BufferConfig : Type 0 where
  pub rx_buffer_max_size : ℕ
  pub tx_max_elements_in_queue : ℕ
  pub tx_max_size_per_element : ℕ

-- `Default_Buffer_Config` of SerialTransport.hpp.
abbrev pub default_buffer_config : BufferConfig
default_buffer_config = record {
  rx_buffer_max_size = 1024;
  tx_max_elements_in_queue = 10;
  tx_max_size_per_element = 512;
}
