-- ===== src/Api/Boost.antt =====
-- What the transport takes from Boost.Asio and from its template parameter `Stream`: error codes with
-- the comparisons that the source makes, the enumerations of the port's options, and the operations of
-- a port. An operation that can throw returns false where it does.
use Prim.Native.String.{String}
use easy_lo_ra_reforged.Base.{ℕ, Bool, true, false, ◌≡◌}

pub record Boost : Type 1 where
  pub ErrorCode : Type 0
  -- The explicit conversion to bool.
  pub failed : ErrorCode → Bool
  pub is_not_found : ErrorCode → Bool
  pub is_eof : ErrorCode → Bool
  pub is_bad_file_descriptor : ErrorCode → Bool
  pub is_bad_descriptor : ErrorCode → Bool
  pub is_no_such_device : ErrorCode → Bool
  pub is_permission_denied : ErrorCode → Bool
  pub FlowControl : Type 0
  pub Parity : Type 0
  pub StopBits : Type 0
  pub flow_control_none : FlowControl
  pub parity_none : Parity
  pub stop_bits_one : StopBits
  pub Stream : Type 0
  pub open_port : String → Stream → Bool × Stream
  pub set_baud_rate : ℕ → Stream → Bool × Stream
  pub set_character_size : ℕ → Stream → Bool × Stream
  pub set_parity : Parity → Stream → Bool × Stream
  pub set_stop_bits : StopBits → Stream → Bool × Stream
  pub set_flow_control : FlowControl → Stream → Bool × Stream
  pub cancel : Stream → Stream
  pub close : Stream → Stream

-- What `basic_serial_port` documents of its `is_open`: a port that is open cannot be opened again, and is
-- left as it is then; opening and closing do what they say, also with an error; an option does not open
-- or close a port.
pub record PortLaws (B : Boost) : Type 0 where
  pub is_open : B.Stream → Bool
  pub opened :
      (path : String) (s : B.Stream)
      → (B.open_port path s).0 ≡ true
      → is_open (B.open_port path s).1 ≡ true
  pub already_open :
      (path : String) (s : B.Stream) → is_open s ≡ true → B.open_port path s ≡ (false, s)
  pub baud_rate : (rate : ℕ) (s : B.Stream) → is_open (B.set_baud_rate rate s).1 ≡ is_open s
  pub character_size :
      (size : ℕ) (s : B.Stream) → is_open (B.set_character_size size s).1 ≡ is_open s
  pub parity : (p : B.Parity) (s : B.Stream) → is_open (B.set_parity p s).1 ≡ is_open s
  pub stop_bits : (b : B.StopBits) (s : B.Stream) → is_open (B.set_stop_bits b s).1 ≡ is_open s
  pub flow_control :
      (f : B.FlowControl) (s : B.Stream) → is_open (B.set_flow_control f s).1 ≡ is_open s
  pub closed : (s : B.Stream) → is_open (B.close s) ≡ false
