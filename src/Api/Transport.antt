-- ===== src/Api/Transport.antt =====
-- api/include/SerialTransport.hpp: `BasicSerialTransport<Stream>::Pimpl`. Its members are the fields of
-- `Pimpl`; three more record what it does to the outside: the generations of the asynchronous reads
-- and writes that Asio has in flight, and a log of the calls of user handlers, oldest first. A handler
-- is a number that names the user's function, `none` is nullptr. `size_t` arithmetic wraps.
pub mod Handlers
pub mod Strand
pub mod Lifecycle
pub mod Port
pub mod Lending
pub mod Counting
pub mod Exclusion
pub mod Sessions
pub mod Backpressure
pub mod Traffic
pub mod Reports
pub mod AtMostOnce
pub mod Accounting
pub mod Lossless
pub mod Arrivals
pub mod Progress
pub mod Reading
pub mod Dispatch
pub mod Tests
mod SessionTests
mod HistoryTests
use Prim.Native.String.{String}
use easy_lo_ra_reforged.Base.{
  ℕ, zero, suc, ◌+◌, ◌-◌, ◌%◌, ◌^◌, ◌≡◌, Bool, true, false, not, ◌&&◌, ◌||◌, List, [], ◌∷◌, ◌++◌,
  Option, none, some, length, take, drop, ltb, leb, ◌==◌, if◌then◌else◌,
}
use easy_lo_ra_reforged.Api.Types.{
  WriteStatus, scheduled, closed, queue_full, message_too_long, WriteResult, written, failed,
  cancelled, FatalErrors, unplugged_device, permission_denied, externally_closed_port,
  RecoverableErrors, rx_buffer_full, SerialConfig, BufferConfig, default_buffer_config,
}
use easy_lo_ra_reforged.Api.Boost.{Boost}

-- `State`.
pub data State : Type 0 where
  open_state opening_state closed_state closing_state faulted_state : State

-- A call of a user handler.
pub data Call : Type 0 where
  frame_call : ℕ → List ℕ → Call
  fatal_call : ℕ → FatalErrors → Call
  recuperable_call : ℕ → RecoverableErrors → Call
  write_call : ℕ → WriteResult → ℕ → Call

-- How a function ends: it returns, an exception leaves it, `std::terminate` ends the process, or it
-- does what C++ leaves undefined.
pub data Outcome {ℓ} (A : Type ℓ) : Type ℓ where
  returned : A → Outcome A
  thrown : A → Outcome A
  terminated : Outcome A
  undefined : Outcome A

-- What follows runs only if nothing was thrown.
infixl 5 ◌>>=◌
abbrev pub ◌>>=◌ {ℓ} : {A : Type ℓ} → Outcome A → (A → Outcome A) → Outcome A
returned a >>= f = f a
thrown a >>= f = thrown a
terminated >>= f = terminated
undefined >>= f = undefined

-- `++x`, `fetch_add(1)` and `fetch_sub(1)` on `size_t`.
abbrev pub increment : ℕ → ℕ
increment n = (n + 1) % 2 ^ 64

abbrev pub decrement : ℕ → ℕ
decrement n = (n + 2 ^ 64 - 1) % 2 ^ 64

abbrev pub is_open_state : State → Bool
is_open_state open_state = true
is_open_state _ = false

abbrev pub is_empty : List (List ℕ × ℕ) → Bool
is_empty [] = true
is_empty (_ ∷ _) = false

module _ (B : Boost) where
  open B use {
    ErrorCode, is_not_found, is_eof, is_bad_file_descriptor, is_bad_descriptor, is_no_such_device,
    is_permission_denied, FlowControl, Parity, StopBits, Stream,
  }

  -- `Default_Serial_Config`: 9600 8N1.
  abbrev pub default_serial_config : SerialConfig FlowControl Parity StopBits
  default_serial_config = record {
    baud_rate = 9600;
    flow_control = B.flow_control_none;
    parity_byte = B.parity_none;
    stop_bits = B.stop_bits_one;
    character_size = 8;
  }

  pub record Pimpl : Type 0 where
    pub serial : Stream
    pub buffer_config : BufferConfig
    pub rx_buffer : List ℕ
    pub tx_deque : List (List ℕ × ℕ)
    pub frame_handler : Option ℕ
    pub fatal_error_handler : Option ℕ
    pub recuperable_error_handler : Option ℕ
    pub write_handler : Option ℕ
    pub closing : Bool
    pub stopped : Bool
    pub generation : ℕ
    pub pending_writes : ℕ
    pub current_state : State
    pub reads : List ℕ
    pub writes : List ℕ
    pub log : List Call

  -- The constructor.
  unfoldable pub init : Stream → Pimpl
  init stream = record {
    serial = stream;
    buffer_config = default_buffer_config;
    rx_buffer = [];
    tx_deque = [];
    frame_handler = none;
    fatal_error_handler = none;
    recuperable_error_handler = none;
    write_handler = none;
    closing = false;
    stopped = true;
    generation = 0;
    pending_writes = 0;
    current_state = closed_state;
    reads = [];
    writes = [];
    log = [];
  }

  -- `closing.load() || stopped.load()`.
  abbrev pub inactive : Pimpl → Bool
  inactive p = p.closing || p.stopped

  unfoldable pub is_open : Pimpl → Bool
  is_open p = is_open_state p.current_state

  -- A handler is called if it is not nullptr.
  abbrev pub notify : Pimpl → Option ℕ → (ℕ → Call) → Pimpl
  notify p none c = p
  notify p (some h) c = record p { log = p.log ++ c h ∷ [] }

  -- The four setters.
  unfoldable pub set_frame_handler : Pimpl → Option ℕ → Pimpl
  set_frame_handler p handler = if p.closing then p else record p { frame_handler = handler }

  unfoldable pub set_fatal_error_handler : Pimpl → Option ℕ → Pimpl
  set_fatal_error_handler p handler =
      if p.closing then p else record p { fatal_error_handler = handler }

  unfoldable pub set_recuperable_error_handler : Pimpl → Option ℕ → Pimpl
  set_recuperable_error_handler p handler =
      if p.closing then p else record p { recuperable_error_handler = handler }

  unfoldable pub set_write_handler : Pimpl → Option ℕ → Pimpl
  set_write_handler p handler = if p.closing then p else record p { write_handler = handler }

  -- `async_read_until` is started for the current generation.
  unfoldable pub start_read : Pimpl → Pimpl
  start_read p = if inactive p then p else record p { reads = p.generation ∷ p.reads }

  -- `async_write` of the front of the deque is started for the current generation.
  unfoldable pub do_write : Pimpl → Pimpl
  do_write p =
      if inactive p || is_empty p.tx_deque then p else record p { writes = p.generation ∷ p.writes }

  -- The calls in the `try` block of `open`, each made only if none before it threw.
  abbrev pub attempt : Bool × Stream → (Stream → Bool × Stream) → Bool × Stream
  attempt (false, s) f = (false, s)
  attempt (true, s) f = f s

  unfoldable pub configure :
      Stream → String → SerialConfig FlowControl Parity StopBits → Bool × Stream
  configure s path c =
      attempt
        (attempt
          (attempt
            (attempt (attempt (B.open_port path s) (B.set_baud_rate c.baud_rate))
              (B.set_character_size c.character_size))
            (B.set_parity c.parity_byte))
          (B.set_stop_bits c.stop_bits))
        (B.set_flow_control c.flow_control)

  -- `open` up to its `try` block.
  reset : Pimpl → BufferConfig → Pimpl
  reset p new_buffer_config = record p {
    generation = increment p.generation;
    stopped = true;
    current_state = opening_state;
    rx_buffer = [];
    tx_deque = [];
    pending_writes = 0;
    buffer_config = new_buffer_config;
  }

  -- `open`; `thrown` is the rethrown exception of the stream.
  unfoldable pub open_port :
      Pimpl → String → SerialConfig FlowControl Parity StopBits → BufferConfig → Outcome Pimpl
  unfolding reset start_read
  open_port p path serial_config new_buffer_config =
      if p.closing
      then returned p
      else let q = reset p new_buffer_config in
        let (done, stream) = configure q.serial path serial_config in
        if done
        then returned
            (start_read (record q { serial = stream; stopped = false; current_state = open_state }))
        else thrown (record q { serial = stream; current_state = faulted_state })

  -- `stopAfterIoError`.
  unfoldable pub stop_after_io_error : Pimpl → Pimpl
  stop_after_io_error p = record p {
    stopped = true;
    current_state = faulted_state;
    generation = increment p.generation;
    rx_buffer = [];
    tx_deque = [];
    serial = B.close (B.cancel p.serial);
  }

  -- `closeOnStrand`, which `close` calls too; the state is `Closing` in between, and `Closed` at the end.
  unfoldable pub close_on_strand : Pimpl → Pimpl
  close_on_strand p =
      if p.closing
      then p
      else let q = record p {
        closing = true;
        stopped = true;
        current_state = closing_state;
        generation = increment p.generation;
        rx_buffer = [];
        tx_deque = [];
      } in
        record q { serial = B.close (B.cancel q.serial); current_state = closed_state }
