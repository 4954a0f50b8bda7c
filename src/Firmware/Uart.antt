-- ===== src/Firmware/Uart.antt =====
-- firmware/lib/UARTWrapper/UARTWrapper.cpp and .hpp. A method takes and returns the state of the chip.
-- The constructor asserts that its pointer is not null; a wrapper here has a UART.
pub mod Interrupts
mod Tests
use easy_lo_ra_reforged.Base.{
  ℕ, ◌%◌, ◌^◌, Bool, true, false, not, ◌&&◌, ◌||◌, Option, none, some, ◌==◌, if◌then◌else◌,
}
use easy_lo_ra_reforged.Protocol.Errors.{Expected, value, unexpected}
use easy_lo_ra_reforged.Firmware.Pins.{Chip, is_valid_uart_rx, is_valid_uart_tx}
use easy_lo_ra_reforged.Firmware.Sdk.{Sdk}

pub data UartErrors : Type 0 where
  uart_not_initializated baud_rate_dont_supported irq_handler_not_setted : UartErrors
  gpio_not_support_uart_rx gpio_not_support_uart_tx : UartErrors

-- `uart_m`, `RxIRQEnabled` and `TxIRQEnabled`.
pub record UartWrapper : Type 0 where
  pub uart : ℕ
  pub rx_irq_enabled : Bool
  pub tx_irq_enabled : Bool

-- The constructor.
abbrev pub make_wrapper : ℕ → UartWrapper
make_wrapper uart = record { uart = uart; rx_irq_enabled = false; tx_irq_enabled = false }

-- The flag that `enableIRQ` takes by reference.
pub data Flag : Type 0 where
  rx_flag tx_flag : Flag

abbrev pub set_flag : UartWrapper → Flag → Bool → UartWrapper
set_flag w rx_flag enable = record w { rx_irq_enabled = enable }
set_flag w tx_flag enable = record w { tx_irq_enabled = enable }

abbrev pub is_some : Option ℕ → Bool
is_some none = false
is_some (some f) = true

module _ (S : Sdk) where
  open S use {Hardware}

  unfoldable pub is_initializated : UartWrapper → Hardware → Bool
  is_initializated w h = S.uart_is_enabled w.uart h

  -- `init`; `return {}` is the value 0.
  unfoldable pub init : Chip → UartWrapper → ℕ → ℕ → ℕ → Hardware → Expected ℕ UartErrors × Hardware
  unfolding is_initializated
  init chip w baudrate rx_pin tx_pin h =
      let (setted_baudrate, h') = S.uart_init w.uart baudrate h in
      if setted_baudrate == 0
      then (unexpected baud_rate_dont_supported, h')
      else if not (is_initializated w h')
      then (unexpected uart_not_initializated, h')
      else if not (is_valid_uart_rx chip w.uart rx_pin)
      then (unexpected gpio_not_support_uart_rx, h')
      else if not (is_valid_uart_tx chip w.uart tx_pin)
      then (unexpected gpio_not_support_uart_tx, h')
      else (value 0, S.gpio_set_function_uart tx_pin (S.gpio_set_function_uart rx_pin h'))

  unfoldable pub set_handler_for_irq : UartWrapper → Option ℕ → Hardware → Hardware
  set_handler_for_irq w function h = S.irq_set_exclusive_handler (S.uart_irq_num w.uart) function h

  unfoldable pub is_irq_handler_setted : UartWrapper → Hardware → Bool
  is_irq_handler_setted w h = is_some (S.irq_get_exclusive_handler (S.uart_irq_num w.uart) h)

  unfoldable pub enable_irq :
      UartWrapper
      → Flag
      → Bool
      → Hardware
      → Expected (Unit {0}) UartErrors × (UartWrapper × Hardware)
  unfolding is_irq_handler_setted
  enable_irq w irq_to_enable enable h =
      if enable && not (is_irq_handler_setted w h)
      then (unexpected irq_handler_not_setted, (w, h))
      else let w' = set_flag w irq_to_enable enable in
        let either = w'.rx_irq_enabled || w'.tx_irq_enabled in
        let h' = S.irq_set_enabled (S.uart_irq_num w'.uart) either h in
        (value tt, (w', S.uart_set_irqs_enabled w'.uart w'.rx_irq_enabled w'.tx_irq_enabled h'))

  unfoldable pub enable_rx_irq :
      UartWrapper → Bool → Hardware → Expected (Unit {0}) UartErrors × (UartWrapper × Hardware)
  enable_rx_irq w enable h = enable_irq w rx_flag enable h

  unfoldable pub enable_tx_irq :
      UartWrapper → Bool → Hardware → Expected (Unit {0}) UartErrors × (UartWrapper × Hardware)
  enable_tx_irq w enable h = enable_irq w tx_flag enable h

  -- `read` and `write`; the cast to uint8_t is `% 2 ^ 8`.
  unfoldable pub read : UartWrapper → Hardware → ℕ × Hardware
  read w h = let (c, h') = S.uart_getc w.uart h in (c % 2 ^ 8, h')

  unfoldable pub write : UartWrapper → ℕ → Hardware → Hardware
  write w byte h = S.uart_putc_raw w.uart byte h

  unfoldable pub is_readable : UartWrapper → Hardware → Bool
  is_readable w h = S.uart_is_readable w.uart h
