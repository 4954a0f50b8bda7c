-- ===== src/Firmware/Core0.antt =====
-- firmware/lib/Core_0/Core_0.cpp: core 0, which serves the UARTs. `main` only waits for events. Handlers
-- are named by numbers; `uart_0_irq_handler_name` names `UART_0_IRQ_Handler`.
pub mod Startup
pub mod Interrupt
pub mod Tests
use easy_lo_ra_reforged.Base.{
  ℕ, zero, suc, ◌%◌, ◌^◌, Bool, true, false, Option, none, some, if◌then◌else◌,
}
use easy_lo_ra_reforged.Protocol.Errors.{Expected, value, unexpected}
use easy_lo_ra_reforged.Firmware.RingBuffer.{RingBuffer}
use easy_lo_ra_reforged.Firmware.FrameWaiter.{FrameWaiter, feed}
use easy_lo_ra_reforged.Firmware.Pins.{Chip}
use easy_lo_ra_reforged.Firmware.Sdk.{Sdk}
use easy_lo_ra_reforged.Firmware.Uart.{
  UartErrors, UartWrapper, init, set_handler_for_irq, enable_rx_irq, read, is_readable,
}

-- A function returns, or a failed assertion ends the program.
pub data Run {ℓ} (A : Type ℓ) : Type ℓ where
  finished : A → Run A
  aborted : Run A

infixl 5 ◌>>=◌
abbrev pub ◌>>=◌ {ℓ} : {A : Type ℓ} → Run A → (A → Run A) → Run A
finished a >>= f = f a
aborted >>= f = aborted

-- `std::expected::has_value`.
abbrev pub has_value {ℓ κ} : {A : Type ℓ} {E : Type κ} → Expected A E → Bool
has_value (value a) = true
has_value (unexpected e) = false

-- `assert(expression)`: with NDEBUG the expression is not evaluated.
unfoldable pub assert {ℓ} : {A : Type ℓ} → Bool → (A → Bool × A) → A → Run A
assert ndebug expression a =
    if ndebug
    then finished a
    else let (holds, b) = expression a in if holds then finished b else aborted

abbrev pub uart_0_irq_handler_name : ℕ
uart_0_irq_handler_name = 0

module _ (S : Sdk) where
  open S use {Hardware}

  -- `UART_0_Wrapper` and `UART_1_Wrapper` of Instances.hpp, and the chip.
  pub record Board : Type 0 where
    pub uart_0_wrapper : UartWrapper
    pub uart_1_wrapper : UartWrapper
    pub hardware : Hardware

  module _ (chip : Chip) (default_baud_rate : ℕ) (ndebug : Bool) where
    -- The two initialisations in `init`; a pin is a `uint` that is passed as a `uint8_t`.
    unfoldable pub init_uart_0 : ℕ → ℕ → Board → Bool × Board
    init_uart_0 rx_pin tx_pin b =
        let (r, h) =
          init S chip b.uart_0_wrapper default_baud_rate (rx_pin % 2 ^ 8) (tx_pin % 2 ^ 8)
            b.hardware in
        (has_value r, record b { hardware = h })

    unfoldable pub init_uart_1 : ℕ → ℕ → Board → Bool × Board
    init_uart_1 rx_pin tx_pin b =
        let (r, h) =
          init S chip b.uart_1_wrapper default_baud_rate (rx_pin % 2 ^ 8) (tx_pin % 2 ^ 8)
            b.hardware in
        (has_value r, record b { hardware = h })

    unfoldable pub enable_uart_0_rx_irq : Board → Bool × Board
    enable_uart_0_rx_irq b =
        let (r, (w, h)) = enable_rx_irq S b.uart_0_wrapper true b.hardware in
        (has_value r, record b { uart_0_wrapper = w; hardware = h })

    -- `initialize_UART_0_IRQ`.
    unfoldable pub initialize_uart_0_irq : Board → Run Board
    initialize_uart_0_irq b = assert ndebug enable_uart_0_rx_irq (record b {
      hardware = set_handler_for_irq S b.uart_0_wrapper (some uart_0_irq_handler_name) b.hardware;
    })

    -- `init`, with the parameters in the order of the source.
    unfoldable pub init_core : ℕ → ℕ → ℕ → ℕ → Board → Run Board
    init_core uart_0_rx_pin uart_0_tx_pin uart_1_tx_pin uart_1_rx_pin b =
        assert ndebug (init_uart_0 uart_0_rx_pin uart_0_tx_pin) b
        >>= assert ndebug (init_uart_1 uart_1_rx_pin uart_1_tx_pin)
        >>= initialize_uart_0_irq

  module _ (R : RingBuffer) where
    -- `UART_0_IRQ_Handler`, on fuel; `none` means that the fuel ran out.
    unfoldable pub uart_0_irq_handler :
        ℕ → UartWrapper → Hardware → FrameWaiter R → Option (Hardware × FrameWaiter R)
    uart_0_irq_handler zero w h waiter = none
    uart_0_irq_handler (suc fuel) w h waiter =
        let (byte, h') = read S w h in
        let rest = uart_0_irq_handler fuel w h' (feed R waiter byte) in
        if is_readable S w h then rest else some (h, waiter)
