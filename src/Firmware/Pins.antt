-- ===== src/Firmware/Pins.antt =====
-- firmware/include/ValidPins.hpp: which pins can serve which UART. The preprocessor's choice of a chip is
-- an argument.
pub mod Roles
use easy_lo_ra_reforged.Base.{
  ℕ, zero, suc, Bool, true, false, ◌&&◌, ◌||◌, List, [], ◌∷◌, ◌==◌, if◌then◌else◌,
}

-- `PICO_RP2040`; `PICO_RP2350A`, with `NUM_BANK0_GPIOS`; neither.
pub data Chip : Type 0 where
  rp2040 : Chip
  rp2350 : ℕ → Chip
  other_chip : Chip

abbrev pub qfn80_pins : ℕ
qfn80_pins = 48

abbrev pub rp2040_uart_0_tx_valid_pins : List ℕ
rp2040_uart_0_tx_valid_pins = 0 ∷ 12 ∷ 16 ∷ 28 ∷ []

abbrev pub rp2040_uart_0_rx_valid_pins : List ℕ
rp2040_uart_0_rx_valid_pins = 1 ∷ 13 ∷ 17 ∷ 29 ∷ []

abbrev pub rp2040_uart_1_tx_valid_pins : List ℕ
rp2040_uart_1_tx_valid_pins = 4 ∷ 8 ∷ 20 ∷ 24 ∷ []

abbrev pub rp2040_uart_1_rx_valid_pins : List ℕ
rp2040_uart_1_rx_valid_pins = 5 ∷ 9 ∷ 21 ∷ 25 ∷ []

abbrev pub rp2350_uart_0_tx_valid_pins : List ℕ
rp2350_uart_0_tx_valid_pins = 0 ∷ 2 ∷ 12 ∷ 14 ∷ 16 ∷ 18 ∷ 28 ∷ []

abbrev pub rp2350_uart_0_rx_valid_pins : List ℕ
rp2350_uart_0_rx_valid_pins = 1 ∷ 3 ∷ 13 ∷ 15 ∷ 17 ∷ 19 ∷ 29 ∷ []

abbrev pub rp2350_uart_1_tx_valid_pins : List ℕ
rp2350_uart_1_tx_valid_pins = 4 ∷ 6 ∷ 8 ∷ 10 ∷ 20 ∷ 22 ∷ 24 ∷ 26 ∷ []

abbrev pub rp2350_uart_1_rx_valid_pins : List ℕ
rp2350_uart_1_rx_valid_pins = 5 ∷ 7 ∷ 9 ∷ 11 ∷ 21 ∷ 23 ∷ 25 ∷ 27 ∷ []

abbrev pub rp2350_qfn80_uart_0_tx_valid_pins : List ℕ
rp2350_qfn80_uart_0_tx_valid_pins = 30 ∷ 32 ∷ 34 ∷ 44 ∷ 46 ∷ []

abbrev pub rp2350_qfn80_uart_0_rx_valid_pins : List ℕ
rp2350_qfn80_uart_0_rx_valid_pins = 31 ∷ 33 ∷ 35 ∷ 45 ∷ 47 ∷ []

abbrev pub rp2350_qfn80_uart_1_tx_valid_pins : List ℕ
rp2350_qfn80_uart_1_tx_valid_pins = 36 ∷ 38 ∷ 40 ∷ 42 ∷ []

abbrev pub rp2350_qfn80_uart_1_rx_valid_pins : List ℕ
rp2350_qfn80_uart_1_rx_valid_pins = 37 ∷ 39 ∷ 41 ∷ 43 ∷ []

-- `std::find` over the array.
unfoldable pub contains_pin : List ℕ → ℕ → Bool
contains_pin [] gpio = false
contains_pin (pin ∷ pins) gpio = (pin == gpio) || contains_pin pins gpio

unfoldable pub is_valid_uart_rx : Chip → ℕ → ℕ → Bool
is_valid_uart_rx rp2040 zero gpio = contains_pin rp2040_uart_0_rx_valid_pins gpio
is_valid_uart_rx rp2040 (suc zero) gpio = contains_pin rp2040_uart_1_rx_valid_pins gpio
is_valid_uart_rx (rp2350 num_bank0_gpios) zero gpio =
    let is_qfn80 = num_bank0_gpios == qfn80_pins in
    contains_pin rp2350_uart_0_rx_valid_pins gpio
    || (is_qfn80 && contains_pin rp2350_qfn80_uart_0_rx_valid_pins gpio)
is_valid_uart_rx (rp2350 num_bank0_gpios) (suc zero) gpio =
    let is_qfn80 = num_bank0_gpios == qfn80_pins in
    contains_pin rp2350_uart_1_rx_valid_pins gpio
    || (is_qfn80 && contains_pin rp2350_qfn80_uart_1_rx_valid_pins gpio)
is_valid_uart_rx chip uart_number gpio = false

unfoldable pub is_valid_uart_tx : Chip → ℕ → ℕ → Bool
is_valid_uart_tx rp2040 zero gpio = contains_pin rp2040_uart_0_tx_valid_pins gpio
is_valid_uart_tx rp2040 (suc zero) gpio = contains_pin rp2040_uart_1_tx_valid_pins gpio
is_valid_uart_tx (rp2350 num_bank0_gpios) zero gpio =
    let is_qfn80 = num_bank0_gpios == qfn80_pins in
    contains_pin rp2350_uart_0_tx_valid_pins gpio
    || (is_qfn80 && contains_pin rp2350_qfn80_uart_0_tx_valid_pins gpio)
is_valid_uart_tx (rp2350 num_bank0_gpios) (suc zero) gpio =
    let is_qfn80 = num_bank0_gpios == qfn80_pins in
    contains_pin rp2350_uart_1_tx_valid_pins gpio
    || (is_qfn80 && contains_pin rp2350_qfn80_uart_1_tx_valid_pins gpio)
is_valid_uart_tx chip uart_number gpio = false
