-- ===== src/Firmware/Pins/Roles.antt =====
-- The tables of pins against each other: a pin has at most one role.
use easy_lo_ra_reforged.Base.{
  ℕ, zero, suc, ◌+◌, ◌%◌, ◌≡◌, refl, sym, ◌∙◌, Bool, true, false, not, ◌&&◌, List, [], ◌∷◌, map,
  ◌==◌, arith,
}
use easy_lo_ra_reforged.Firmware.Pins.{
  Chip, rp2040, rp2350, other_chip, contains_pin, is_valid_uart_rx, is_valid_uart_tx,
  rp2040_uart_0_tx_valid_pins, rp2040_uart_1_tx_valid_pins, rp2350_uart_0_tx_valid_pins,
  rp2350_uart_1_tx_valid_pins, rp2350_qfn80_uart_0_tx_valid_pins, rp2350_qfn80_uart_1_tx_valid_pins,
}

contains_pin-shift :
    (pins : List ℕ) (gpio : ℕ)
    → contains_pin (map (λ p. p + 1) pins) (gpio + 1) ≡ contains_pin pins gpio
unfolding contains_pin
contains_pin-shift [] gpio = refl
contains_pin-shift (pin ∷ pins) gpio =
    let e : (pin + 1 == gpio + 1) ≡ (pin == gpio) = ground arith in
    rw (e, contains_pin-shift pins gpio)

abbrev all_even : List ℕ → Bool
all_even [] = true
all_even (pin ∷ pins) = (pin % 2 == 0) && all_even pins

contains_pin-even :
    (pins : List ℕ) (gpio : ℕ) → all_even pins ≡ true → contains_pin pins gpio ≡ true → gpio % 2 ≡ 0
unfolding contains_pin
contains_pin-even [] gpio a c = absurd (ground arith)
contains_pin-even (pin ∷ pins) gpio a c = ground (arith, contains_pin-even pins gpio)

abbrev disjoint : List ℕ → List ℕ → Bool
unfolding contains_pin
disjoint [] qs = true
disjoint (pin ∷ pins) qs = not (contains_pin qs pin) && disjoint pins qs

contains_pin-disjoint :
    (pins qs : List ℕ) (gpio : ℕ)
    → disjoint pins qs ≡ true
    → contains_pin pins gpio ≡ true
    → contains_pin qs gpio ≡ false
unfolding contains_pin disjoint
contains_pin-disjoint [] qs gpio d c = absurd (ground arith)
contains_pin-disjoint (pin ∷ pins) qs gpio d c = ground (arith, contains_pin-disjoint pins qs gpio)

-- The receiving pins of a UART are the pins that follow its transmitting pins.
pub is_valid_uart_rx-shift :
    (chip : Chip) (uart gpio : ℕ)
    → is_valid_uart_rx chip uart (gpio + 1) ≡ is_valid_uart_tx chip uart gpio
unfolding is_valid_uart_rx is_valid_uart_tx
is_valid_uart_rx-shift rp2040 zero gpio = contains_pin-shift rp2040_uart_0_tx_valid_pins gpio
is_valid_uart_rx-shift rp2040 (suc zero) gpio = contains_pin-shift rp2040_uart_1_tx_valid_pins gpio
is_valid_uart_rx-shift rp2040 (suc (suc uart)) gpio = refl
is_valid_uart_rx-shift (rp2350 n) zero gpio = rw (
  contains_pin-shift rp2350_uart_0_tx_valid_pins gpio,
  contains_pin-shift rp2350_qfn80_uart_0_tx_valid_pins gpio,
)
is_valid_uart_rx-shift (rp2350 n) (suc zero) gpio = rw (
  contains_pin-shift rp2350_uart_1_tx_valid_pins gpio,
  contains_pin-shift rp2350_qfn80_uart_1_tx_valid_pins gpio,
)
is_valid_uart_rx-shift (rp2350 n) (suc (suc uart)) gpio = refl
is_valid_uart_rx-shift other_chip uart gpio = refl

is_valid_uart_tx-even :
    (chip : Chip) (uart gpio : ℕ) → is_valid_uart_tx chip uart gpio ≡ true → gpio % 2 ≡ 0
unfolding is_valid_uart_tx
is_valid_uart_tx-even rp2040 zero gpio v = contains_pin-even rp2040_uart_0_tx_valid_pins gpio refl v
is_valid_uart_tx-even rp2040 (suc zero) gpio v =
    contains_pin-even rp2040_uart_1_tx_valid_pins gpio refl v
is_valid_uart_tx-even rp2040 (suc (suc uart)) gpio v = absurd (ground arith)
is_valid_uart_tx-even (rp2350 n) zero gpio v = ground (
  arith,
  contains_pin-even rp2350_uart_0_tx_valid_pins gpio refl,
  contains_pin-even rp2350_qfn80_uart_0_tx_valid_pins gpio refl,
)
is_valid_uart_tx-even (rp2350 n) (suc zero) gpio v = ground (
  arith,
  contains_pin-even rp2350_uart_1_tx_valid_pins gpio refl,
  contains_pin-even rp2350_qfn80_uart_1_tx_valid_pins gpio refl,
)
is_valid_uart_tx-even (rp2350 n) (suc (suc uart)) gpio v = absurd (ground arith)
is_valid_uart_tx-even other_chip uart gpio v = absurd (ground arith)

rp2350_disjoint :
    (n gpio : ℕ)
    → is_valid_uart_tx (rp2350 n) 0 gpio ≡ true
    → is_valid_uart_tx (rp2350 n) 1 gpio ≡ true
    → ⊥
unfolding is_valid_uart_tx disjoint
rp2350_disjoint n gpio v w = ground (
  arith,
  contains_pin-disjoint rp2350_uart_0_tx_valid_pins rp2350_uart_1_tx_valid_pins gpio refl,
  contains_pin-disjoint rp2350_uart_0_tx_valid_pins rp2350_qfn80_uart_1_tx_valid_pins gpio refl,
  contains_pin-disjoint rp2350_qfn80_uart_0_tx_valid_pins rp2350_uart_1_tx_valid_pins gpio refl,
  contains_pin-disjoint rp2350_qfn80_uart_0_tx_valid_pins rp2350_qfn80_uart_1_tx_valid_pins gpio
      refl,
)

is_valid_uart_tx_unique :
    (chip : Chip) (u v gpio : ℕ)
    → is_valid_uart_tx chip u gpio ≡ true
    → is_valid_uart_tx chip v gpio ≡ true
    → u ≡ v
unfolding is_valid_uart_tx disjoint
is_valid_uart_tx_unique chip zero zero gpio a b = refl
is_valid_uart_tx_unique chip (suc zero) (suc zero) gpio a b = refl
is_valid_uart_tx_unique rp2040 zero (suc zero) gpio a b = absurd (
    ground (
      arith,
      contains_pin-disjoint rp2040_uart_0_tx_valid_pins rp2040_uart_1_tx_valid_pins gpio refl,
    ))
is_valid_uart_tx_unique rp2040 (suc zero) zero gpio a b = absurd (
    ground (
      arith,
      contains_pin-disjoint rp2040_uart_0_tx_valid_pins rp2040_uart_1_tx_valid_pins gpio refl,
    ))
is_valid_uart_tx_unique (rp2350 n) zero (suc zero) gpio a b = absurd (rp2350_disjoint n gpio a b)
is_valid_uart_tx_unique (rp2350 n) (suc zero) zero gpio a b = absurd (rp2350_disjoint n gpio b a)
is_valid_uart_tx_unique rp2040 (suc (suc u)) v gpio a b = absurd (ground arith)
is_valid_uart_tx_unique (rp2350 n) (suc (suc u)) v gpio a b = absurd (ground arith)
is_valid_uart_tx_unique rp2040 u (suc (suc v)) gpio a b = absurd (ground arith)
is_valid_uart_tx_unique (rp2350 n) u (suc (suc v)) gpio a b = absurd (ground arith)
is_valid_uart_tx_unique other_chip u v gpio a b = absurd (ground arith)

is_valid_uart_rx-zero : (chip : Chip) (uart : ℕ) → is_valid_uart_rx chip uart 0 ≡ false
unfolding is_valid_uart_rx contains_pin
is_valid_uart_rx-zero rp2040 zero = refl
is_valid_uart_rx-zero rp2040 (suc zero) = refl
is_valid_uart_rx-zero rp2040 (suc (suc uart)) = refl
is_valid_uart_rx-zero (rp2350 n) zero = ground arith
is_valid_uart_rx-zero (rp2350 n) (suc zero) = ground arith
is_valid_uart_rx-zero (rp2350 n) (suc (suc uart)) = refl
is_valid_uart_rx-zero other_chip uart = refl

-- The direction in which a pin may serve.
pub data Direction : Type 0 where
  receives transmits : Direction

abbrev pub serves : Chip → ℕ → Direction → ℕ → Bool
serves chip uart receives gpio = is_valid_uart_rx chip uart gpio
serves chip uart transmits gpio = is_valid_uart_tx chip uart gpio

not_both :
    (chip : Chip) (u v gpio : ℕ)
    → is_valid_uart_rx chip u gpio ≡ true
    → is_valid_uart_tx chip v gpio ≡ true
    → ⊥
not_both chip u v zero a b = ground (arith, is_valid_uart_rx-zero chip u)
not_both chip u v (suc gpio) a b =
    let e = is_valid_uart_rx-shift chip u gpio in
    let h = is_valid_uart_tx-even chip v (suc gpio) b in
    let s : gpio + 1 ≡ suc gpio = omega arith in
    omega (arith, h, is_valid_uart_tx-even chip u gpio (sym e ∙ (rw s a)))

-- On every chip a pin serves at most one UART, in at most one direction.
pub serves_unique :
    (chip : Chip) (u v : ℕ) (d e : Direction) (gpio : ℕ)
    → serves chip u d gpio ≡ true
    → serves chip v e gpio ≡ true
    → (u ≡ v) × (d ≡ e)
serves_unique chip u v transmits transmits gpio a b =
    (is_valid_uart_tx_unique chip u v gpio a b, refl)
serves_unique chip u v receives transmits gpio a b = absurd (not_both chip u v gpio a b)
serves_unique chip u v transmits receives gpio a b = absurd (not_both chip v u gpio b a)
serves_unique chip u v receives receives zero a b =
    absurd (ground (arith, is_valid_uart_rx-zero chip u))
serves_unique chip u v receives receives (suc gpio) a b =
    let s : gpio + 1 ≡ suc gpio = omega arith in
    (
      is_valid_uart_tx_unique chip u v gpio (sym (is_valid_uart_rx-shift chip u gpio) ∙ rw s a)
          (sym (is_valid_uart_rx-shift chip v gpio) ∙ rw s b),
      refl,
    )
