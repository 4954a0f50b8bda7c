-- ===== src/Firmware/Core0/Startup.antt =====
-- What `Core_0::init` leaves, with its assertions and without them.
use easy_lo_ra_reforged.Base.{
  ℕ, ◌%◌, ◌^◌, ◌≡◌, refl, ap, ◌∙◌, true, false, some, arith, ◌⊎◌, inl, inr,
}
use easy_lo_ra_reforged.Firmware.Pins.{Chip}
use easy_lo_ra_reforged.Firmware.Sdk.{Sdk, IsLawful, MayInstall}
use easy_lo_ra_reforged.Firmware.Uart.{
  UartWrapper, is_some, set_handler_for_irq, is_irq_handler_setted, enable_irq, enable_rx_irq,
}
use easy_lo_ra_reforged.Firmware.Uart.Interrupts.{IsAccepted, init_lem}
use easy_lo_ra_reforged.Firmware.Core0.{
  finished, aborted, assert, uart_0_irq_handler_name, Board, init_uart_0, init_uart_1,
  enable_uart_0_rx_irq, initialize_uart_0_irq, init_core,
}

module _ (S : Sdk) (chip : Chip) (default_baud_rate : ℕ) where
  open S use {Hardware}

  init_core-ndebug :
      (uart_0_rx_pin uart_0_tx_pin uart_1_tx_pin uart_1_rx_pin : ℕ) (b : Board S)
      → init_core S chip default_baud_rate true uart_0_rx_pin uart_0_tx_pin uart_1_tx_pin
          uart_1_rx_pin b
        ≡ finished (record b {
          hardware =
              S.irq_set_exclusive_handler
                (S.uart_irq_num b.uart_0_wrapper.uart)
                (some uart_0_irq_handler_name)
                b.hardware;
        })
  unfolding init_core assert initialize_uart_0_irq set_handler_for_irq
  init_core-ndebug r0 t0 t1 r1 b = refl

  -- What an initialisation of one wrapper leaves of the chip.
  abbrev pub after_init : UartWrapper → ℕ → ℕ → Hardware → Hardware
  after_init w rx_pin tx_pin h =
      S.gpio_set_function_uart (tx_pin % 2 ^ 8)
        (S.gpio_set_function_uart (rx_pin % 2 ^ 8) (S.uart_init w.uart default_baud_rate h).1)

  -- The initialisation of a wrapper succeeds.
  abbrev pub Starts : UartWrapper → ℕ → ℕ → Hardware → Type 0
  Starts w rx_pin tx_pin h =
      IsAccepted S chip w default_baud_rate (rx_pin % 2 ^ 8) (tx_pin % 2 ^ 8) h

  assert-init_uart_0 :
      (rx_pin tx_pin : ℕ) (b : Board S)
      → (Starts b.uart_0_wrapper rx_pin tx_pin b.hardware
          × (assert false (init_uart_0 S chip default_baud_rate false rx_pin tx_pin) b
              ≡ finished
                  (record b { hardware = after_init b.uart_0_wrapper rx_pin tx_pin b.hardware })))
        ⊎ ((¬ Starts b.uart_0_wrapper rx_pin tx_pin b.hardware)
            × (assert false (init_uart_0 S chip default_baud_rate false rx_pin tx_pin) b ≡ aborted))
  unfolding assert init_uart_0
  assert-init_uart_0 rx_pin tx_pin b =
      elim (init_lem S chip b.uart_0_wrapper default_baud_rate (rx_pin % 2 ^ 8) (tx_pin % 2 ^ 8)
        b.hardware) [
          | inl (a, e) ↦ inl (a, rw (e, assert, init_uart_0) refl)
          | inr (n, (error, e)) ↦ inr (n, rw (e, assert, init_uart_0) refl)
        ]

  assert-init_uart_1 :
      (rx_pin tx_pin : ℕ) (b : Board S)
      → (Starts b.uart_1_wrapper rx_pin tx_pin b.hardware
          × (assert false (init_uart_1 S chip default_baud_rate false rx_pin tx_pin) b
              ≡ finished
                  (record b { hardware = after_init b.uart_1_wrapper rx_pin tx_pin b.hardware })))
        ⊎ ((¬ Starts b.uart_1_wrapper rx_pin tx_pin b.hardware)
            × (assert false (init_uart_1 S chip default_baud_rate false rx_pin tx_pin) b ≡ aborted))
  unfolding assert init_uart_1
  assert-init_uart_1 rx_pin tx_pin b =
      elim (init_lem S chip b.uart_1_wrapper default_baud_rate (rx_pin % 2 ^ 8) (tx_pin % 2 ^ 8)
        b.hardware) [
          | inl (a, e) ↦ inl (a, rw (e, assert, init_uart_1) refl)
          | inr (n, (error, e)) ↦ inr (n, rw (e, assert, init_uart_1) refl)
        ]

  -- The board whose UART 0 interrupts for every byte received.
  abbrev pub listening : Board S → Hardware → Board S
  listening b h =
      let w = record b.uart_0_wrapper { rx_irq_enabled = true } in
      record b {
        uart_0_wrapper = w;
        hardware = S.uart_set_irqs_enabled w.uart true w.tx_irq_enabled (
            S.irq_set_enabled (S.uart_irq_num w.uart) true (
              S.irq_set_exclusive_handler (S.uart_irq_num w.uart) (some uart_0_irq_handler_name)
                h));
      }

  -- The handler of UART 0 may be installed.
  abbrev pub IsFree : Board S → Type 0
  IsFree b =
      MayInstall S (S.uart_irq_num b.uart_0_wrapper.uart) (some uart_0_irq_handler_name) b.hardware

  initialize_uart_0_irq-listening :
      IsLawful S
      → (b : Board S) → IsFree b
      → initialize_uart_0_irq S chip default_baud_rate false b ≡ finished (listening b b.hardware)
  unfolding initialize_uart_0_irq assert enable_uart_0_rx_irq enable_rx_irq enable_irq
      is_irq_handler_setted set_handler_for_irq
  initialize_uart_0_irq-listening L b free = ground (
    arith,
    ap is_some (
        L.handler-set (S.uart_irq_num b.uart_0_wrapper.uart) (some uart_0_irq_handler_name)
          b.hardware free),
  )

  -- An initialisation installs no handler.
  after_init-handler :
      IsLawful S
      → (n : ℕ) (w : UartWrapper) (rx_pin tx_pin : ℕ) (h : Hardware)
      → S.irq_get_exclusive_handler n (after_init w rx_pin tx_pin h)
        ≡ S.irq_get_exclusive_handler n h
  after_init-handler L n w rx_pin tx_pin h =
      L.handler-gpio _ _ _ ∙ L.handler-gpio _ _ _ ∙ L.handler-init _ _ _ _

  both-IsFree :
      IsLawful S
      → (r0 t0 t1 r1 : ℕ) (b : Board S) → IsFree b
      → let h = after_init b.uart_0_wrapper r0 t0 b.hardware in
        IsFree (record b { hardware = after_init b.uart_1_wrapper r1 t1 h })
  both-IsFree L r0 t0 t1 r1 b free =
      let n = S.uart_irq_num b.uart_0_wrapper.uart in
      let same =
        after_init-handler L n b.uart_1_wrapper r1 t1 (after_init b.uart_0_wrapper r0 t0 b.hardware)
        ∙ after_init-handler L n b.uart_0_wrapper r0 t0 b.hardware in
      elim free [ inl e ↦ inl (same ∙ e) | inr e ↦ inr (same ∙ e) ]

  init_core-debug :
      IsLawful S
      → (uart_0_rx_pin uart_0_tx_pin uart_1_tx_pin uart_1_rx_pin : ℕ) (b : Board S) → IsFree b
      → let h = after_init b.uart_0_wrapper uart_0_rx_pin uart_0_tx_pin b.hardware in
        ((Starts b.uart_0_wrapper uart_0_rx_pin uart_0_tx_pin b.hardware
            × Starts b.uart_1_wrapper uart_1_rx_pin uart_1_tx_pin h)
          × (init_core S chip default_baud_rate false uart_0_rx_pin uart_0_tx_pin uart_1_tx_pin
                uart_1_rx_pin b
              ≡ finished (listening b (after_init b.uart_1_wrapper uart_1_rx_pin uart_1_tx_pin h))))
        ⊎ ((¬ (
              Starts b.uart_0_wrapper uart_0_rx_pin uart_0_tx_pin b.hardware
              × Starts b.uart_1_wrapper uart_1_rx_pin uart_1_tx_pin h))
            × (init_core S chip default_baud_rate false uart_0_rx_pin uart_0_tx_pin uart_1_tx_pin
                  uart_1_rx_pin b
                ≡ aborted))
  unfolding init_core
  init_core-debug L r0 t0 t1 r1 b free =
      let h = after_init b.uart_0_wrapper r0 t0 b.hardware in
      elim (assert-init_uart_0 r0 t0 b) [
        | inr (n, e) ↦ inr (λ p. n p.0, rw (e, init_core) refl)
        | inl (a, e) ↦ elim (assert-init_uart_1 r1 t1 (record b { hardware = h })) [
          | inr (n, e') ↦ inr (λ p. n p.1, rw (e, e', init_core) refl)
          | inl (a', e') ↦ inl (
            (a, a'),
            rw (e, e', init_core)
                (initialize_uart_0_irq-listening L
                  (record b { hardware = after_init b.uart_1_wrapper r1 t1 h })
                  (both-IsFree L r0 t0 t1 r1 b free)),
          )
        ]
      ]

  -- On a board on which no other handler is installed for UART 0, as the SDK demands: with assertions,
  -- `init` finishes exactly if both UARTs can be initialised with their pins (cut to
  -- eight bits), UART 1 after UART 0; then the interrupt of UART 0 is enabled for received bytes, and
  -- has its handler. Otherwise the program ends. Without assertions it finishes whatever the pins are,
  -- and has done nothing but set the handler: no UART is initialised and no interrupt is enabled.
  pub init_core_lem :
      IsLawful S
      → (uart_0_rx_pin uart_0_tx_pin uart_1_tx_pin uart_1_rx_pin : ℕ) (b : Board S) → IsFree b
      → let h = after_init b.uart_0_wrapper uart_0_rx_pin uart_0_tx_pin b.hardware in
        (((Starts b.uart_0_wrapper uart_0_rx_pin uart_0_tx_pin b.hardware
              × Starts b.uart_1_wrapper uart_1_rx_pin uart_1_tx_pin h)
            × (init_core S chip default_baud_rate false uart_0_rx_pin uart_0_tx_pin uart_1_tx_pin
                  uart_1_rx_pin b
                ≡ finished
                    (listening b (after_init b.uart_1_wrapper uart_1_rx_pin uart_1_tx_pin h))))
          ⊎ ((¬ (
                Starts b.uart_0_wrapper uart_0_rx_pin uart_0_tx_pin b.hardware
                × Starts b.uart_1_wrapper uart_1_rx_pin uart_1_tx_pin h))
              × (init_core S chip default_baud_rate false uart_0_rx_pin uart_0_tx_pin uart_1_tx_pin
                    uart_1_rx_pin b
                  ≡ aborted)))
        × (init_core S chip default_baud_rate true uart_0_rx_pin uart_0_tx_pin uart_1_tx_pin
              uart_1_rx_pin b
            ≡ finished (record b {
              hardware =
                  S.irq_set_exclusive_handler
                    (S.uart_irq_num b.uart_0_wrapper.uart)
                    (some uart_0_irq_handler_name)
                    b.hardware;
            }))
  init_core_lem L r0 t0 t1 r1 b free =
      (init_core-debug L r0 t0 t1 r1 b free, init_core-ndebug r0 t0 t1 r1 b)
