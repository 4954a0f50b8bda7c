-- ===== src/Firmware/Uart/Interrupts.antt =====
-- The flags of the wrapper and the interrupts of the chip, and what `init` leaves.
use easy_lo_ra_reforged.Base.{
  ℕ, ◌≡◌, ◌≢◌, refl, ap, ◌∙◌, Bool, Option, true, false, ◌||◌, arith, ◌==◌, ◌⊎◌, inl, inr,
}
use easy_lo_ra_reforged.Protocol.Errors.{value, unexpected}
use easy_lo_ra_reforged.Firmware.Pins.{Chip, is_valid_uart_rx, is_valid_uart_tx}
use easy_lo_ra_reforged.Firmware.Sdk.{Sdk, IsLawful, MayInstall}
use easy_lo_ra_reforged.Firmware.Uart.{
  UartErrors, baud_rate_dont_supported, uart_not_initializated, gpio_not_support_uart_rx,
  gpio_not_support_uart_tx, UartWrapper, make_wrapper, Flag, rx_flag, tx_flag, is_some,
  is_initializated, init, set_handler_for_irq, is_irq_handler_setted, enable_irq, enable_rx_irq,
  enable_tx_irq,
}

module _ (S : Sdk) where
  open S use {Hardware}

  -- What `init` needs for a success.
  abbrev pub IsAccepted : Chip → UartWrapper → ℕ → ℕ → ℕ → Hardware → Type 0
  IsAccepted chip w baudrate rx_pin tx_pin h =
      ((S.uart_init w.uart baudrate h).0 ≢ 0)
      × (S.uart_is_enabled w.uart (S.uart_init w.uart baudrate h).1 ≡ true)
      × (is_valid_uart_rx chip w.uart rx_pin ≡ true)
      × (is_valid_uart_tx chip w.uart tx_pin ≡ true)

  -- `init` succeeds exactly if the SDK sets a baud rate, the UART is enabled and both pins are valid.
  -- Then both pins are given to the UART, and the value is 0, whatever the baud rate that was set;
  -- otherwise no pin is touched.
  pub init_lem :
      (chip : Chip) (w : UartWrapper) (baudrate rx_pin tx_pin : ℕ) (h : Hardware)
      → (IsAccepted chip w baudrate rx_pin tx_pin h
          × (init S chip w baudrate rx_pin tx_pin h ≡ (
            value 0,
            S.gpio_set_function_uart tx_pin
                (S.gpio_set_function_uart rx_pin (S.uart_init w.uart baudrate h).1),
          )))
        ⊎ ((¬ IsAccepted chip w baudrate rx_pin tx_pin h)
            × ((e : UartErrors) × (init S chip w baudrate rx_pin tx_pin h
                  ≡ (unexpected e, (S.uart_init w.uart baudrate h).1))))
  unfolding init is_initializated
  init_lem chip w baudrate rx_pin tx_pin h =
      go ((S.uart_init w.uart baudrate h).0 == 0) (S.uart_is_enabled w.uart h')
        (is_valid_uart_rx chip w.uart rx_pin) (is_valid_uart_tx chip w.uart tx_pin) refl refl refl
        refl
    where
      h' : Hardware
      h' = (S.uart_init w.uart baudrate h).1

      go :
          (b e r t : Bool)
          → ((S.uart_init w.uart baudrate h).0 == 0) ≡ b
          → S.uart_is_enabled w.uart (S.uart_init w.uart baudrate h).1 ≡ e
          → is_valid_uart_rx chip w.uart rx_pin ≡ r
          → is_valid_uart_tx chip w.uart tx_pin ≡ t
          → (IsAccepted chip w baudrate rx_pin tx_pin h
              × (init S chip w baudrate rx_pin tx_pin h ≡ (
                value 0,
                S.gpio_set_function_uart tx_pin
                    (S.gpio_set_function_uart rx_pin (S.uart_init w.uart baudrate h).1),
              )))
            ⊎ ((¬ IsAccepted chip w baudrate rx_pin tx_pin h)
                × ((e : UartErrors) × (init S chip w baudrate rx_pin tx_pin h
                      ≡ (unexpected e, (S.uart_init w.uart baudrate h).1))))
      go true e r t p q u v = inr (ground arith, (baud_rate_dont_supported, ground arith))
      go false false r t p q u v = inr (ground arith, (uart_not_initializated, ground arith))
      go false true false t p q u v = inr (ground arith, (gpio_not_support_uart_rx, ground arith))
      go false true true false p q u v =
          inr (ground arith, (gpio_not_support_uart_tx, ground arith))
      go false true true true p q u v = inl (ground arith, ground arith)

  -- Calls of the methods on one wrapper: `init` before an interrupt is enabled, since it resets the UART;
  -- a handler, which may be nullptr, where the SDK lets one be installed; interrupts set and reset.
  pub data Uses (w : UartWrapper) (h : Hardware) : UartWrapper → Hardware → Type 0 where
    unused : Uses w h w h
    initialised :
        {w' : UartWrapper} {h' : Hardware} (chip : Chip) (baudrate rx_pin tx_pin : ℕ)
        → Uses w h w' h'
        → w'.rx_irq_enabled || w'.tx_irq_enabled ≡ false
        → Uses w h w' (init S chip w' baudrate rx_pin tx_pin h').1
    handled :
        {w' : UartWrapper} {h' : Hardware} (f : Option ℕ)
        → Uses w h w' h'
        → MayInstall S (S.uart_irq_num w'.uart) f h'
        → Uses w h w' (set_handler_for_irq S w' f h')
    rx_set :
        {w' : UartWrapper} {h' : Hardware} (enable : Bool)
        → Uses w h w' h'
        → Uses w h (enable_rx_irq S w' enable h').1.0 (enable_rx_irq S w' enable h').1.1
    tx_set :
        {w' : UartWrapper} {h' : Hardware} (enable : Bool)
        → Uses w h w' h'
        → Uses w h (enable_tx_irq S w' enable h').1.0 (enable_tx_irq S w' enable h').1.1

  -- The chip does what the flags say, and an interrupt that is enabled has a handler.
  pub record IsInSync (w : UartWrapper) (h : Hardware) : Type 0 where
    pub enabled : S.irq_is_enabled (S.uart_irq_num w.uart) h ≡ w.rx_irq_enabled || w.tx_irq_enabled
    pub rx : S.rx_raises w.uart h ≡ w.rx_irq_enabled
    pub tx : S.tx_raises w.uart h ≡ w.tx_irq_enabled
    pub guarded :
        w.rx_irq_enabled || w.tx_irq_enabled ≡ true
        → is_some (S.irq_get_exclusive_handler (S.uart_irq_num w.uart) h) ≡ true

  module _ (L : IsLawful S) where
    set_handler-IsInSync :
        (w : UartWrapper) (h : Hardware) (f : Option ℕ)
        → MayInstall S (S.uart_irq_num w.uart) f h
        → IsInSync w h
        → IsInSync w (set_handler_for_irq S w f h)
    unfolding set_handler_for_irq
    set_handler-IsInSync w h f m v = record {
      enabled = L.enabled-handler _ _ _ _ ∙ v.enabled;
      rx = L.rx-handler _ _ _ _ ∙ v.rx;
      tx = L.tx-handler _ _ _ _ ∙ v.tx;
      guarded = λ e. rw (L.handler-set (S.uart_irq_num w.uart) f h m) (elim m [
        | inl free ↦ absurd (ground (arith, free, v.guarded e))
        | inr same ↦ rw same at (v.guarded e)
      ]);
    }

    uart_init-IsInSync :
        (w : UartWrapper) (h : Hardware) (baudrate : ℕ)
        → w.rx_irq_enabled || w.tx_irq_enabled ≡ false
        → IsInSync w h
        → IsInSync w (S.uart_init w.uart baudrate h).1
    uart_init-IsInSync w h baudrate off v = record {
      enabled = L.enabled-init _ _ _ _ ∙ v.enabled;
      rx = L.rx-init _ _ _ ∙ ground (arith, off);
      tx = L.tx-init _ _ _ ∙ ground (arith, off);
      guarded = λ e. ground (arith, e, off);
    }

    gpio-IsInSync :
        (w : UartWrapper) (h : Hardware) (gpio : ℕ)
        → IsInSync w h
        → IsInSync w (S.gpio_set_function_uart gpio h)
    gpio-IsInSync w h gpio v = record {
      enabled = L.enabled-gpio _ _ _ ∙ v.enabled;
      rx = L.rx-gpio _ _ _ ∙ v.rx;
      tx = L.tx-gpio _ _ _ ∙ v.tx;
      guarded = λ e. ap is_some (L.handler-gpio _ _ _) ∙ v.guarded e;
    }

    init-IsInSync :
        (chip : Chip) (w : UartWrapper) (baudrate rx_pin tx_pin : ℕ) (h : Hardware)
        → w.rx_irq_enabled || w.tx_irq_enabled ≡ false
        → IsInSync w h
        → IsInSync w (init S chip w baudrate rx_pin tx_pin h).1
    init-IsInSync chip w baudrate rx_pin tx_pin h off v =
        let h' = (S.uart_init w.uart baudrate h).1 in
        let started = uart_init-IsInSync w h baudrate off v in
        elim (init_lem chip w baudrate rx_pin tx_pin h) [
          | inl (a, e) ↦ rw e (
              gpio-IsInSync w (S.gpio_set_function_uart rx_pin h') tx_pin
                (gpio-IsInSync w h' rx_pin started))
          | inr (n, (error, e)) ↦ rw e started
        ]

    raised-IsInSync :
        (w : UartWrapper) (h : Hardware)
        → (w.rx_irq_enabled || w.tx_irq_enabled ≡ true
            → is_some (S.irq_get_exclusive_handler (S.uart_irq_num w.uart) h) ≡ true)
        → IsInSync w (
            S.uart_set_irqs_enabled w.uart w.rx_irq_enabled w.tx_irq_enabled
              (S.irq_set_enabled (S.uart_irq_num w.uart) (w.rx_irq_enabled || w.tx_irq_enabled) h))
    raised-IsInSync w h g = record {
      enabled = L.enabled-raises _ _ _ _ _ ∙ L.enabled-set _ _ _;
      rx = L.rx-set _ _ _ _;
      tx = L.tx-set _ _ _ _;
      guarded = λ e. ap is_some (L.handler-raises _ _ _ _ _ ∙ L.handler-enabled _ _ _ _) ∙ g e;
    }

    enable_irq-IsInSync :
        (w : UartWrapper) (h : Hardware) (flag : Flag) (enable : Bool)
        → IsInSync w h
        → IsInSync (enable_irq S w flag enable h).1.0 (enable_irq S w flag enable h).1.1
    unfolding enable_irq is_irq_handler_setted
    enable_irq-IsInSync w h rx_flag enable v =
        ground (arith, raised-IsInSync (record w { rx_irq_enabled = enable }) h, v.guarded)
    enable_irq-IsInSync w h tx_flag enable v =
        ground (arith, raised-IsInSync (record w { tx_irq_enabled = enable }) h, v.guarded)

    keeps-IsInSync :
        {w : UartWrapper} {h : Hardware} {w' : UartWrapper} {h' : Hardware}
        → IsInSync w h
        → Uses w h w' h'
        → IsInSync w' h'
    unfolding enable_rx_irq enable_tx_irq
    keeps-IsInSync v unused = v
    keeps-IsInSync v (initialised {w' = w} {h' = h} chip baudrate rx_pin tx_pin u off) =
        init-IsInSync chip w baudrate rx_pin tx_pin h off (keeps-IsInSync v u)
    keeps-IsInSync v (handled f u m) = set_handler-IsInSync _ _ f m (keeps-IsInSync v u)
    keeps-IsInSync v (rx_set enable u) = enable_irq-IsInSync _ _ rx_flag enable (keeps-IsInSync v u)
    keeps-IsInSync v (tx_set enable u) = enable_irq-IsInSync _ _ tx_flag enable (keeps-IsInSync v u)

    -- From a new wrapper on, for a UART whose interrupt is disabled and which raises none: after every
    -- sequence of calls in which `init` is called only while both flags are false, and a handler, nullptr
    -- or not, is set only where none or the same is installed, the interrupt of the UART is enabled
    -- exactly if one of the two flags is set, each of its sources exactly if its own flag is, and if one
    -- of the flags is set a handler is installed.
    pub Uses-IsInSync :
        (uart : ℕ) {h : Hardware} {w' : UartWrapper} {h' : Hardware}
        → S.irq_is_enabled (S.uart_irq_num uart) h ≡ false
        → S.rx_raises uart h ≡ false
        → S.tx_raises uart h ≡ false
        → Uses (make_wrapper uart) h w' h'
        → IsInSync w' h'
    Uses-IsInSync uart disabled rx tx u =
        keeps-IsInSync
          (record { enabled = disabled; rx = rx; tx = tx; guarded = λ e. ground (arith, e) }) u
