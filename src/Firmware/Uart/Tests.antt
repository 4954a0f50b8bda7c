-- ===== src/Firmware/Uart/Tests.antt =====
-- Runs and instances, over a chip with one UART whose state is its handler, whether its interrupt is
-- enabled, and its two sources.
use easy_lo_ra_reforged.Base.{ℕ, ◌≡◌, refl, Bool, true, false, [], Option, none, some, ◌⊎◌, inl}
use easy_lo_ra_reforged.Protocol.Errors.{value, unexpected}
use easy_lo_ra_reforged.Firmware.Pins.{rp2350, is_valid_uart_rx, is_valid_uart_tx, contains_pin}
use easy_lo_ra_reforged.Firmware.Sdk.{Sdk, IsLawful}
use easy_lo_ra_reforged.Firmware.Uart.{
  UartErrors, make_wrapper, init, set_handler_for_irq, enable_irq, enable_rx_irq,
  is_irq_handler_setted,
}
use easy_lo_ra_reforged.Firmware.Uart.Interrupts.{
  IsAccepted, init_lem, Uses, unused, initialised, handled, rx_set, IsInSync, Uses-IsInSync,
}

abbrev pub chip : Sdk
chip = record {
  Hardware = Option ℕ × (Bool × (Bool × Bool));
  uart_irq_num = λ u. u;
  uart_init = λ u rate h. (rate, (h.0, (h.1.0, (false, false))));
  uart_is_enabled = λ u h. true;
  gpio_set_function_uart = λ gpio h. h;
  irq_set_exclusive_handler = λ n f h. (f, h.1);
  irq_get_exclusive_handler = λ n h. h.0;
  irq_set_enabled = λ n b h. (h.0, (b, h.1.1));
  uart_set_irqs_enabled = λ u rx tx h. (h.0, (h.1.0, (rx, tx)));
  uart_is_readable = λ u h. false;
  uart_getc = λ u h. (0, h);
  uart_putc_raw = λ u byte h. h;
  rx_fifo = λ u h. [];
  irq_is_enabled = λ n h. h.1.0;
  rx_raises = λ u h. h.1.1.0;
  tx_raises = λ u h. h.1.1.1;
}

chip-IsLawful : IsLawful chip
chip-IsLawful = record {
  handler-set = λ n f h m. refl;
  enabled-set = λ n b h. refl;
  rx-set = λ u rx tx h. refl;
  tx-set = λ u rx tx h. refl;
  handler-enabled = λ n m b h. refl;
  handler-raises = λ n u rx tx h. refl;
  enabled-handler = λ n m f h. refl;
  enabled-raises = λ n u rx tx h. refl;
  rx-handler = λ u m f h. refl;
  tx-handler = λ u m f h. refl;
  handler-init = λ n u rate h. refl;
  enabled-init = λ n u rate h. refl;
  rx-init = λ u rate h. refl;
  tx-init = λ u rate h. refl;
  handler-gpio = λ n gpio h. refl;
  enabled-gpio = λ n gpio h. refl;
  rx-gpio = λ u gpio h. refl;
  tx-gpio = λ u gpio h. refl;
}

-- `init`, a handler, and the interrupt for received bytes.
served :
    Uses chip
      (make_wrapper 0)
      (none, (false, (false, false)))
      (record { uart = 0; rx_irq_enabled = true; tx_irq_enabled = false })
      (some 5, (true, (true, false)))
unfolding enable_rx_irq enable_irq is_irq_handler_setted set_handler_for_irq init is_valid_uart_rx
    is_valid_uart_tx contains_pin
served = rx_set true (handled (some 5) (initialised (rp2350 30) 9600 1 0 unused refl) (inl refl))

Uses-IsInSync_example :
    IsInSync chip
      (record { uart = 0; rx_irq_enabled = true; tx_irq_enabled = false })
      (some 5, (true, (true, false)))
Uses-IsInSync_example = Uses-IsInSync chip chip-IsLawful 0 refl refl refl served

init_lem_example :
    (IsAccepted chip (rp2350 30) (make_wrapper 0) 9600 1 0 (none, (false, (false, false)))
      × (init chip (rp2350 30) (make_wrapper 0) 9600 1 0 (none, (false, (false, false)))
          ≡ (value 0, (none, (false, (false, false))))))
    ⊎ ((¬ IsAccepted chip (rp2350 30) (make_wrapper 0) 9600 1 0 (none, (false, (false, false))))
        × ((e : UartErrors) × (init chip
                (rp2350 30)
                (make_wrapper 0)
                9600
                1
                0
                (none, (false, (false, false)))
              ≡ (unexpected e, (none, (false, (false, false)))))))
init_lem_example =
    init_lem chip (rp2350 30) (make_wrapper 0) 9600 1 0 (none, (false, (false, false)))
