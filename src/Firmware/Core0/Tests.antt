-- ===== src/Firmware/Core0/Tests.antt =====
-- Runs and instances, over a chip whose state is what its UARTs have received, the handler, whether the
-- interrupt is enabled, and its two sources.
use easy_lo_ra_reforged.Base.{
  inl, ℕ, ◌%◌, ◌^◌, ◌≡◌, refl, Bool, true, false, List, [], ◌∷◌, Option, none, some, arith, ◌⊎◌,
  get_or,
}
use easy_lo_ra_reforged.Firmware.RingBuffer.{list_ring}
use easy_lo_ra_reforged.Firmware.FrameWaiter.{FrameWaiter, feed_range}
use easy_lo_ra_reforged.Firmware.Pins.{rp2040}
use easy_lo_ra_reforged.Firmware.Sdk.{Sdk, IsLawful, IsReceiver}
use easy_lo_ra_reforged.Firmware.Uart.{make_wrapper}
use easy_lo_ra_reforged.Firmware.Core0.{finished, aborted, Board, init_core, uart_0_irq_handler}
use easy_lo_ra_reforged.Firmware.Core0.Interrupt.{uart_0_irq_handler_lem}
use easy_lo_ra_reforged.Firmware.Core0.Startup.{Starts, listening, init_core_lem}

abbrev tail : List ℕ → List ℕ
tail [] = []
tail (b ∷ bs) = bs

abbrev is_nonempty : List ℕ → Bool
is_nonempty [] = false
is_nonempty (b ∷ bs) = true

abbrev reduced : List ℕ → List ℕ
reduced [] = []
reduced (b ∷ bs) = b % 2 ^ 8 ∷ reduced bs

abbrev pub chip : Sdk
chip = record {
  Hardware = List ℕ × (Option ℕ × (Bool × (Bool × Bool)));
  uart_irq_num = λ u. u;
  uart_init = λ u rate h. (rate, (h.0, (h.1.0, (h.1.1.0, (false, false)))));
  uart_is_enabled = λ u h. true;
  gpio_set_function_uart = λ gpio h. h;
  irq_set_exclusive_handler = λ n f h. (h.0, (f, h.1.1));
  irq_get_exclusive_handler = λ n h. h.1.0;
  irq_set_enabled = λ n b h. (h.0, (h.1.0, (b, h.1.1.1)));
  uart_set_irqs_enabled = λ u rx tx h. (h.0, (h.1.0, (h.1.1.0, (rx, tx))));
  uart_is_readable = λ u h. is_nonempty h.0;
  uart_getc = λ u h. (get_or h.0 0 0, (tail h.0, h.1));
  uart_putc_raw = λ u byte h. h;
  rx_fifo = λ u h. reduced h.0;
  irq_is_enabled = λ n h. h.1.1.0;
  rx_raises = λ u h. h.1.1.1.0;
  tx_raises = λ u h. h.1.1.1.1;
}

chip-IsLawful : IsLawful chip
chip-IsLawful = record {
  handler-set = λ n f h m. refl;
  enabled-set = λ n b h. refl;
  rx-set = λ u rx tx h. refl;
  tx-set = λ u rx tx h. refl;
  handler-enabled = λ n m b h. refl;
  handler-raises = λ n u rx tx h. refl;
  enabled-handler = λ n m f h. refl;
  enabled-raises = λ n u rx tx h. refl;
  rx-handler = λ u m f h. refl;
  tx-handler = λ u m f h. refl;
  handler-init = λ n u rate h. refl;
  enabled-init = λ n u rate h. refl;
  rx-init = λ u rate h. refl;
  tx-init = λ u rate h. refl;
  handler-gpio = λ n gpio h. refl;
  enabled-gpio = λ n gpio h. refl;
  rx-gpio = λ u gpio h. refl;
  tx-gpio = λ u gpio h. refl;
}

chip-readable-nil : (bytes : List ℕ) → reduced bytes ≡ [] → is_nonempty bytes ≡ false
chip-readable-nil [] e = refl
chip-readable-nil (c ∷ cs) e = absurd (ground arith)

chip-readable-cons :
    (bytes : List ℕ) (b : ℕ) (bs : List ℕ) → reduced bytes ≡ b ∷ bs → is_nonempty bytes ≡ true
chip-readable-cons [] b bs e = absurd (ground arith)
chip-readable-cons (c ∷ cs) b bs e = refl

chip-getc :
    (bytes : List ℕ) (b : ℕ) (bs : List ℕ)
    → reduced bytes ≡ b ∷ bs
    → (get_or bytes 0 0 % 2 ^ 8 ≡ b) × (reduced (tail bytes) ≡ bs)
chip-getc [] b bs e = absurd (ground arith)
chip-getc (c ∷ cs) b bs e = ground arith

chip-IsReceiver : (u : ℕ) → IsReceiver chip u
chip-IsReceiver u = record {
  readable-nil = λ h. chip-readable-nil h.0;
  readable-cons = λ h. chip-readable-cons h.0;
  getc = λ h. chip-getc h.0;
}

abbrev board : Board chip
board = record {
  uart_0_wrapper = make_wrapper 0;
  uart_1_wrapper = make_wrapper 1;
  hardware = ([], (none, (false, (false, false))));
}

-- Pins 1 and 0 for UART 0, 4 and 5 for UART 1.
init_core_lem_example :
    (((Starts chip rp2040 9600 (make_wrapper 0) 1 0 board.hardware
          × Starts chip rp2040 9600 (make_wrapper 1) 5 4 board.hardware)
        × (init_core chip rp2040 9600 false 1 0 4 5 board
            ≡ finished (listening chip rp2040 9600 board board.hardware)))
      ⊎ ((¬ (
            Starts chip rp2040 9600 (make_wrapper 0) 1 0 board.hardware
            × Starts chip rp2040 9600 (make_wrapper 1) 5 4 board.hardware))
          × (init_core chip rp2040 9600 false 1 0 4 5 board ≡ aborted)))
    × (init_core chip rp2040 9600 true 1 0 4 5 board
        ≡ finished (record board { hardware = ([], (some 0, (false, (false, false)))) }))
init_core_lem_example = init_core_lem chip rp2040 9600 chip-IsLawful 1 0 4 5 board (inl refl)

-- `tryReadFrame` is not called here, so the pending array may be empty.
abbrev waiter : FrameWaiter (list_ring 8)
waiter = record {
  buffer = [];
  pending_frame_buffer = [];
  pending_frame_size = 0;
  overflow = false;
  dropping_feed_bytes = false;
  callback = true;
  notified = 0;
}

-- Three bytes wait, one of them a delimiter.
uart_0_irq_handler_lem_example :
    (h' : chip.Hardware) × (uart_0_irq_handler chip
        (list_ring 8)
        4
        (make_wrapper 0)
        (5 ∷ 0 ∷ 6 ∷ [], (none, (true, (true, false))))
        waiter
      ≡ some (h', feed_range (list_ring 8) waiter (5 ∷ 0 ∷ 6 ∷ [])))
    × (chip.rx_fifo 0 h' ≡ [])
uart_0_irq_handler_lem_example =
    uart_0_irq_handler_lem chip (list_ring 8) (make_wrapper 0) (chip-IsReceiver 0) 4
      (5 ∷ 0 ∷ 6 ∷ [], (none, (true, (true, false)))) waiter (5 ∷ 0 ∷ 6 ∷ []) refl (omega arith)
