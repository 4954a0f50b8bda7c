-- ===== src/Firmware/Sdk.antt =====
-- What the firmware takes from the Pico SDK for a UART. A UART and an interrupt are named by their
-- numbers, a function by a number, `none` is nullptr; `Hardware` is the state of the chip.
use easy_lo_ra_reforged.Base.{ℕ, ◌≡◌, ◌%◌, ◌^◌, Bool, true, false, List, [], ◌∷◌, Option, none, ◌⊎◌}

pub record Sdk : Type 1 where
  pub Hardware : Type 0
  pub uart_irq_num : ℕ → ℕ
  -- The result is the baud rate that was set, 0 if none could be.
  pub uart_init : ℕ → ℕ → Hardware → ℕ × Hardware
  pub uart_is_enabled : ℕ → Hardware → Bool
  -- `gpio_set_function(gpio, GPIO_FUNC_UART)`.
  pub gpio_set_function_uart : ℕ → Hardware → Hardware
  pub irq_set_exclusive_handler : ℕ → Option ℕ → Hardware → Hardware
  pub irq_get_exclusive_handler : ℕ → Hardware → Option ℕ
  pub irq_set_enabled : ℕ → Bool → Hardware → Hardware
  pub uart_set_irqs_enabled : ℕ → Bool → Bool → Hardware → Hardware
  pub uart_is_readable : ℕ → Hardware → Bool
  -- The next byte received, as a `char`; called only where there is one.
  pub uart_getc : ℕ → Hardware → ℕ × Hardware
  pub uart_putc_raw : ℕ → ℕ → Hardware → Hardware
  -- The bytes that a UART has received and that were not read. Used to state the laws, as the next three.
  pub rx_fifo : ℕ → Hardware → List ℕ
  -- What the chip does: whether an interrupt is enabled, and whether a UART raises its interrupt when
  -- it has received, and when it can send. Used to state the laws, never by the code.
  pub irq_is_enabled : ℕ → Hardware → Bool
  pub rx_raises : ℕ → Hardware → Bool
  pub tx_raises : ℕ → Hardware → Bool

-- A UART is readable while it has received a byte that was not read; `uart_getc` takes the oldest.
pub record IsReceiver (S : Sdk) (u : ℕ) : Type 0 where
  pub readable-nil : (h : S.Hardware) → S.rx_fifo u h ≡ [] → S.uart_is_readable u h ≡ false
  pub readable-cons :
      (h : S.Hardware) (b : ℕ) (bs : List ℕ)
      → S.rx_fifo u h ≡ b ∷ bs
      → S.uart_is_readable u h ≡ true
  pub getc :
      (h : S.Hardware) (b : ℕ) (bs : List ℕ)
      → S.rx_fifo u h ≡ b ∷ bs
      → ((S.uart_getc u h).0 % 2 ^ 8 ≡ b) × (S.rx_fifo u (S.uart_getc u h).1 ≡ bs)

-- A handler may be installed where none is, or again where it is; the SDK asserts that, and the program
-- ends otherwise.
abbrev pub MayInstall : (S : Sdk) → ℕ → Option ℕ → S.Hardware → Type 0
MayInstall S n f h =
    (S.irq_get_exclusive_handler n h ≡ none) ⊎ (S.irq_get_exclusive_handler n h ≡ f)

-- Each setter sets what it is named for, and nothing else of the three; `uart_init` resets the UART, so
-- that it raises no interrupt.
pub record IsLawful (S : Sdk) : Type 0 where
  pub handler-set :
      (n : ℕ) (f : Option ℕ) (h : S.Hardware)
      → MayInstall S n f h
      → S.irq_get_exclusive_handler n (S.irq_set_exclusive_handler n f h) ≡ f
  pub enabled-set :
      (n : ℕ) (b : Bool) (h : S.Hardware) → S.irq_is_enabled n (S.irq_set_enabled n b h) ≡ b
  pub rx-set :
      (u : ℕ) (rx tx : Bool) (h : S.Hardware)
      → S.rx_raises u (S.uart_set_irqs_enabled u rx tx h) ≡ rx
  pub tx-set :
      (u : ℕ) (rx tx : Bool) (h : S.Hardware)
      → S.tx_raises u (S.uart_set_irqs_enabled u rx tx h) ≡ tx
  pub handler-enabled :
      (n m : ℕ) (b : Bool) (h : S.Hardware)
      → S.irq_get_exclusive_handler n (S.irq_set_enabled m b h) ≡ S.irq_get_exclusive_handler n h
  pub handler-raises :
      (n u : ℕ) (rx tx : Bool) (h : S.Hardware)
      → S.irq_get_exclusive_handler n (S.uart_set_irqs_enabled u rx tx h)
        ≡ S.irq_get_exclusive_handler n h
  pub enabled-handler :
      (n m : ℕ) (f : Option ℕ) (h : S.Hardware)
      → S.irq_is_enabled n (S.irq_set_exclusive_handler m f h) ≡ S.irq_is_enabled n h
  pub enabled-raises :
      (n u : ℕ) (rx tx : Bool) (h : S.Hardware)
      → S.irq_is_enabled n (S.uart_set_irqs_enabled u rx tx h) ≡ S.irq_is_enabled n h
  pub rx-handler :
      (u m : ℕ) (f : Option ℕ) (h : S.Hardware)
      → S.rx_raises u (S.irq_set_exclusive_handler m f h) ≡ S.rx_raises u h
  pub tx-handler :
      (u m : ℕ) (f : Option ℕ) (h : S.Hardware)
      → S.tx_raises u (S.irq_set_exclusive_handler m f h) ≡ S.tx_raises u h
  pub handler-init :
      (n u rate : ℕ) (h : S.Hardware)
      → S.irq_get_exclusive_handler n (S.uart_init u rate h).1 ≡ S.irq_get_exclusive_handler n h
  pub enabled-init :
      (n u rate : ℕ) (h : S.Hardware)
      → S.irq_is_enabled n (S.uart_init u rate h).1 ≡ S.irq_is_enabled n h
  pub rx-init : (u rate : ℕ) (h : S.Hardware) → S.rx_raises u (S.uart_init u rate h).1 ≡ false
  pub tx-init : (u rate : ℕ) (h : S.Hardware) → S.tx_raises u (S.uart_init u rate h).1 ≡ false
  pub handler-gpio :
      (n gpio : ℕ) (h : S.Hardware)
      → S.irq_get_exclusive_handler n (S.gpio_set_function_uart gpio h)
        ≡ S.irq_get_exclusive_handler n h
  pub enabled-gpio :
      (n gpio : ℕ) (h : S.Hardware)
      → S.irq_is_enabled n (S.gpio_set_function_uart gpio h) ≡ S.irq_is_enabled n h
  pub rx-gpio :
      (u gpio : ℕ) (h : S.Hardware)
      → S.rx_raises u (S.gpio_set_function_uart gpio h) ≡ S.rx_raises u h
  pub tx-gpio :
      (u gpio : ℕ) (h : S.Hardware)
      → S.tx_raises u (S.gpio_set_function_uart gpio h) ≡ S.tx_raises u h
