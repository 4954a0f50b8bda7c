-- ===== src/Firmware/Core0/Interrupt.antt =====
-- The handler of the interrupt of UART 0.
use easy_lo_ra_reforged.Base.{ℕ, zero, suc, ◌<◌, ◌≡◌, List, [], ◌∷◌, some, arith, length}
use easy_lo_ra_reforged.Firmware.RingBuffer.{RingBuffer}
use easy_lo_ra_reforged.Firmware.FrameWaiter.{FrameWaiter, feed, feed_range}
use easy_lo_ra_reforged.Firmware.Sdk.{Sdk, IsReceiver}
use easy_lo_ra_reforged.Firmware.Uart.{UartWrapper, read, is_readable}
use easy_lo_ra_reforged.Firmware.Core0.{uart_0_irq_handler}

module _ (S : Sdk) (R : RingBuffer) where
  -- If the UART behaves as a receiver into which nothing comes while the handler runs: with more fuel than
  -- it has bytes waiting, the handler returns; it has fed all of them, in order, to the waiter, and none
  -- is left.
  pub uart_0_irq_handler_lem :
      (w : UartWrapper)
      → IsReceiver S w.uart
      → (fuel : ℕ) (h : S.Hardware) (waiter : FrameWaiter R) (bytes : List ℕ)
      → S.rx_fifo w.uart h ≡ bytes
      → length bytes < fuel
      → (h' : S.Hardware) × (uart_0_irq_handler S R fuel w h waiter
          ≡ some (h', feed_range R waiter bytes))
        × (S.rx_fifo w.uart h' ≡ [])
  unfolding uart_0_irq_handler read is_readable feed_range
  uart_0_irq_handler_lem w v zero h waiter bytes e f = absurd (omega arith)
  uart_0_irq_handler_lem w v (suc fuel) h waiter [] e f = (h, ground (arith, v.readable-nil h e), e)
  uart_0_irq_handler_lem w v (suc fuel) h waiter (b ∷ bs) e f =
      let (got, left) = v.getc h b bs e in
      let (h', more, empty) =
        uart_0_irq_handler_lem w v fuel (S.uart_getc w.uart h).1 (feed R waiter b) bs left
          (omega arith) in
      (h', rw (v.readable-cons h b bs e, got, uart_0_irq_handler, read, is_readable) more, empty)
