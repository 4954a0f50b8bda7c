-- ===== src/Firmware/Program.antt =====
-- firmware/include/Instances.hpp and the two cores together. The frame waiters are static objects of a
-- header, so each translation unit that includes it has its own: the waiter that Core_0.cpp feeds and the
-- one that Core_1.cpp reads are different objects.
mod Tests
use easy_lo_ra_reforged.Base.{
  ℕ, zero, suc, ◌+◌, ◌≤◌, ◌<◌, ◌≡◌, refl, sym, subst, ap, ◌∙◌, Bool, true, false, List, [], ◌∷◌,
  ◌++◌, Option, none, some, length, replicate, arith, length-replicate, inl, inr,
}
use easy_lo_ra_reforged.Protocol.Errors.{Expected, value, unexpected}
use easy_lo_ra_reforged.Firmware.RingBuffer.{RingBuffer, IsFifo}
use easy_lo_ra_reforged.Firmware.FrameWaiter.{FrameWaiter, init}
use easy_lo_ra_reforged.Firmware.FrameWaiter.Receive.{pending, IsValid}
use easy_lo_ra_reforged.Firmware.Sdk.{Sdk}
use easy_lo_ra_reforged.Firmware.Uart.{UartWrapper}
use easy_lo_ra_reforged.Firmware.Responder.{Frames, Frame}
use easy_lo_ra_reforged.Firmware.Core0.{uart_0_irq_handler}
use easy_lo_ra_reforged.Firmware.Core1.{Core1, serve}
use easy_lo_ra_reforged.Firmware.Core1.Replies.{Wakes}
use easy_lo_ra_reforged.Firmware.Core1.Serving.{serve-last}

-- BufferSizes.hpp.
abbrev pub rx_buffer_size : ℕ
rx_buffer_size = 512

abbrev pub tx_buffer_size : ℕ
tx_buffer_size = 512

module _ (S : Sdk) (F : Frames) (decode : List ℕ → Expected (Frame F) F.ProtocolErrors)
    (encode : Frame F → Expected (List ℕ) F.ProtocolErrors) (Rx Tx : RingBuffer) where
  -- `uart_0_rx_frame_waiter` is the object of Core_0.cpp; Core_1.cpp's stands in `core_1`.
  pub record Program : Type 0 where
    pub hardware : S.Hardware
    pub uart_0_wrapper : UartWrapper
    pub uart_0_rx_frame_waiter : FrameWaiter Rx
    pub core_1 : Core1 F Rx Tx

  -- The static objects before the program runs; every waiter's callback is `__sev`.
  unfoldable pub program_start : S.Hardware → UartWrapper → Rx.Ring → Tx.Ring → Program
  program_start h w rx tx = record {
    hardware = h;
    uart_0_wrapper = w;
    uart_0_rx_frame_waiter = init Rx rx rx_buffer_size true;
    core_1 = record {
      uart_0_rx_frame_waiter = init Rx rx rx_buffer_size true;
      uart_0_tx_frame_waiter = init Tx tx tx_buffer_size true;
      received_frame_codified_buffer = replicate rx_buffer_size 0;
      response_frame_payload = replicate tx_buffer_size 0;
      bytes_written = 0;
    };
  }

  -- The chip and the wrapper change in any way; the interrupt of UART 0 is handled; an event wakes core 1.
  pub data Step (p : Program) : Program → Type 0 where
    changes :
        (h : S.Hardware) (w : UartWrapper) → Step p (record p { hardware = h; uart_0_wrapper = w })
    interrupts :
        (fuel : ℕ) (h : S.Hardware) (waiter : FrameWaiter Rx)
        → uart_0_irq_handler S Rx fuel p.uart_0_wrapper p.hardware p.uart_0_rx_frame_waiter
          ≡ some (h, waiter)
        → Step p (record p { hardware = h; uart_0_rx_frame_waiter = waiter })
    wakes :
        (fuel : ℕ) (t : Core1 F Rx Tx)
        → serve F Rx Tx decode encode fuel p.core_1 ≡ some t
        → Step p (record p { core_1 = t })

  pub data Reach (p : Program) : Program → Type 0 where
    here : Reach p p
    next : {q r : Program} → Reach p q → Step q r → Reach p r

  module _ (fifo : IsFifo Rx) (tx_fifo : IsFifo Tx) where
    -- Core 1 has nothing to read and has sent nothing.
    pub record IsDeaf (c : Core1 F Rx Tx) : Type 0 where
      pub idle : Wakes F decode encode Rx Tx fifo tx_fifo c []
      pub quiet : c.uart_0_rx_frame_waiter.overflow ≡ false
      pub silent : Tx.contents c.uart_0_tx_frame_waiter.buffer ≡ []

    serve-IsDeaf :
        (fuel : ℕ) (c t : Core1 F Rx Tx)
        → IsDeaf c
        → serve F Rx Tx decode encode fuel c ≡ some t
        → IsDeaf t
    unfolding serve
    serve-IsDeaf zero c t d e = absurd (ground arith)
    serve-IsDeaf (suc fuel) c t d e =
        let (u, e', empty, left, same, valid, quiet, _, _) =
          serve-last F decode encode Rx Tx fifo tx_fifo c [] fuel d.idle (tt, omega arith)
            d.quiet in
        let last : u ≡ t = ground (arith, e, e') in
        subst IsDeaf last (record {
          idle = record { valid = valid; pending_free = rw left tt; unread = rw (left, empty) };
          quiet = quiet;
          silent = rw same d.silent;
        })

    -- Whatever the UART receives, and however often the interrupt is handled and core 1 is woken: core 1
    -- never gets a byte to read, and its queue for the sender stays empty.
    pub Reach-IsDeaf :
        (h : S.Hardware) (w : UartWrapper) (rx : Rx.Ring) (tx : Tx.Ring) {p : Program}
        → Rx.contents rx ≡ []
        → Tx.contents tx ≡ []
        → Reach (program_start h w rx tx) p
        → IsDeaf p.core_1
    unfolding program_start init
    Reach-IsDeaf h w rx tx e e' here = record {
      idle = record { valid = omega arith; pending_free = tt; unread = e };
      quiet = refl;
      silent = e';
    }
    Reach-IsDeaf h w rx tx e e' (next r (changes h' w')) = Reach-IsDeaf h w rx tx e e' r
    Reach-IsDeaf h w rx tx e e' (next r (interrupts fuel h' waiter i)) =
        Reach-IsDeaf h w rx tx e e' r
    Reach-IsDeaf h w rx tx e e' (next {q} r (wakes fuel t s)) =
        serve-IsDeaf fuel q.core_1 t (Reach-IsDeaf h w rx tx e e' r) s
