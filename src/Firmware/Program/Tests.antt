-- ===== src/Firmware/Program/Tests.antt =====
-- A run of the program: UART 0 receives a request, the interrupt is handled, and core 1 is woken.
use easy_lo_ra_reforged.Base.{refl, true, false, [], ◌∷◌, none, replicate}
use easy_lo_ra_reforged.Firmware.RingBuffer.{list_ring-IsFifo}
use easy_lo_ra_reforged.Firmware.FrameWaiter.{
  FrameWaiter, init, feed, try_read_frame, read_loop, end_of_buffer,
}
use easy_lo_ra_reforged.Firmware.Uart.{make_wrapper, read, is_readable}
use easy_lo_ra_reforged.Firmware.Core0.{uart_0_irq_handler}
use easy_lo_ra_reforged.Firmware.Core0.Tests.{chip}
use easy_lo_ra_reforged.Firmware.Core1.{Core1, serve}
use easy_lo_ra_reforged.Firmware.Core1.Tests.{frames, decode, encode, rx, tx}
use easy_lo_ra_reforged.Firmware.Program.{
  program_start, changes, interrupts, wakes, Reach, here, next, IsDeaf, Reach-IsDeaf,
}

abbrev fed : FrameWaiter rx
fed = record {
  buffer = 7 ∷ 0 ∷ [];
  pending_frame_buffer = replicate 512 0;
  pending_frame_size = 0;
  overflow = false;
  dropping_feed_bytes = false;
  callback = true;
  notified = 1;
}

abbrev core_1 : Core1 frames rx tx
core_1 = record {
  uart_0_rx_frame_waiter = record fed { buffer = []; notified = 0 };
  uart_0_tx_frame_waiter = record {
    buffer = [];
    pending_frame_buffer = replicate 512 0;
    pending_frame_size = 0;
    overflow = false;
    dropping_feed_bytes = false;
    callback = true;
    notified = 0;
  };
  received_frame_codified_buffer = replicate 512 0;
  response_frame_payload = replicate 512 0;
  bytes_written = 0;
}

run :
    Reach chip frames decode encode rx tx
      (program_start chip frames decode encode rx tx
        ([], (none, (false, (false, false))))
        (make_wrapper 0)
        []
        [])
      (record {
        hardware = ([], (none, (false, (false, false))));
        uart_0_wrapper = make_wrapper 0;
        uart_0_rx_frame_waiter = fed;
        core_1 = core_1;
      })
unfolding program_start init uart_0_irq_handler read is_readable serve feed try_read_frame read_loop
    end_of_buffer
run =
    next
      (next (next here (changes (7 ∷ 0 ∷ [], (none, (false, (false, false)))) (make_wrapper 0)))
        (interrupts 3 ([], (none, (false, (false, false)))) fed refl))
      (wakes 1 core_1 refl)

Reach-IsDeaf_example :
    IsDeaf chip frames decode encode rx tx (list_ring-IsFifo 16) (list_ring-IsFifo 8) core_1
Reach-IsDeaf_example =
    Reach-IsDeaf chip frames decode encode rx tx (list_ring-IsFifo 16) (list_ring-IsFifo 8)
      ([], (none, (false, (false, false)))) (make_wrapper 0) [] [] refl refl run
