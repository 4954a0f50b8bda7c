-- ===== src/Lib.antt =====
-- A model of EasyLoRa-Reforged: a serial link between a host computer and a microcontroller with a LoRa
-- radio. Bytes and machine words are native numbers; each cast and each `size_t` operation that can wrap
-- keeps its modulus.
--
-- Protocol (protocol/) is the library of the wire format.
--   Bytes: protocol/src/detail/BytesUtilities.hpp, a word and its two bytes.
--   Header: protocol/include/Header/Header.hpp, protocol/src/Header.cpp; Header/Wire its bytes.
--   Crc: protocol/src/detail/CrcCalculator.cpp. CRC++ is the parameter `calculate`. Input and output buffers
--   are taken not to overlap, as `memcpy` requires.
--
-- Firmware (firmware/) is the program of the microcontroller.
--   RingBuffer: the interface of jnk0le::Ringbuffer, a git submodule, as a bounded FIFO.
--   FrameWaiter: firmware/lib/FrameWaiter/FrameWaiter.hpp. `feed` is the producer's side, `try_read_frame`
--   the consumer's, each as one function. The two loops of the consumer recur on fuel; one round for each
--   byte in the ring and one more are given, and `Loop` shows that they suffice. FrameWaiter/Concurrent
--   cuts both at their accesses to the ring and the overflow flag, which the cores share, and lets the
--   cores take turns there; an access to either is atomic. Concurrent/Accounts and Concurrent/Salvage follow
--   the bytes where some are lost, with Base/Thinned.
--   Pins: firmware/include/ValidPins.hpp; the preprocessor's choice of a chip is an argument.
--   Sdk: what the firmware takes from the Pico SDK for a UART, with the laws that its proofs use. As the SDK
--   demands, a handler is installed only where there is none or the same.
--   Uart: firmware/lib/UARTWrapper/; the state of the chip is passed along.
--   Responder: firmware/lib/FrameResponder/ and firmware/lib/GetDeviceInfoHandler/, over a parameter for
--   `Frame.hpp`, the firmware's error codes and nanopb, none of which is in the repository.
--   Core0: firmware/lib/Core_0/, with `assert` as the build sets it (NDEBUG is an argument). The loop of the
--   interrupt handler recurs on fuel, more than the bytes that the UART holds.
--   Core1: firmware/lib/Core_1/. One wake-up of the endless loop is a function, on fuel; one round for each
--   byte in the ring and one more suffice. The decoder and the encoder are not in the repository and are
--   parameters. Between two rounds of `serve` no other core takes a turn. Core1/Wakeup is the endless loop
--   with `__wfe` against a producer on the other core, whose callback is `__sev`, in turns as in
--   FrameWaiter/Concurrent; the answering of a frame is left out there. The event register is one flag,
--   and `__wfe` returns for no other event. Both cores use one waiter there, as they are meant to.
--   Program: firmware/include/Instances.hpp, whose static objects exist once for each translation unit, and
--   both cores as steps of one program.
--
-- Api (api/) is the library of the host computer.
--   Types: api/include/SerialTransportTypes.hpp.
--   Boost: what the transport takes from Boost.Asio and from its template parameter `Stream`.
--   Transport: the members of `BasicSerialTransport<Stream>::Pimpl` in api/include/SerialTransport.hpp;
--   Transport/Handlers its completion handlers, error dispatch and `asyncWrite`; Transport/Strand the
--   public methods as tasks of the strand, and a step relation in which user threads, Asio and the strand
--   take turns. `asyncWrite` takes three steps there: its guards, its compare-and-swap loop, its post.
--   The step relation assumes of Asio that a read that completes reports no more bytes than the buffer
--   holds, and that only `async_read_until` reports `not_found`. User handlers return and throw nothing.
--   `History` bounds the number of sessions by 2^64, so that the generation does not come round.
--   `Backpressure` also restricts `open`: it finds no accepted message on its way to the strand.
--   `Reports` and `AtMostOnce` follow what the write handler is told over whole histories, `Accounting` and
--   `Lossless` over a stretch of one in which the session goes on, `Arrivals` what the frame handler is
--   given. `Progress` has Asio complete each write without an error.
--   `Traffic` reads off what a handler was told of writes. `Reading` follows what comes in over one session
--   in which the reads succeed; there a read reports the bytes up to the first delimiter of the buffer.
--   `Frame::Frame_Delimiter` is a parameter.
--   Transport/Port is the port under it, with the laws that Boost.Asio documents of `basic_serial_port` as
--   hypotheses; Transport/Lending the message that `async_write` works on.
--   Ownership: the life of the objects of class `BasicSerialTransport`, which hold a `Pimpl` each; a call of a
--   method on an object that was moved from is left out, and a destroyed object is not used again.
--
-- Not modelled: `Core_0::main`, which only waits for events; `UARTWrapper::getUARTInstance`;
-- api/include/SerialTransportStates.hpp, whose states and events no code uses; the empty `main`, `EasyLoRa`
-- and `ProtocolEncoder::encode`; tests, build files and message schema; data races on members that are not
-- atomic; the lifetime of `rxBuffer` while Asio reads into it; a byte that comes in while the interrupt
-- handler of core 0 runs.
pub mod Base
pub mod Protocol
pub mod Firmware
pub mod Api
