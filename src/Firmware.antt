-- ===== src/Firmware.antt =====
-- firmware/: the program of the microcontroller.
pub mod RingBuffer
pub mod FrameWaiter
pub mod Pins
pub mod Sdk
pub mod Uart
pub mod Responder
pub mod Core0
pub mod Core1
pub mod Program
