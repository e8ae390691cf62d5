-- ===== src/Uart.antt =====
-- uart/ns16550a: the driver of the NS16550A serial port.
pub mod Consts
pub mod Config
pub mod State
pub mod Port
pub mod Receive
pub mod Transmit
pub mod Driver
pub mod Device
pub mod Baud
pub mod Streams
pub mod Receiving
pub mod Draining
pub mod Pushing
pub mod Sending
pub mod Transmitting
pub mod Interrupts
mod Tests
