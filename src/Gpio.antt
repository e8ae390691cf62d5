-- ===== src/Gpio.antt =====
-- gpio/sifive-gpio/src: the pins.
pub mod Registers
pub mod Service
pub mod Pins
mod Tests
