-- ===== src/Rtc.antt =====
-- timer/goldfish-rtc/src: the clock.
pub mod Registers
pub mod Service
pub mod Clock
mod Tests
