-- ===== src/Services.antt =====
-- The services around the drivers: a service takes one message after the other, and answers each
-- before it takes the next.
pub mod Kernel
pub mod Calls
pub mod Clients
pub mod Block
pub mod Run
pub mod Strangers
pub mod Exclusive
pub mod Net
pub mod Uart
pub mod Ramdisk
pub mod Gpu
pub mod Setup
pub mod Probe
pub mod Sdhci
mod Tests
