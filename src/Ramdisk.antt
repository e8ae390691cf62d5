-- ===== src/Ramdisk.antt =====
-- sys/ramdisk: a block device over a range of memory.
pub mod Driver
pub mod Bytes
pub mod Transfers
mod Tests
