-- ===== src/Services/Exclusive.antt =====
-- A connected client and the messages of others: one file for each of the services that check the badge
-- of a message.
pub mod Block
pub mod Net
pub mod Uart
pub mod Ramdisk
