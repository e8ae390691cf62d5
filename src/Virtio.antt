-- ===== src/Virtio.antt =====
-- The virtio drivers.
pub mod Consts
pub mod Queue
pub mod RegisterFile
pub mod Chains
pub mod Block
pub mod Transport
pub mod Net
pub mod Gpu
