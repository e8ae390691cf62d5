-- ===== src/Virtio/Net.antt =====
-- virtio/net/src/net.rs: the network driver between the client's request ring and two virtqueues.
pub mod State
pub mod Lane
pub mod Request
pub mod Driver
pub mod Soundness
pub mod Service
pub mod Startup
pub mod Refusing
mod Tests
