-- ===== src/Virtio/Gpu.antt =====
-- virtio/gpu/src/{protocol,gpu}.rs: the driver core of the virtio GPU.
pub mod Protocol
pub mod State
pub mod Command
pub mod Driver
pub mod Exchange
pub mod Answering
pub mod Scripts
pub mod Serving
pub mod Startup
mod Tests
