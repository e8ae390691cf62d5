-- ===== src/Virtio/Block.antt =====
-- virtio/block/src/blk.rs: the block driver between the client's request ring and the virtqueue.
pub mod State
pub mod Request
pub mod Completion
pub mod Driver
pub mod Queueing
pub mod Invariant
pub mod Submission
pub mod Accepting
pub mod Soundness
pub mod Freeing
pub mod Draining
pub mod Service
pub mod Startup
mod Tests
