-- ===== src/Virtio/Block/State.antt =====
-- virtio/block/src/blk.rs: the state of the block driver.
use glenda_drivers.Prelude.{ℕ, ◌^◌, Option, none, some, List, replicate}
use glenda_drivers.Prelude.Handlers.{Handler, modify}
use glenda_drivers.Glenda.{Error, SharedMemory}
use glenda_drivers.Virtio.Queue.{VirtQueue}

-- `VirtIOBlkReq`
pub record BlkReq : Type 0 where
  pub type_ : ℕ
  pub reserved : ℕ
  pub sector : ℕ

abbrev pub virtio_blk_t_in : ℕ
virtio_blk_t_in = 0

abbrev pub virtio_blk_t_out : ℕ
virtio_blk_t_out = 1

abbrev pub virtio_blk_s_ok : ℕ
virtio_blk_s_ok = 0

abbrev pub virtio_f_ring_packed : ℕ
virtio_f_ring_packed = 2 ^ 34

abbrev pub virtio_f_event_idx : ℕ
virtio_f_event_idx = 2 ^ 29

abbrev pub virtio_blk_f_blk_size : ℕ
virtio_blk_f_blk_size = 2 ^ 6

-- `size_of::<VirtIOBlkReq>()`: 4 + 4 + 8 bytes.
abbrev pub blk_req_size : ℕ
blk_req_size = 16

-- `VirtIoBlk`, with the parts of the DMA area that it writes and reads through `dma_vaddr` (64
-- request headers, then 64 status bytes) and the device behind the transport. `dma_vaddr` is 0
-- while it is null. `endpoint` is only stored.
pub record VirtIoBlk (S D : Type 0) : Type 0 where
  pub queue : Option VirtQueue
  pub dma_vaddr : ℕ
  pub dma_paddr : ℕ
  pub pending_info : List (Option (ℕ × ℕ))
  pub ring_server : Option S
  pub buffer : Option SharedMemory
  pub blk_size : ℕ
  pub reqs : List BlkReq
  pub status : List ℕ
  pub device : D

module _ {S D : Type 0} where
  -- `VirtIoBlk::new`, over the memory that it is given later.
  unfoldable pub new : List BlkReq → List ℕ → D → VirtIoBlk S D
  new reqs status device = record {
    queue = none;
    dma_vaddr = 0;
    dma_paddr = 0;
    pending_info = replicate 64 none;
    ring_server = none;
    buffer = none;
    blk_size = 512;
    reqs = reqs;
    status = status;
    device = device;
  }

  -- `client_vaddr` is set to the address that the memory is mapped at.
  unfoldable pub setup_shm : ℕ → ℕ → ℕ → Handler (VirtIoBlk S D) Error (Unit {0})
  setup_shm vaddr paddr size = modify (λ s. record s {
    buffer = some (record { vaddr = vaddr; client_vaddr = vaddr; paddr = paddr; size = size });
  })

  unfoldable pub set_ring_server : S → VirtIoBlk S D → VirtIoBlk S D
  set_ring_server server s = record s { ring_server = some server }

  unfoldable pub block_size : VirtIoBlk S D → ℕ
  block_size s = s.blk_size
