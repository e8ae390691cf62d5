-- ===== src/Services/Block.antt =====
-- virtio/block/src/server.rs: the service of the block driver.
use glenda_drivers.Prelude.{
  ℕ, ◌%◌, ◌^◌, bit_and, not, ◌||◌, ◌&&◌, ◌==◌, if◌then◌else◌, Option, none, some, Outcome, done,
}
use glenda_drivers.Prelude.Handlers.{Result, ok, err, Handler, pure, fail, ◌>>=◌, ◌>>◌}
use glenda_drivers.Glenda.{Error, not_supported, not_initialized, Opcodes, RingServer}
use glenda_drivers.Mmio.{Bus}
use glenda_drivers.Virtio.Block.State
use glenda_drivers.Virtio.Block.State.{VirtIoBlk}
use glenda_drivers.Virtio.Block.Driver
use glenda_drivers.Services.Kernel.{Ipc, Kernel, Uring, Protocols}
use glenda_drivers.Services.Calls.{
  Call, get_mr, set_mr, change, read_utcb, read_service, drive, query, ask, when, wrap, guarded,
  claimed, present, on_part, alter_part, ask_part,
}

-- `BlockService`. The endpoint and the reply capability are only stored.
pub record BlockService (S D : Type 0) : Type 0 where
  pub blk : Option (VirtIoBlk S D)
  pub irq : Option ℕ
  pub recv : ℕ
  pub connected_client : Option ℕ

-- `RING_VA`, `PGSIZE` and `IRQ_BADGE`
pub record Layout : Type 0 where
  pub ring_va : ℕ
  pub pgsize : ℕ
  pub irq_badge : ℕ

module _ {S D : Type 0} where
  abbrev pub with_blk : Option (VirtIoBlk S D) → BlockService S D → BlockService S D
  with_blk b v = record v { blk = b }

  abbrev blk_of : BlockService S D → Option (VirtIoBlk S D)
  blk_of v = v.blk

  abbrev pub on_blk :
      (VirtIoBlk S D → Outcome (VirtIoBlk S D)) → BlockService S D → Outcome (BlockService S D)
  on_blk = on_part blk_of with_blk

  -- `blk.as_ref().map(…).unwrap_or(0)`
  abbrev pub measure :
      (VirtIoBlk S D → ℕ × VirtIoBlk S D)
      → BlockService S D
      → Outcome (Result Error ℕ × BlockService S D)
  measure f = ask_part blk_of with_blk (ok 0) (λ b. done (ok (f b).0, (f b).1))

  abbrev pub setup_shm :
      ℕ → ℕ → ℕ → BlockService S D → Outcome (Result Error (Unit {0}) × BlockService S D)
  setup_shm vaddr paddr size =
      ask_part blk_of with_blk (err not_initialized) (State.setup_shm vaddr paddr size)

module _ {S D K : Type 0} (io : RingServer S) (bus : Bus D) (base : ℕ) (ops : Opcodes)
    (kernel : Kernel K) (ipc : Ipc) (uring : Uring S) (p : Protocols) (layout : Layout) where
  abbrev pub Action : Type 0 → Type 0
  Action A = Handler (Call (BlockService S D) K) Error A

  unfoldable pub setup_ring : ℕ → ℕ → ℕ → Action ℕ
  setup_ring sq_entries cq_entries notify_ep = do
    slot ← ask kernel.alloc_slot
    page ← ask (kernel.dma_alloc 1 slot)
    let frame = page.1
    ask (kernel.map_page frame layout.ring_va 1)
    let server = uring.new_server layout.ring_va layout.pgsize sq_entries cq_entries
    change (
        alter_part blk_of with_blk
          (State.set_ring_server (uring.set_client_notify notify_ep server)))
    pure frame

  -- `irq.ack()?`, if there is an interrupt.
  abbrev pub ack : Option ℕ → Action (Unit {0})
  ack none = pure tt
  ack (some irq) = ask (kernel.ack_irq irq)

  -- The function of a notification, by the bits of its badge.
  unfoldable pub on_notify : Action (Unit {0})
  on_notify = do
    u ← read_utcb
    v ← read_service
    let is_cq = not (bit_and u.badge p.notify_cq == 0)
    let is_sq = not (bit_and u.badge p.notify_sq == 0)
    let is_irq = not (bit_and u.badge layout.irq_badge == 0)
    when (present v.blk) (
        when is_irq (drive (on_blk (Driver.handle_irq io bus base ops)) >> ack v.irq)
        >> when (is_cq || is_sq) (drive (on_blk (Driver.handle_ring io bus base ops))))

  unfoldable pub on_device : Action ℕ
  on_device = do
    u ← read_utcb
    id ← get_mr 0
    if u.label == p.get_mmio
        then (do
          found ← ask (kernel.get_mmio id u.recv_window)
          set_mr 0 found.1
          set_mr 1 found.2
          pure found.0)
        else if u.label == p.get_irq
        then ask (kernel.get_irq id u.recv_window)
        else fail not_supported

  unfoldable pub on_setup_buffer : Action (Unit {0})
  on_setup_buffer = do
    v ← read_service
    slot ← ask kernel.alloc_slot
    vaddr ← get_mr 0
    size ← get_mr 1
    paddr ← get_mr 2
    ask (kernel.transfer_self v.recv slot)
    query (setup_shm vaddr paddr size)

  unfoldable pub on_setup_ring : Action ℕ
  on_setup_ring = do
    v ← read_service
    slot ← ask kernel.alloc_slot
    sq ← get_mr 0
    cq ← get_mr 1
    ask (kernel.transfer_self v.recv slot)
    setup_ring (sq % 2 ^ 32) (cq % 2 ^ 32) slot

  -- The arms of `ipc_dispatch!`, in order.
  unfoldable pub arms : Action (Unit {0})
  arms = do
    u ← read_utcb
    if (u.proto == p.kernel_proto) && (u.label == p.notify)
        then wrap ipc.handle_notify on_notify
        else if u.proto == p.device_proto
        then wrap ipc.handle_value_call on_device
        else if (u.proto == p.block_proto) && (u.label == p.get_capacity)
        then (change (λ v. record v { connected_client = claimed u.badge v.connected_client })
            >> wrap ipc.handle_value_call (query (measure (Driver.capacity bus base))))
        else if (u.proto == p.block_proto) && (u.label == p.get_block_size)
        then wrap ipc.handle_value_call (query (measure (λ b. (b.blk_size, b))))
        else if (u.proto == p.block_proto) && (u.label == p.setup_buffer)
        then wrap ipc.handle_call on_setup_buffer
        else if (u.proto == p.block_proto) && (u.label == p.setup_ring)
        then wrap ipc.handle_cap_call on_setup_ring
        else if (u.proto == 0) && (u.label == 0)
        then wrap ipc.handle_notify (drive (on_blk (Driver.handle_irq io bus base ops)))
        else fail not_supported

  abbrev pub dispatch : Action (Unit {0})
  dispatch = guarded p.kernel_proto (λ v. v.connected_client) arms
