-- ===== src/Services/Ramdisk.antt =====
-- sys/ramdisk/src/server.rs, and what sys/ramdisk/src/driver.rs asks of the kernel: the service of the
-- RAM disk.
use glenda_drivers.Prelude.{
  ℕ, ◌+◌, ◌-◌, ◌/◌, ◌%◌, ◌^◌, ◌&&◌, ◌==◌, if◌then◌else◌, Option, some, Outcome, done, fault, List,
}
use glenda_drivers.Prelude.Handlers.{Result, ok, Handler, pure, fail, ◌>>=◌, ◌>>◌}
use glenda_drivers.Glenda.{Error, not_supported, Opcodes, RingServer}
use glenda_drivers.Ramdisk.Driver
use glenda_drivers.Ramdisk.Driver.{Memory, Ramdisk}
use glenda_drivers.Services.Kernel.{Ipc, Kernel, Uring, Protocols}
use glenda_drivers.Services.Calls.{
  Call, get_mr, set_mr, change, read_utcb, read_service, query, ask, wrap, guarded, claimed,
  present, check, alter_part, ask_part,
}

-- `RamdiskService`. The endpoint and the reply capability are only stored, and no message ends `run`.
pub record RamdiskService (S : Type 0) : Type 0 where
  pub ramdisk : Option (Ramdisk S)
  pub recv : ℕ
  pub connected_client : Option ℕ

-- The slots and addresses of layout.rs, and `PGSIZE`.
pub record Layout : Type 0 where
  pub mmio_slot : ℕ
  pub buffer_slot : ℕ
  pub notify_slot : ℕ
  pub ring_slot : ℕ
  pub endpoint_slot : ℕ
  pub mmio_va : ℕ
  pub buffer_va : ℕ
  pub ring_va : ℕ
  pub pgsize : ℕ

module _ {S : Type 0} where
  abbrev pub disk_of : RamdiskService S → Option (Ramdisk S)
  disk_of v = v.ramdisk

  abbrev pub with_disk : Option (Ramdisk S) → RamdiskService S → RamdiskService S
  with_disk d v = record v { ramdisk = d }

  -- `s.ramdisk.as_ref().unwrap().capacity()`
  abbrev pub capacity : Ramdisk S → Outcome (Result Error ℕ × Ramdisk S)
  capacity d = elim (Driver.capacity d) [ fault ↦ fault | done n ↦ done (ok n, d) ]

module _ {S K : Type 0} (io : RingServer S) (ops : Opcodes) (code : Error → ℕ) (rounds : ℕ)
    (kernel : Kernel K) (ipc : Ipc) (uring : Uring S) (p : Protocols) (layout : Layout) where
  abbrev pub Action : Type 0 → Type 0
  Action A = Handler (Call (RamdiskService S) K) Error A

  -- `init`; `bytes` and `memory` are what the pages hold.
  unfoldable pub init : (ℕ → List ℕ) → Memory → Action (Unit {0})
  init bytes memory = do
    found ← ask (kernel.get_mmio 0 layout.mmio_slot)
    let size = found.2
    let pages = (size + layout.pgsize - 1) % 2 ^ 64 / layout.pgsize
    ask (kernel.map_page found.0 layout.mmio_va pages)
    change (with_disk (some (Driver.set_block_size 4096 (Driver.new (bytes size) memory))))
    ask (kernel.register_logic layout.endpoint_slot)

  -- `Ramdisk::setup_buffer` and `Ramdisk::setup_ring`
  unfoldable pub setup_buffer : ℕ → ℕ → ℕ → Action (Unit {0})
  setup_buffer client_vaddr size paddr = do
    let pages = (size + layout.pgsize - 1) % 2 ^ 64 / layout.pgsize
    ask (kernel.map_page layout.buffer_slot layout.buffer_va pages)
    change (
        alter_part disk_of with_disk
          (Driver.set_buffer layout.buffer_va layout.pgsize client_vaddr size paddr))

  unfoldable pub setup_ring : ℕ → ℕ → ℕ → Action ℕ
  setup_ring sq_entries cq_entries endpoint = do
    frame ← ask (kernel.alloc_page layout.ring_slot)
    ask (kernel.map_page frame layout.ring_va 1)
    let server = uring.new_server layout.ring_va layout.pgsize sq_entries cq_entries
    change (
        alter_part disk_of with_disk
          (λ d. record d { ring = some (uring.set_client_notify endpoint server) }))
    pure frame

  unfoldable pub on_notify : Action (Unit {0})
  on_notify = query (ask_part disk_of with_disk (ok tt) (Driver.handle_io ops code io rounds))

  unfoldable pub on_device : Action ℕ
  on_device = do
    u ← read_utcb
    id ← get_mr 0
    if u.label == p.get_mmio
        then (do
          found ← ask (kernel.get_mmio id u.recv_window)
          set_mr 0 found.1
          set_mr 1 found.2
          pure found.0)
        else if u.label == p.get_irq
        then ask (kernel.get_irq id u.recv_window)
        else fail not_supported

  -- `unwrap` panics while there is no disk.
  unfoldable pub disk_there : Action (Unit {0})
  disk_there = do v ← read_service; check (present v.ramdisk)

  unfoldable pub on_get_capacity : Action ℕ
  on_get_capacity = disk_there >> query (ask_part disk_of with_disk (ok 0) capacity)

  unfoldable pub on_get_block_size : Action ℕ
  on_get_block_size =
      disk_there >> query (ask_part disk_of with_disk (ok 0) (λ d. done (ok d.block_size, d)))

  unfoldable pub arm_get_capacity : Action (Unit {0})
  arm_get_capacity = do
    u ← read_utcb
    change (λ v. record v { connected_client = claimed u.badge v.connected_client })
    wrap ipc.handle_value_call on_get_capacity

  -- The capability moves before `handle_call`, so that its error is the arm's.
  unfoldable pub arm_setup_buffer : Action (Unit {0})
  arm_setup_buffer = do
    v ← read_service
    client_vaddr ← get_mr 0
    size ← get_mr 1
    paddr ← get_mr 2
    ask (kernel.transfer_self v.recv layout.buffer_slot)
    wrap ipc.handle_value_call (disk_there >> setup_buffer client_vaddr size paddr >> pure 0)

  unfoldable pub arm_setup_ring : Action (Unit {0})
  arm_setup_ring = do
    v ← read_service
    sq ← get_mr 0
    cq ← get_mr 1
    ask (kernel.transfer_self v.recv layout.notify_slot)
    wrap ipc.handle_cap_call
        (disk_there >> setup_ring (sq % 2 ^ 32) (cq % 2 ^ 32) layout.notify_slot)

  -- The arms of `ipc_dispatch!`, in order.
  unfoldable pub arms : Action (Unit {0})
  arms = do
    u ← read_utcb
    if (u.proto == p.kernel_proto) && (u.label == p.notify)
        then wrap ipc.handle_notify on_notify
        else if u.proto == p.device_proto
        then wrap ipc.handle_value_call on_device
        else if (u.proto == p.block_proto) && (u.label == p.get_capacity)
        then arm_get_capacity
        else if (u.proto == p.block_proto) && (u.label == p.get_block_size)
        then wrap ipc.handle_value_call on_get_block_size
        else if (u.proto == p.block_proto) && (u.label == p.setup_buffer)
        then arm_setup_buffer
        else if (u.proto == p.block_proto) && (u.label == p.setup_ring)
        then arm_setup_ring
        else fail not_supported

  abbrev pub dispatch : Action (Unit {0})
  dispatch = guarded p.kernel_proto (λ v. v.connected_client) arms
