-- ===== src/Services/Net.antt =====
-- virtio/net/src/server.rs: the service of the network driver.
use glenda_drivers.Prelude.{
  ℕ, ◌+◌, ◌%◌, ◌/◌, ◌^◌, bit_and, not, ◌&&◌, ◌==◌, if◌then◌else◌, Option, none, some, Outcome, done,
  List, [], ◌∷◌, replicate,
}
use glenda_drivers.Prelude.Handlers.{ok, err, Handler, pure, fail, ◌>>=◌, ◌>>◌}
use glenda_drivers.Glenda.{Error, not_supported, not_initialized, Opcodes, RingServer, SharedMemory}
use glenda_drivers.Mmio.{Bus}
use glenda_drivers.Virtio.Net.State
use glenda_drivers.Virtio.Net.State.{VirtIoNet}
use glenda_drivers.Virtio.Net.Driver
use glenda_drivers.Services.Kernel.{Ipc, Kernel, Uring, Protocols}
use glenda_drivers.Services.Calls.{
  Call, get_mr, set_mr, change, read_utcb, read_service, drive, query, ask, wrap, guarded, claimed,
  on_part, alter_part, ask_part,
}

-- `NetService`. The endpoint and the reply capability are only stored.
pub record NetService (S D : Type 0) : Type 0 where
  pub net : Option (VirtIoNet S D)
  pub recv : ℕ
  pub connected_client : Option ℕ

-- `RING_VA`, `SHM_VA`, `PGSIZE`, and `IRQ_BADGE` of server.rs.
pub record Layout : Type 0 where
  pub ring_va : ℕ
  pub shm_va : ℕ
  pub pgsize : ℕ

abbrev pub irq_badge : ℕ
irq_badge = 1

-- `shm.set_client_vaddr(vaddr)`, if there is shared memory.
abbrev pub set_client_vaddr : ℕ → Option SharedMemory → Option SharedMemory
set_client_vaddr vaddr none = none
set_client_vaddr vaddr (some shm) = some (record shm { client_vaddr = vaddr })

module _ {S D : Type 0} where
  abbrev pub net_of : NetService S D → Option (VirtIoNet S D)
  net_of v = v.net

  abbrev pub with_net : Option (VirtIoNet S D) → NetService S D → NetService S D
  with_net n v = record v { net = n }

  abbrev pub on_net :
      (VirtIoNet S D → Outcome (VirtIoNet S D)) → NetService S D → Outcome (NetService S D)
  on_net = on_part net_of with_net

  -- The driver reads the memory at its own address, and takes the client's from requests.
  abbrev pub share : ℕ → ℕ → ℕ → ℕ → VirtIoNet S D → VirtIoNet S D
  share shm_va vaddr paddr size n =
      let n1 = State.setup_shm shm_va paddr size n in
      record n1 { buffer = set_client_vaddr vaddr n1.buffer }

  abbrev pub octets : Option (VirtIoNet S D) → List ℕ
  octets none = replicate 6 0
  octets (some n) = n.mac

  abbrev pub mac_address : NetService S D → List ℕ
  mac_address v = octets v.net

module _ {S D K : Type 0} (io : RingServer S) (bus : Bus D) (base : ℕ) (ops : Opcodes)
    (kernel : Kernel K) (ipc : Ipc) (uring : Uring S) (p : Protocols) (layout : Layout) where
  abbrev pub Action : Type 0 → Type 0
  Action A = Handler (Call (NetService S D) K) Error A

  unfoldable pub setup_ring : ℕ → ℕ → ℕ → Action ℕ
  setup_ring sq_entries cq_entries notify_ep = do
    slot ← ask kernel.alloc_slot
    page ← ask (kernel.dma_alloc 1 slot)
    let frame = page.1
    ask (kernel.map_page frame layout.ring_va 1)
    let server = uring.new_server layout.ring_va layout.pgsize sq_entries cq_entries
    change (
        alter_part net_of with_net
          (State.set_ring_server (uring.set_client_notify notify_ep server)))
    pure frame

  unfoldable pub setup_shm : ℕ → ℕ → ℕ → ℕ → Action (Unit {0})
  setup_shm frame vaddr paddr size = do
    ask (kernel.map_page frame layout.shm_va (size / 4096))
    query (
        ask_part net_of with_net (err not_initialized)
          (λ n. done (ok tt, share layout.shm_va vaddr paddr size n)))

  unfoldable pub on_notify : Action (Unit {0})
  on_notify = do
    u ← read_utcb
    drive (
        on_net (
          if not (bit_and u.badge irq_badge == 0)
          then Driver.handle_irq io bus base ops
          else Driver.handle_ring io bus base ops))

  unfoldable pub on_device : Action ℕ
  on_device = do
    u ← read_utcb
    id ← get_mr 0
    if u.label == p.get_mmio
        then (do
          found ← ask (kernel.get_mmio id u.recv_window)
          set_mr 0 found.1
          set_mr 1 found.2
          pure found.0)
        else if u.label == p.get_irq
        then ask (kernel.get_irq id u.recv_window)
        else fail not_supported

  -- `u.set_mr(i, mac.octets[i])`, from `i` on.
  unfoldable pub put_octets : ℕ → List ℕ → Action (Unit {0})
  put_octets i [] = pure tt
  put_octets i (b ∷ bs) = set_mr i b >> put_octets (i + 1) bs

  unfoldable pub on_setup_buffer : Action (Unit {0})
  on_setup_buffer = do
    vaddr ← get_mr 0
    size ← get_mr 1
    paddr ← get_mr 2
    v ← read_service
    slot ← ask kernel.alloc_slot
    ask (kernel.transfer_self v.recv slot)
    setup_shm slot vaddr paddr size

  unfoldable pub on_setup_ring : Action ℕ
  on_setup_ring = do
    sq ← get_mr 0
    cq ← get_mr 1
    v ← read_service
    slot ← ask kernel.alloc_slot
    ask (kernel.transfer_self v.recv slot)
    setup_ring (sq % 2 ^ 32) (cq % 2 ^ 32) slot

  unfoldable pub on_get_mac : Action (Unit {0})
  on_get_mac = do
    u ← read_utcb
    change (λ v. record v { connected_client = claimed u.badge v.connected_client })
    v ← read_service
    wrap ipc.handle_call (put_octets 0 (mac_address v))

  -- The arms of `ipc_dispatch!`, in order.
  unfoldable pub arms : Action (Unit {0})
  arms = do
    u ← read_utcb
    if (u.proto == p.kernel_proto) && (u.label == p.notify)
        then wrap ipc.handle_notify on_notify
        else if u.proto == p.device_proto
        then wrap ipc.handle_value_call on_device
        else if (u.proto == p.net_proto) && (u.label == p.get_mac)
        then on_get_mac
        else if (u.proto == p.net_proto) && (u.label == p.setup_buffer)
        then wrap ipc.handle_call on_setup_buffer
        else if (u.proto == p.net_proto) && (u.label == p.setup_ring)
        then wrap ipc.handle_cap_call on_setup_ring
        else fail not_supported

  abbrev pub dispatch : Action (Unit {0})
  dispatch = guarded p.kernel_proto (λ v. v.connected_client) arms
