-- ===== src/Services/Gpu.antt =====
-- virtio/gpu/src/server.rs: the service of the GPU driver. It serves every client alike.
use glenda_drivers.Prelude.{
  ℕ, ◌*◌, ◌/◌, ◌%◌, ◌^◌, bit_and, bit_or, not, ◌&&◌, ◌==◌, if◌then◌else◌, Option, none, some,
  Outcome, done, fault,
}
use glenda_drivers.Prelude.Handlers.{Result, ok, err, Handler, pure, fail, ◌>>=◌, ◌>>◌}
use glenda_drivers.Glenda.{Error, Opcodes, RingServer}
use glenda_drivers.Mmio.{Bus}
use glenda_drivers.Virtio.Queue.{QueueMemory}
use glenda_drivers.Virtio.Transport
use glenda_drivers.Virtio.Gpu.Protocol.{GpuDisplayInfo}
use glenda_drivers.Virtio.Gpu.State
use glenda_drivers.Virtio.Gpu.State.{VirtIoGpu, GpuCommand, Work}
use glenda_drivers.Virtio.Gpu.Driver
use glenda_drivers.Services.Kernel.{Utcb, Ipc, Kernel, Uring, Protocols}
use glenda_drivers.Services.Calls.{
  Call, get_mr, set_mr, change, read_utcb, read_service, drive, query, ask, when, wrap, attempt,
  present, on_part, alter_part, ask_part,
}

-- `fb::FbInfo`
pub record FbInfo : Type 0 where
  pub width : ℕ
  pub height : ℕ
  pub pitch : ℕ
  pub bpp : ℕ
  pub size : ℕ
  pub format : ℕ
  pub paddr : ℕ

-- `GpuService`. The reply capability is only stored.
pub record GpuService (S D : Type 0) : Type 0 where
  pub gpu : Option (VirtIoGpu S D)
  pub irq : Option ℕ
  pub recv : ℕ
  pub endpoint : ℕ
  pub fb_info : FbInfo

-- The slots and addresses of layout.rs, `PGSIZE`, `FB_FORMAT_XRGB8888`, and `align_up` of the glenda crate.
pub record Layout : Type 0 where
  pub mmio_slot : ℕ
  pub mmio_va : ℕ
  pub irq_slot : ℕ
  pub irq_notify_slot : ℕ
  pub irq_notify_cap : ℕ
  pub irq_badge : ℕ
  pub dma_slot : ℕ
  pub dma_va : ℕ
  pub ring_slot : ℕ
  pub ring_va : ℕ
  pub pgsize : ℕ
  pub format_xrgb8888 : ℕ
  pub align_up : ℕ → ℕ → ℕ

module _ {S D : Type 0} where
  abbrev pub gpu_of : GpuService S D → Option (VirtIoGpu S D)
  gpu_of v = v.gpu

  abbrev pub with_gpu : Option (VirtIoGpu S D) → GpuService S D → GpuService S D
  with_gpu g v = record v { gpu = g }

  -- What `init` stores of a driver that is up.
  abbrev pub described : ℕ → VirtIoGpu S D → FbInfo → FbInfo
  described format g info = record info {
    width = g.width;
    height = g.height;
    pitch = g.width * 4 % 2 ^ 64;
    bpp = 32;
    size = g.width * g.height * 4 % 2 ^ 64;
    format = format;
  }

module _ {S D K : Type 0} (io : RingServer S) (bus : Bus D) (base : ℕ) (work : Work D)
    (fuel rounds : ℕ) (ops : Opcodes) (write_obj : FbInfo → Utcb → Result Error (Unit {0}) × Utcb)
    (kernel : Kernel K) (ipc : Ipc) (uring : Uring S) (p : Protocols) (layout : Layout) where
  abbrev pub Action : Type 0 → Type 0
  Action A = Handler (Call (GpuService S D) K) Error A

  -- `VirtIOTransport::new(…).expect(…)`: the device without its error, which panics.
  unfoldable pub transport : D → Action D
  transport d s =
      let (found, d') = Transport.new bus base d in
      elim found [ err e ↦ fault | ok b ↦ done (ok d', s) ]

  -- `gpu.init()?` on a driver that the service does not hold yet.
  unfoldable pub bring_up : QueueMemory → QueueMemory → VirtIoGpu S D → Action (VirtIoGpu S D)
  bring_up mem0 mem1 g s = elim (Driver.init bus base work fuel mem0 mem1 g) [
    | fault ↦ fault
    | done (ok _, g') ↦ done (ok g', s)
    | done (err e, g') ↦ done (err e, s)
  ]

  -- `init`; `device` is what is mapped, and the rest is what the DMA pages hold.
  unfoldable pub init :
      D → QueueMemory → QueueMemory → GpuCommand → GpuDisplayInfo → Action (Unit {0})
  init device mem0 mem1 command response = do
    v ← read_service
    found ← ask (kernel.get_mmio 0 layout.mmio_slot)
    ask (kernel.map_page found.0 layout.mmio_va 1)
    irq_handler ← ask (kernel.get_irq 0 layout.irq_slot)
    ask (kernel.mint_self v.endpoint layout.irq_notify_slot layout.irq_badge)
    ask (kernel.set_notification irq_handler layout.irq_notify_cap)
    change (λ w. record w { irq = some irq_handler })
    d ← transport device
    page ← ask (kernel.dma_alloc 4 layout.dma_slot)
    ask (kernel.map_page page.1 layout.dma_va 4)
    g ← bring_up mem0 mem1 (State.new page.0 command response d)
    change (λ w. record w { fb_info = described layout.format_xrgb8888 g w.fb_info; gpu = some g })
    ask (kernel.register_logic v.endpoint)

  unfoldable pub setup_ring : ℕ → ℕ → ℕ → Action ℕ
  setup_ring sq_entries cq_entries notify_ep = do
    frame ← ask (kernel.alloc_page layout.ring_slot)
    ask (kernel.map_page frame layout.ring_va 1)
    let server = uring.new_server layout.ring_va layout.pgsize sq_entries cq_entries
    change (
        alter_part gpu_of with_gpu
          (State.set_ring_server (uring.set_client_notify notify_ep server)))
    pure frame

  -- `let _ = irq.ack()`, if there is an interrupt.
  abbrev pub ack : Option ℕ → Action (Unit {0})
  ack none = pure tt
  ack (some irq) = attempt (ask (kernel.ack_irq irq))

  -- `let _ = gpu.ack_interrupt()`
  abbrev pub ack_device : VirtIoGpu S D → Outcome (VirtIoGpu S D)
  ack_device g = done (Driver.ack_interrupt bus base work fuel g).1

  unfoldable pub on_notify : Action (Unit {0})
  on_notify = do
    u ← read_utcb
    v ← read_service
    let is_ring = not (bit_and u.badge (bit_or p.notify_cq p.notify_sq) == 0)
    let is_irq = not (bit_and u.badge layout.irq_badge == 0)
    when (present v.gpu) (
        when is_irq (drive (on_part gpu_of with_gpu ack_device) >> ack v.irq)
        >> when is_ring (
            attempt (
              query (
                ask_part gpu_of with_gpu (ok tt)
                  (Driver.handle_ring bus base work fuel io ops rounds)))))

  -- `u.write_obj(&s.fb_info)?`
  unfoldable pub on_get_info : Action ℕ
  on_get_info s =
      let (r, u) = write_obj s.service.fb_info s.utcb in
      let s' : Call (GpuService S D) K = record s { utcb = u } in
      elim r [ err e ↦ done (err e, s') | ok _ ↦ done (ok 0, s') ]

  unfoldable pub on_flush : Action ℕ
  on_flush = do
    x ← get_mr 0
    y ← get_mr 1
    w ← get_mr 2
    h ← get_mr 3
    query (ask_part gpu_of with_gpu (ok tt) (Driver.flush bus base work fuel x y w h))
    pure 0

  unfoldable pub on_set_scanout : Action ℕ
  on_set_scanout = do
    paddr ← get_mr 0
    query (ask_part gpu_of with_gpu (ok tt) (Driver.set_scanout_to bus base work fuel paddr))
    pure 0

  unfoldable pub on_setup_buffer : Action ℕ
  on_setup_buffer = do
    v ← read_service
    let size = v.fb_info.size
    let pages = layout.align_up size layout.pgsize / layout.pgsize
    slot ← ask kernel.alloc_slot
    page ← ask (kernel.dma_alloc pages slot)
    change (λ w. record w { fb_info = record (w.fb_info) { paddr = page.0 } })
    set_mr 0 page.0
    set_mr 1 size
    pure page.1

  unfoldable pub on_setup_ring : Action ℕ
  on_setup_ring = do
    v ← read_service
    slot ← ask kernel.alloc_slot
    sq_entries ← get_mr 0
    cq_entries ← get_mr 1
    ask (kernel.transfer_self v.recv slot)
    setup_ring (sq_entries % 2 ^ 32) (cq_entries % 2 ^ 32) slot

  -- The arms of `ipc_dispatch!`, in order.
  unfoldable pub dispatch : Action (Unit {0})
  dispatch = do
    u ← read_utcb
    if (u.proto == p.kernel_proto) && (u.label == p.notify)
        then wrap ipc.handle_notify on_notify
        else if (u.proto == p.fb_proto) && (u.label == p.get_info)
        then wrap ipc.handle_value_call on_get_info
        else if (u.proto == p.fb_proto) && (u.label == p.flush)
        then wrap ipc.handle_value_call on_flush
        else if (u.proto == p.fb_proto) && (u.label == p.set_scanout)
        then wrap ipc.handle_value_call on_set_scanout
        else if (u.proto == p.fb_proto) && (u.label == p.setup_buffer)
        then wrap ipc.handle_cap_call on_setup_buffer
        else if (u.proto == p.fb_proto) && (u.label == p.setup_ring)
        then wrap ipc.handle_cap_call on_setup_ring
        else fail ipc.unmatched
