-- ===== src/Services/Setup.antt =====
-- driver.rs of virtio/block, virtio/net and uart/ns16550a: how a service gets its device. `device` is the
-- device that is mapped, and the memories are what the DMA pages hold.
use glenda_drivers.Prelude.{ℕ, List, some, Outcome, done, fault}
use glenda_drivers.Prelude.Handlers.{Result, ok, err, Handler, pure, ◌>>=◌, ◌>>◌}
use glenda_drivers.Glenda.{Error, generic}
use glenda_drivers.Mmio.{Bus}
use glenda_drivers.Virtio.Transport
use glenda_drivers.Virtio.Queue.{QueueMemory}
use glenda_drivers.Virtio.Block.State as BlkState
use glenda_drivers.Virtio.Block.State.{VirtIoBlk, BlkReq}
use glenda_drivers.Virtio.Block.Driver as BlkDriver
use glenda_drivers.Virtio.Net.State as NetState
use glenda_drivers.Virtio.Net.State.{VirtIoNet, VirtIoNetHdr}
use glenda_drivers.Virtio.Net.Driver as NetDriver
use glenda_drivers.Uart.State as UartState
use glenda_drivers.Uart.State.{Ns16550a}
use glenda_drivers.Uart.Port
use glenda_drivers.Services.Kernel.{Kernel}
use glenda_drivers.Services.Calls.{Call, change, ask, attempt, lift, outcome_of}
use glenda_drivers.Services.Block.{BlockService, with_blk}
use glenda_drivers.Services.Net.{NetService, with_net}
use glenda_drivers.Services.Uart.{UartService, with_uart}

-- The slots and addresses of the layouts.
pub record Slots : Type 0 where
  pub mmio_slot : ℕ
  pub mmio_va : ℕ
  pub irq_slot : ℕ
  pub irq_notify_slot : ℕ
  pub irq_notify_cap : ℕ
  pub irq_badge : ℕ
  pub dma_slot : ℕ
  pub dma_va : ℕ
  pub endpoint : ℕ

module _ {D : Type 0} (bus : Bus D) (base : ℕ) where
  -- `VirtIOTransport::new(…).expect(…)`
  unfoldable pub transport_up : D → Outcome (Result Error D)
  transport_up device =
      let (found, d) = Transport.new bus base device in
      elim found [ err e ↦ fault | ok b ↦ done (ok d) ]

module _ {S D : Type 0} (bus : Bus D) (base : ℕ) where
  -- `VirtIOBlk::new` and `blk.init(…)?`, which never fails
  unfoldable pub blk_up :
      ℕ → ℕ → QueueMemory → List BlkReq → List ℕ → D → Outcome (Result Error (VirtIoBlk S D))
  blk_up dma_va paddr mem reqs status d =
      elim (BlkDriver.init bus base dma_va paddr mem (BlkState.new reqs status d)) [
        | fault ↦ fault
        | done blk ↦ done (ok blk)
      ]

  -- `VirtIONet::new(…)` and `net.init(…)`, whose errors become `Generic`.
  unfoldable pub net_up :
      ℕ
      → ℕ
      → QueueMemory
      → QueueMemory
      → (ℕ → VirtIoNetHdr)
      → D
      → Outcome (Result Error (VirtIoNet S D))
  net_up dma_va paddr rx_mem tx_mem headers device =
      let (made, d) = NetState.new {S = S} bus base headers device in
      elim made [
        | err e ↦ done (err generic)
        | ok net ↦ elim (NetDriver.init bus base dma_va paddr rx_mem tx_mem net) [
          | fault ↦ fault
          | done (err e, net') ↦ done (err generic)
          | done (ok u, net') ↦ done (ok net')
        ]
      ]

module _ {R S D : Type 0} (bus : Bus D) (base : ℕ) where
  -- `Ns16550a::new` and `init_hw`
  unfoldable pub uart_up : D → Outcome (Result Error (Ns16550a R S D))
  uart_up device = elim (Port.init_hw bus base device) [
    | fault ↦ fault
    | done d ↦ done (ok (UartState.new base d))
  ]

module _ {S D K : Type 0} (bus : Bus D) (kernel : Kernel K) (slots : Slots) where
  unfoldable pub init_block :
      QueueMemory → List BlkReq → List ℕ → D → Handler (Call (BlockService S D) K) Error (Unit {0})
  init_block mem reqs status device = do
    found ← ask (kernel.get_mmio 0 slots.mmio_slot)
    ask (kernel.map_page found.0 slots.mmio_va 1)
    irq_handler ← ask (kernel.get_irq 0 slots.irq_slot)
    ask (kernel.mint_self slots.endpoint slots.irq_notify_slot slots.irq_badge)
    ask (kernel.set_notification irq_handler slots.irq_notify_cap)
    change (λ v. record v { irq = some irq_handler })
    d ← lift (transport_up bus slots.mmio_va device)
    page ← ask (kernel.dma_alloc 4 slots.dma_slot)
    ask (kernel.map_page page.1 slots.dma_va 4)
    blk ← lift (blk_up bus slots.mmio_va slots.dma_va page.0 mem reqs status d)
    change (with_blk (some (BlkDriver.capacity bus slots.mmio_va blk).1))
    ask (kernel.register_logic slots.endpoint)

  unfoldable pub init_net :
      QueueMemory
      → QueueMemory
      → (ℕ → VirtIoNetHdr)
      → D
      → Handler (Call (NetService S D) K) Error (Unit {0})
  init_net rx_mem tx_mem headers device = do
    found ← ask (kernel.get_mmio 0 slots.mmio_slot)
    ask (kernel.map_page found.0 slots.mmio_va 1)
    irq ← ask (kernel.get_irq 0 slots.irq_slot)
    ask (kernel.mint_self slots.endpoint slots.irq_notify_slot 1)
    ask (kernel.set_notification irq slots.irq_notify_cap)
    page ← ask (kernel.dma_alloc 4 slots.dma_slot)
    ask (kernel.map_page page.1 slots.dma_va 4)
    net ← lift (net_up bus slots.mmio_va slots.dma_va page.0 rx_mem tx_mem headers device)
    change (with_net (some net))
    ask (kernel.register_logic slots.endpoint)

module _ {R S D K : Type 0} (bus : Bus D) (kernel : Kernel K) (slots : Slots) where
  -- Without an interrupt the driver is left to polling.
  abbrev pub wire : Result Error ℕ → Handler (Call (UartService R S D) K) Error (Unit {0})
  wire (err e) = pure tt
  wire (ok irq) =
      ask (kernel.mint_self slots.endpoint slots.irq_notify_slot slots.irq_badge)
      >> attempt (ask (kernel.set_notification irq slots.irq_notify_cap))

  unfoldable pub init_uart : D → Handler (Call (UartService R S D) K) Error (Unit {0})
  init_uart device = do
    found ← ask (kernel.get_mmio 0 slots.mmio_slot)
    ask (kernel.map_page found.0 slots.mmio_va 1)
    irq ← outcome_of (ask (kernel.get_irq 0 slots.irq_slot))
    wire irq
    uart ← lift (uart_up bus slots.mmio_va device)
    change (with_uart (some uart))
    ask (kernel.register_logic slots.endpoint)
