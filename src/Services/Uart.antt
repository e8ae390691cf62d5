-- ===== src/Services/Uart.antt =====
-- uart/ns16550a/src/driver/{mod,server,device}.rs: the service of the UART driver.
use glenda_drivers.Prelude.{
  ℕ, ◌%◌, ◌^◌, bit_and, not, ◌&&◌, ◌==◌, leb, min, if◌then◌else◌, Option, Outcome, done, fault,
  List, ◌++◌, take, drop, length,
}
use glenda_drivers.Prelude.Handlers.{Result, ok, err, Handler, pure, fail, ◌>>=◌, ◌>>◌}
use glenda_drivers.Prelude.Int.{ℤ}
use glenda_drivers.Glenda.{Error, not_initialized, Opcodes, RingServer}
use glenda_drivers.Mmio.{Bus}
use glenda_drivers.Uart.Port
use glenda_drivers.Uart.State
use glenda_drivers.Uart.State.{Ns16550a, RingBuffer, shm_va}
use glenda_drivers.Uart.Driver
use glenda_drivers.Services.Kernel.{Ipc, Kernel, Uring, Protocols}
use glenda_drivers.Services.Calls.{
  Call, get_mr, set_mr, change, read_utcb, read_service, drive, query, ask, when, wrap, guarded,
  claimed, present, attempt, check, set_buffer, on_part, alter_part, ask_part,
}

-- `UartService`. The endpoints and the reply capability are only stored, and no message ends `run`.
pub record UartService (R S D : Type 0) : Type 0 where
  pub uart : Option (Ns16550a R S D)
  pub recv : ℕ
  pub connected_client : Option ℕ

-- The slots of layout.rs, `RING_VA`, the interrupt that the driver holds, and its badge.
pub record Layout : Type 0 where
  pub ring_slot : ℕ
  pub shm_slot : ℕ
  pub ring_va : ℕ
  pub irq_cap : ℕ
  pub irq_badge : ℕ
  pub ipc_buffer_size : ℕ

module _ {R S D : Type 0} where
  abbrev pub uart_of : UartService R S D → Option (Ns16550a R S D)
  uart_of v = v.uart

  abbrev pub with_uart : Option (Ns16550a R S D) → UartService R S D → UartService R S D
  with_uart u v = record v { uart = u }

  abbrev pub on_uart :
      (Ns16550a R S D → Outcome (Ns16550a R S D)) → UartService R S D → Outcome (UartService R S D)
  on_uart = on_part uart_of with_uart

module _ {R S D : Type 0} (bus : Bus D) (fuel : ℕ) where
  -- The driver's methods on its device.
  abbrev pub send : List ℕ → Ns16550a R S D → Outcome (Result Error ℕ × Ns16550a R S D)
  send buf s = elim (Port.write bus s.base fuel buf s.device) [
    | fault ↦ fault
    | done (n, d) ↦ done (ok n, record s { device = d })
  ]

  abbrev pub receive : ℕ → Ns16550a R S D → Outcome (Result Error (List ℕ) × Ns16550a R S D)
  receive n s =
      let (bytes, d) = Port.read bus s.base n s.device in done (ok bytes, record s { device = d })

  abbrev pub set_rate : ℕ → Ns16550a R S D → Outcome (Ns16550a R S D)
  set_rate baud s = elim (Port.set_baud_rate bus s.base baud s.device) [
    | fault ↦ fault
    | done d ↦ done (record s { device = d })
  ]

  -- device.rs: the methods of `UartDriver` on the service.
  abbrev pub write : List ℕ → UartService R S D → Outcome (Result Error ℕ × UartService R S D)
  write buf = ask_part uart_of with_uart (err not_initialized) (send buf)

  abbrev pub read : ℕ → UartService R S D → Outcome (Result Error (List ℕ) × UartService R S D)
  read n = ask_part uart_of with_uart (err not_initialized) (receive n)

  abbrev pub set_baud_rate : ℕ → UartService R S D → Outcome (UartService R S D)
  set_baud_rate baud = on_uart (set_rate baud)

module _ {R S D K : Type 0} (bus : Bus D) (rb : RingBuffer R) (io : RingServer S)
    (capacity fuel rounds : ℕ) (ops : Opcodes) (not_supported_res : ℤ) (kernel : Kernel K)
    (ipc : Ipc) (uring : Uring S) (p : Protocols) (layout : Layout) where
  abbrev pub Action : Type 0 → Type 0
  Action A = Handler (Call (UartService R S D) K) Error A

  unfoldable pub setup_ring : ℕ → ℕ → ℕ → Action ℕ
  setup_ring sq cq notify_ep = do
    slot ← ask kernel.alloc_slot
    page ← ask (kernel.dma_alloc 1 slot)
    let frame = page.1
    ask (kernel.map_page frame layout.ring_va 1)
    let server = uring.new_server layout.ring_va 4096 sq cq
    change (
        alter_part uart_of with_uart
          (State.set_ring_server (uring.set_client_notify notify_ep server)))
    pure frame

  unfoldable pub setup_shm : ℕ → ℕ → ℕ → ℕ → Action (Unit {0})
  setup_shm frame vaddr paddr size = do
    ask (kernel.map_page frame shm_va 1)
    query (ask_part uart_of with_uart (ok tt) (State.setup_shm rb vaddr paddr size))

  -- Its error is only logged, and `handle_irq` never gives one.
  unfoldable pub handle_notify_irq : Action (Unit {0})
  handle_notify_irq = do
    v ← read_service
    when (present v.uart) (
        drive (on_uart (Driver.handle_irq bus rb io capacity fuel))
        >> attempt (ask (kernel.ack_irq layout.irq_cap)))

  unfoldable pub handle_notify_cq : Action (Unit {0})
  handle_notify_cq = drive (on_uart (Driver.handle_cq bus rb io capacity fuel))

  unfoldable pub handle_notify_sq : Action (Unit {0})
  handle_notify_sq =
      drive (on_uart (Driver.handle_sq bus rb io capacity fuel ops not_supported_res rounds))

  unfoldable pub on_notify : Action (Unit {0})
  on_notify = do
    u ← read_utcb
    v ← read_service
    let is_irq = not (bit_and u.badge layout.irq_badge == 0)
    let is_cq = not (bit_and u.badge p.notify_cq == 0)
    let is_sq = not (bit_and u.badge p.notify_sq == 0)
    when (present v.uart) (
        when is_irq handle_notify_irq >> when is_cq handle_notify_cq >> when is_sq handle_notify_sq)

  -- A size beyond the buffer panics.
  unfoldable pub on_write : Action (Unit {0})
  on_write = do
    u ← read_utcb
    v ← read_service
    when (present v.uart) (do
      check (leb u.size (length u.buffer))
      count ← query (ask_part uart_of with_uart (ok 0) (send bus fuel (take u.size u.buffer)))
      set_mr 0 count)

  unfoldable pub on_read : Action (Unit {0})
  on_read = do
    max_len ← get_mr 0
    let limit = min max_len layout.ipc_buffer_size
    bytes ← query (ask_part uart_of with_uart (err not_initialized) (receive bus fuel limit))
    u ← read_utcb
    set_buffer (bytes ++ drop (length bytes) u.buffer)
    set_mr 0 (length bytes)

  unfoldable pub on_set_baud_rate : Action (Unit {0})
  on_set_baud_rate = do baud ← get_mr 0; drive (on_uart (set_rate bus fuel (baud % 2 ^ 32)))

  unfoldable pub on_setup_ring : Action ℕ
  on_setup_ring = do
    v ← read_service
    sq ← get_mr 0
    cq ← get_mr 1
    ask (kernel.transfer_self v.recv layout.ring_slot)
    setup_ring (sq % 2 ^ 32) (cq % 2 ^ 32) layout.ring_slot

  unfoldable pub on_setup_buffer : Action (Unit {0})
  on_setup_buffer = do
    v ← read_service
    vaddr ← get_mr 0
    size ← get_mr 1
    paddr ← get_mr 2
    ask (kernel.transfer_self v.recv layout.shm_slot)
    setup_shm layout.shm_slot vaddr paddr size

  unfoldable pub arm_write : Action (Unit {0})
  arm_write = do
    u ← read_utcb
    change (λ v. record v { connected_client = claimed u.badge v.connected_client })
    wrap ipc.handle_call on_write

  -- The arms of `ipc_dispatch!`, in order.
  unfoldable pub arms : Action (Unit {0})
  arms = do
    u ← read_utcb
    if (u.proto == p.uart_proto) && (u.label == p.write)
        then arm_write
        else if (u.proto == p.uart_proto) && (u.label == p.read)
        then wrap ipc.handle_call on_read
        else if (u.proto == p.uart_proto) && (u.label == p.set_baud_rate)
        then wrap ipc.handle_call on_set_baud_rate
        else if (u.proto == p.uart_proto) && (u.label == p.setup_ring)
        then wrap ipc.handle_cap_call on_setup_ring
        else if (u.proto == p.uart_proto) && (u.label == p.setup_buffer)
        then wrap ipc.handle_call on_setup_buffer
        else if (u.proto == p.kernel_proto) && (u.label == p.notify)
        then wrap ipc.handle_notify on_notify
        else fail ipc.unmatched

  abbrev pub dispatch : Action (Unit {0})
  dispatch = guarded p.kernel_proto (λ v. v.connected_client) arms
