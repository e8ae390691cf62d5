-- ===== src/Uart/State.antt =====
-- uart/ns16550a/src/ns16550a/mod.rs: the driver's state, the software buffer and the shared rings.
use glenda_drivers.Prelude.{
  ℕ, zero, suc, ◌+◌, ◌-◌, ◌%◌, ◌^◌, min, Option, none, some, List, [], ◌∷◌, ◌++◌, length,
}
use glenda_drivers.Prelude.Handlers.{Handler, modify}
use glenda_drivers.Glenda.{Error, SharedMemory}

-- `ShmRingBuffer` of the glenda crate: a ring of bytes in shared memory. `push_slice` says how many
-- bytes it took, `pop_slice` gives what it wrote into a slice of the given length.
pub record RingBuffer (R : Type 0) : Type 0 where
  pub init : ℕ → ℕ → R
  pub push_slice : R → List ℕ → ℕ × R
  pub pop_slice : R → ℕ → List ℕ × R
  pub len : R → ℕ

-- `VecDeque<u8>`: a ring of `capacity` slots, `head` the slot of the first byte.
pub record Deque : Type 0 where
  pub head : ℕ
  pub items : List ℕ

abbrev pub push_back : ℕ → Deque → Deque
push_back c q = record q { items = q.items ++ c ∷ [] }

module _ (capacity : ℕ) where
  -- The length of the first slice of `as_slices`: up to the last slot.
  abbrev pub front_len : Deque → ℕ
  front_len q = min (length q.items) (capacity - q.head)

  abbrev pub pop_front : Deque → Deque
  pop_front q = elim q.items [
    | [] ↦ q
    | c ∷ rest ↦ record { head = (q.head + 1) % capacity; items = rest }
  ]

  abbrev pub pop_fronts : ℕ → Deque → Deque
  pop_fronts zero q = q
  pop_fronts (suc n) q = pop_fronts n (pop_front q)

-- `UartStats`; the counters wrap on 64 bits.
pub record UartStats : Type 0 where
  pub rx_hw_lsr_overrun : ℕ
  pub rx_sw_drop : ℕ
  pub rx_ring_full_break : ℕ
  pub rx_budget_hit : ℕ
  pub tx_budget_hit : ℕ
  pub irq_event_budget_hit : ℕ
  pub irq_rx_bytes : ℕ
  pub irq_tx_bytes : ℕ
  pub irq_rx_batches : ℕ

abbrev pub plus : ℕ → ℕ → ℕ
plus a n = (a + n) % 2 ^ 64

abbrev pub no_stats : UartStats
no_stats = record {
  rx_hw_lsr_overrun = 0;
  rx_sw_drop = 0;
  rx_ring_full_break = 0;
  rx_budget_hit = 0;
  tx_budget_hit = 0;
  irq_event_budget_hit = 0;
  irq_rx_bytes = 0;
  irq_tx_bytes = 0;
  irq_rx_batches = 0;
}

-- `Ns16550a`, with the device behind `base`. `irq` is only stored.
pub record Ns16550a (R S D : Type 0) : Type 0 where
  pub base : ℕ
  pub ring : Option S
  pub shm : Option SharedMemory
  pub rx_ring : Option R
  pub tx_ring : Option R
  pub rx_buffer : Deque
  pub pending_read : Option ℕ
  pub stats : UartStats
  pub device : D

abbrev pub shm_va : ℕ
shm_va = 0x60000000

module _ {R S D : Type 0} where
  unfoldable pub new : ℕ → D → Ns16550a R S D
  new base device = record {
    base = base;
    ring = none;
    shm = none;
    rx_ring = none;
    tx_ring = none;
    rx_buffer = record { head = 0; items = [] };
    pending_read = none;
    stats = no_stats;
    device = device;
  }

  unfoldable pub set_ring_server : S → Ns16550a R S D → Ns16550a R S D
  set_ring_server ring s = record s { ring = some ring }

  -- The first 2 KB of the memory are the TX ring, the next 2 KB the RX ring.
  unfoldable pub setup_shm : RingBuffer R → ℕ → ℕ → ℕ → Handler (Ns16550a R S D) Error (Unit {0})
  setup_shm rb client_vaddr paddr size = modify (λ s. record s {
    tx_ring = some (rb.init shm_va 2048);
    rx_ring = some (rb.init (shm_va + 2048) 2048);
    shm = some (record { vaddr = shm_va; client_vaddr = client_vaddr; paddr = paddr; size = size });
  })
