-- ===== src/Virtio/Net/Lane.antt =====
-- virtio/net/src/net.rs: what `submit` and `handle_irq` do with one of the two queues.
pub mod Filling
pub mod Invariant
pub mod Emptying
use glenda_drivers.Prelude.{
  ℕ, zero, suc, ◌+◌, ◌-◌, ◌*◌, ◌%◌, ◌^◌, bit_or, Option, none, some, ◌||◌, ltb, List, if◌then◌else◌,
  length, get_elem?, set, Outcome, done, fault,
}
use glenda_drivers.Prelude.Int.{ℤ, pos, as_i32}
use glenda_drivers.Prelude.Handlers.{Result, ok, err, Handler, pure, ◌>>=◌, ◌>>◌}
use glenda_drivers.Glenda.{Sqe, SharedMemory, RingServer}
use glenda_drivers.Virtio.Queue
use glenda_drivers.Virtio.Queue.{VirtQueue, Descriptor, desc_f_next, desc_f_write}
use glenda_drivers.Virtio.Transport.{VirtIoError, invalid_header, oom}
use glenda_drivers.Virtio.Chains.{take_desc, put_desc, offer, free_chain}
use glenda_drivers.Virtio.Net.State.{net_hdr_size}

-- `Err(InvalidHeader)` if a request lies outside the shared memory, else its physical address. With
-- no shared memory the client's address is taken as it is. Sums wrap on 64 bits.
unfoldable pub data_paddr : Option SharedMemory → Sqe → Result VirtIoError ℕ
data_paddr none sqe = ok sqe.addr
data_paddr (some shm) sqe =
    if ltb sqe.addr shm.client_vaddr
      || ltb ((shm.client_vaddr + shm.size) % 2 ^ 64) ((sqe.addr + sqe.len) % 2 ^ 64)
    then err invalid_header
    else ok ((shm.paddr + (sqe.addr - shm.client_vaddr)) % 2 ^ 64)

-- The direction of a queue: the device writes into what is received.
pub data Side : Type 0 where
  receive transmit : Side

-- `qidx`
abbrev pub index_of : Side → ℕ
index_of receive = 0
index_of transmit = 1

abbrev pub header_flags : Side → ℕ
header_flags receive = bit_or desc_f_next desc_f_write
header_flags transmit = desc_f_next

abbrev pub payload_flags : Side → ℕ
payload_flags receive = desc_f_write
payload_flags transmit = 0

-- The offset of the header of descriptor `d1` in the DMA area: one page for each queue.
abbrev pub header_offset : Side → ℕ → ℕ
header_offset side d1 = index_of side * 4096 + d1 * 16

-- The two descriptors of a request.
unfoldable pub take_two : Handler VirtQueue VirtIoError (ℕ × ℕ)
take_two = do d1 ← take_desc oom; d2 ← take_desc oom; pure (d1, d2)

unfoldable pub fill_two : Side → ℕ → ℕ → ℕ → ℕ → ℕ → Handler VirtQueue VirtIoError (Unit {0})
fill_two side hdr_paddr data_paddr' len d1 d2 = do
  put_desc d1
      (record { addr = hdr_paddr; len = net_hdr_size; flags = header_flags side; next = d2 })
  put_desc d2 (record { addr = data_paddr'; len = len; flags = payload_flags side; next = 0 })

-- A write into `pending`, whose index must be in range.
unfoldable pub set_pending :
    ℕ → Option (ℕ × ℕ) → List (Option (ℕ × ℕ)) → Outcome (List (Option (ℕ × ℕ)))
set_pending i x xs = if ltb i (length xs) then done (set xs i x) else fault

-- What a client is told of a used entry.
abbrev pub result_of : Side → ℕ → ℤ
result_of receive len = if ltb net_hdr_size len then as_i32 (len - net_hdr_size) else pos 0
result_of transmit len = pos 0

-- The used entries that the driver has not taken yet.
abbrev pub backlog : VirtQueue → ℕ
backlog q = (q.mem.used_idx + 2 ^ 16 - q.last_used_idx) % 2 ^ 16

module _ {S : Type 0} (io : RingServer S) (side : Side) where
  -- One used entry: the request of the slot that it names is answered, and its chain is freed. A slot that
  -- is empty is passed over.
  unfoldable pub finish_one :
      ℕ
      → ℕ
      → VirtQueue
      → List (Option (ℕ × ℕ))
      → S
      → Outcome (VirtQueue × List (Option (ℕ × ℕ)) × S)
  finish_one id len q pending server = elim (get_elem? pending id) [
    | none ↦ fault
    | some none ↦ done (q, pending, server)
    | some (some (user_data, head)) ↦ elim (free_chain q.num q head) [
      | fault ↦ fault
      | done q' ↦
          done (q', set pending id none, (io.complete server user_data (result_of side len)).1)
    ]
  ]

  -- `while let Some(…) = queue.pop()`; the fuel counts rounds.
  unfoldable pub drain_loop :
      ℕ → VirtQueue → List (Option (ℕ × ℕ)) → S → Outcome (VirtQueue × List (Option (ℕ × ℕ)) × S)
  drain_loop zero q pending server = fault
  drain_loop (suc fuel) q pending server = elim (Queue.pop q) [
    | fault ↦ fault
    | done (none, q') ↦ done (q', pending, server)
    | done (some (id, len), q') ↦ elim (finish_one id len q' pending server) [
      | fault ↦ fault
      | done (q'', pending', server') ↦ drain_loop fuel q'' pending' server'
    ]
  ]

  unfoldable pub drain :
      VirtQueue → List (Option (ℕ × ℕ)) → S → Outcome (VirtQueue × List (Option (ℕ × ℕ)) × S)
  drain q pending server = drain_loop (suc (backlog q)) q pending server
