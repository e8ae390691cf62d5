-- ===== src/Virtio/Block/Request.antt =====
-- virtio/block/src/blk.rs: `submit_virtio_request`.
use glenda_drivers.Prelude.{
  ℕ, suc, ◌+◌, ◌-◌, ◌*◌, ◌%◌, ◌^◌, bit_or, Bool, true, false, not, ◌||◌, Option, none, some, List,
  [], ◌∷◌, ◌==◌, ltb, if◌then◌else◌, set, done, fault,
}
use glenda_drivers.Prelude.Handlers.{
  Result, ok, err, Handler, pure, ok_or, get, modify, ensure, assert, ◌>>=◌, ◌>>◌,
}
use glenda_drivers.Glenda.{
  Error, invalid_args, not_supported, out_of_memory, not_initialized, Sqe, Opcodes, SharedMemory,
}
use glenda_drivers.Mmio.{Bus}
use glenda_drivers.Virtio.Queue.{VirtQueue, desc_f_next, desc_f_write}
use glenda_drivers.Virtio.Chains.{take_desc, put_desc, offer}
use glenda_drivers.Virtio.Transport
use glenda_drivers.Virtio.Block.State.{VirtIoBlk, blk_req_size, virtio_blk_t_in, virtio_blk_t_out}

-- `iter().position(…)`
unfoldable pub position {ℓ} : {A : Type ℓ} → (A → Bool) → List A → Option ℕ
position p [] = none
position p (x ∷ xs) =
    let rest = position p xs in
    if p x then some 0 else elim rest [ none ↦ none | some i ↦ some (suc i) ]

unfoldable pub is_none {ℓ} : {A : Type ℓ} → Option A → Bool
is_none none = true
is_none (some a) = false

-- `Err(InvalidArgs)` if a request lies outside the shared memory, else its physical address. With
-- no shared memory the client's address is taken as it is. Sums wrap on 64 bits.
unfoldable pub data_paddr : Option SharedMemory → Sqe → Result Error ℕ
data_paddr none sqe = ok sqe.addr
data_paddr (some shm) sqe =
    if ltb sqe.addr shm.client_vaddr
      || ltb ((shm.client_vaddr + shm.size) % 2 ^ 64) ((sqe.addr + sqe.len) % 2 ^ 64)
    then err invalid_args
    else ok ((shm.paddr + (sqe.addr - shm.client_vaddr)) % 2 ^ 64)

-- The three descriptors of a request: header, data, status; it returns the head.
unfoldable pub queue_request : ℕ → ℕ → ℕ → ℕ → Bool → Handler VirtQueue Error ℕ
queue_request req_paddr data_paddr' len status_paddr is_write = do
  d1 ← take_desc out_of_memory
  d2 ← take_desc out_of_memory
  d3 ← take_desc out_of_memory
  put_desc d1 (record { addr = req_paddr; len = blk_req_size; flags = desc_f_next; next = d2 })
  let flags = if is_write then desc_f_next else bit_or desc_f_next desc_f_write
  put_desc d2 (record { addr = data_paddr'; len = len; flags = flags; next = d3 })
  put_desc d3 (record { addr = status_paddr; len = 1; flags = desc_f_write; next = 0 })
  offer d1
  pure d1

-- The request type and direction of an opcode.
abbrev pub direction : Opcodes → ℕ → Option (ℕ × Bool)
direction ops op =
    if op == ops.op_read
    then some (virtio_blk_t_in, false)
    else if op == ops.op_write
    then some (virtio_blk_t_out, true)
    else none

module _ {S D : Type 0} where
  -- A computation on `self.queue`, which is there.
  abbrev pub on_queue : {A : Type 0} → Handler VirtQueue Error A → Handler (VirtIoBlk S D) Error A
  on_queue m s = elim s.queue [
    | none ↦ done (err not_initialized, s)
    | some q ↦ elim (m q) [ fault ↦ fault | done (r, q') ↦ done (r, record s { queue = some q' }) ]
  ]

module _ {S D : Type 0} (bus : Bus D) (base : ℕ) (ops : Opcodes) where
  unfoldable pub submit_virtio_request : Sqe → Handler (VirtIoBlk S D) Error (Unit {0})
  submit_virtio_request sqe = do
    s ← get
    assert (not (s.blk_size == 0))
    ensure (sqe.len % s.blk_size == 0) invalid_args
    queue ← ok_or s.queue not_initialized
    req_idx ← ok_or (position is_none s.pending_info) out_of_memory
    ensure (not (s.dma_vaddr == 0)) not_initialized
    kind ← ok_or (direction ops sqe.opcode) not_supported
    modify (λ s. record s {
      reqs = set s.reqs req_idx (record { type_ = kind.0; reserved = 0; sector = sqe.off });
      status = set s.status req_idx 0xff;
    })
    let req_paddr = (s.dma_paddr + req_idx * blk_req_size) % 2 ^ 64
    let status_paddr = (s.dma_paddr + (64 * blk_req_size + req_idx)) % 2 ^ 64
    paddr ← (λ s'. done (data_paddr s.buffer sqe, s'))
    d1 ← on_queue (queue_request req_paddr paddr sqe.len status_paddr kind.1)
    modify (λ s. record s {
      pending_info = set s.pending_info req_idx (some (sqe.user_data, d1));
      device = Transport.notify bus base 0 s.device;
    })
