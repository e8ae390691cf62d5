-- ===== src/Ramdisk/Driver.antt =====
-- sys/ramdisk/src/driver.rs. The driver's address space outside the disk is a function from addresses
-- to bytes; a copy that leaves the disk is a fault.
use glenda_drivers.Prelude.{
  ℕ, zero, suc, ◌+◌, ◌-◌, ◌*◌, ◌/◌, ◌%◌, ◌^◌, not, ◌||◌, Option, none, some, List, [], ◌∷◌, ◌++◌,
  ◌==◌, ltb, if◌then◌else◌, length, take, drop, Outcome, done, fault,
}
use glenda_drivers.Prelude.Int.{ℤ, pos, neg, as_i32}
use glenda_drivers.Prelude.Handlers.{Result, ok, err}
use glenda_drivers.Glenda.{
  Error, Sqe, Opcodes, SharedMemory, RingServer, invalid_args, not_supported,
}

abbrev pub Memory : Type 0
Memory = ℕ → ℕ

abbrev pub read_bytes : Memory → ℕ → ℕ → List ℕ
read_bytes m a zero = []
read_bytes m a (suc n) = m a ∷ read_bytes m (a + 1) n

abbrev pub write_bytes : Memory → ℕ → List ℕ → Memory
write_bytes m a [] = m
write_bytes m a (b ∷ bs) = λ x. if x == a then b else write_bytes m (a + 1) bs x

pub record Ramdisk (S : Type 0) : Type 0 where
  pub data_ : List ℕ
  pub block_size : ℕ
  pub ring : Option S
  pub buffer : Option SharedMemory
  pub memory : Memory

-- The client's address in the driver's address space, if the request lies in the shared memory.
unfoldable pub local_addr : Option SharedMemory → Sqe → Option ℕ
local_addr none sqe = some sqe.addr
local_addr (some shm) sqe =
    if ltb sqe.addr shm.client_vaddr
      || ltb ((shm.client_vaddr + shm.size) % 2 ^ 64) ((sqe.addr + sqe.len) % 2 ^ 64)
    then none
    else some ((shm.vaddr + (sqe.addr - shm.client_vaddr)) % 2 ^ 64)

module _ {S : Type 0} where
  abbrev pub new : List ℕ → Memory → Ramdisk S
  new bytes memory = record {
    data_ = bytes;
    block_size = 512;
    ring = none;
    buffer = none;
    memory = memory;
  }

  -- A block size of 0 panics.
  unfoldable pub capacity : Ramdisk S → Outcome ℕ
  capacity s = if s.block_size == 0 then fault else done (length s.data_ / s.block_size)

  abbrev pub set_block_size : ℕ → Ramdisk S → Ramdisk S
  set_block_size n s = record s { block_size = n }

  -- What `setup_buffer` stores once the pages are mapped at `buffer_va`.
  abbrev pub set_buffer : ℕ → ℕ → ℕ → ℕ → ℕ → Ramdisk S → Ramdisk S
  set_buffer buffer_va pgsize client_vaddr size paddr s =
      let pages = (size + pgsize - 1) % 2 ^ 64 / pgsize in
      record s {
        buffer = some (record {
          vaddr = buffer_va;
          client_vaddr = client_vaddr;
          paddr = paddr;
          size = pages * pgsize;
        });
      }

  -- `copy_nonoverlapping` from the disk, and to it.
  unfoldable pub copy_out : ℕ → ℕ → ℕ → Ramdisk S → Outcome (Ramdisk S)
  copy_out offset addr len s =
      if ltb (length s.data_) (offset + len)
      then fault
      else done (record s { memory = write_bytes s.memory addr (take len (drop offset s.data_)) })

  unfoldable pub copy_in : ℕ → ℕ → ℕ → Ramdisk S → Outcome (Ramdisk S)
  copy_in offset addr len s =
      if ltb (length s.data_) (offset + len)
      then fault
      else done (record s {
        data_ =
            take offset s.data_ ++ (read_bytes s.memory addr len ++ drop (offset + len) s.data_);
      })

  module _ (ops : Opcodes) (code : Error → ℕ) where
    -- The copies of `process_sqe`; `code` gives the numbers of the errors.
    unfoldable pub transfer : Sqe → ℕ → ℕ → Ramdisk S → Outcome (ℤ × Ramdisk S)
    transfer sqe addr offset s =
        if sqe.opcode == ops.op_read
        then elim (copy_out offset addr sqe.len s) [
          | fault ↦ fault
          | done s' ↦ done (as_i32 sqe.len, s')
        ]
        else if sqe.opcode == ops.op_write
        then elim (copy_in offset addr sqe.len s) [
          | fault ↦ fault
          | done s' ↦ done (as_i32 sqe.len, s')
        ]
        else if sqe.opcode == ops.op_sync
        then done (pos 0, s)
        else done (neg (code not_supported), s)

    -- The product and the sum wrap on 64 bits.
    unfoldable pub process_sqe : Sqe → Ramdisk S → Outcome (ℤ × Ramdisk S)
    process_sqe sqe s =
        if s.block_size == 0
        then fault
        else if not (sqe.len % s.block_size == 0)
        then done (neg (code invalid_args), s)
        else elim (local_addr s.buffer sqe) [
          | none ↦ done (neg (code invalid_args), s)
          | some addr ↦
              let offset = sqe.off * s.block_size % 2 ^ 64 in
              if ltb (length s.data_) ((offset + sqe.len) % 2 ^ 64)
              then done (neg (code invalid_args), s)
              else transfer sqe addr offset s
        ]

    -- The loop of `handle_io`; it ends when the ring has no request left. An answer that fails ends it
    -- with its error.
    unfoldable pub handle_io :
        RingServer S → ℕ → Ramdisk S → Outcome (Result Error (Unit {0}) × Ramdisk S)
    handle_io io zero s = fault
    handle_io io (suc fuel) s = elim s.ring [
      | none ↦ done (ok tt, s)
      | some server ↦
          let (sqe?, server') = io.next_request server in
          elim sqe? [
            | none ↦ done (ok tt, record s { ring = some server' })
            | some sqe ↦ elim (process_sqe sqe (record s { ring = some server' })) [
              | fault ↦ fault
              | done (res, s') ↦
                  let (answered, server'') = io.complete server' sqe.user_data res in
                  let s'' : Ramdisk S = record s' { ring = some server'' } in
                  elim answered [ err e ↦ done (err e, s'') | ok u ↦ handle_io io fuel s'' ]
            ]
          ]
    ]
