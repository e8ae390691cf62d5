-- ===== src/Virtio/Block/Driver.antt =====
-- virtio/block/src/blk.rs: starting the device, and what the service calls.
use glenda_drivers.Prelude.{
  ℕ, zero, suc, ◌+◌, ◌-◌, ◌%◌, ◌^◌, bit_and, bit_or, not, none, some, List, [], ◌∷◌, ◌==◌, ltb,
  if◌then◌else◌, length, Outcome, done, fault,
}
use glenda_drivers.Prelude.Int.{negsuc}
use glenda_drivers.Prelude.Handlers.{ok, err}
use glenda_drivers.Glenda.{Sqe, Opcodes, RingServer}
use glenda_drivers.Mmio.{Bus}
use glenda_drivers.Virtio.Consts.{
  status_acknowledge, status_driver, status_driver_ok, status_features_ok,
}
use glenda_drivers.Virtio.Queue
use glenda_drivers.Virtio.Queue.{VirtQueue, QueueMemory, Descriptor, desc_f_next, desc_f_write}
use glenda_drivers.Virtio.Transport
use glenda_drivers.Virtio.Block.State.{
  VirtIoBlk, virtio_f_ring_packed, virtio_f_event_idx, virtio_blk_f_blk_size,
}
use glenda_drivers.Virtio.Block.Request.{submit_virtio_request}
use glenda_drivers.Virtio.Block.Completion.{answer, pop_completions}

-- `virtio_f_event_idx` and `virtio_f_ring_packed` are refused, the rest is accepted.
abbrev pub accepted_features : ℕ → ℕ
accepted_features features =
    bit_and features (2 ^ 64 - 1 - bit_or virtio_f_event_idx virtio_f_ring_packed)

module _ {D : Type 0} (bus : Bus D) (base : ℕ) where
  -- Without the feature the size stays as it is.
  unfoldable pub read_blk_size : ℕ → ℕ → D → ℕ × D
  read_blk_size old features d =
      if not (bit_and features virtio_blk_f_blk_size == 0)
      then bus.read32 (Transport.config_ptr bus base + 20) d
      else (old, d)

module _ {S D : Type 0} (bus : Bus D) (base : ℕ) where
  -- `init` up to the queue: the features, and the block size that is read if the device offers it.
  abbrev pub negotiated : VirtIoBlk S D → VirtIoBlk S D
  negotiated s =
      let d0 = Transport.set_status bus base 0 s.device in
      let d1 = Transport.set_status bus base (bit_or status_acknowledge status_driver) d0 in
      let (offered, d2) = Transport.get_device_features bus base d1 in
      let features = accepted_features offered in
      let d3 = Transport.set_driver_features bus base features d2 in
      let (st, d4) = Transport.get_status bus base d3 in
      let d5 = Transport.set_status bus base (bit_or st status_features_ok) d4 in
      let (size, d6) = read_blk_size bus base s.blk_size features d5 in
      record s { blk_size = size; device = d6 }

  -- `init` from the queue on.
  abbrev pub started : ℕ → ℕ → VirtQueue → VirtIoBlk S D → VirtIoBlk S D
  started dma_vaddr dma_paddr q s =
      let d7 = Transport.setup_queue bus base q s.device in
      let (st, d8) = Transport.get_status bus base d7 in
      record s {
        dma_vaddr = dma_vaddr;
        dma_paddr = dma_paddr;
        queue = some q;
        device = Transport.set_status bus base (bit_or st status_driver_ok) d8;
      }

  -- The memory of the queue lies 8192 bytes into the DMA area.
  unfoldable pub init : ℕ → ℕ → QueueMemory → VirtIoBlk S D → Outcome (VirtIoBlk S D)
  init dma_vaddr dma_paddr mem s = elim (Queue.new 0 128 ((dma_paddr + 8192) % 2 ^ 64) mem) [
    | fault ↦ fault
    | done q ↦ done (started dma_vaddr dma_paddr q (negotiated s))
  ]

  unfoldable pub capacity : VirtIoBlk S D → ℕ × VirtIoBlk S D
  capacity s =
      let (sectors, d) = bus.read64 (Transport.config_ptr bus base) s.device in
      (sectors, record s { device = d })

module _ {S D : Type 0} (io : RingServer S) (bus : Bus D) (base : ℕ) (ops : Opcodes) where
  unfoldable pub handle_irq : VirtIoBlk S D → Outcome (VirtIoBlk S D)
  handle_irq s =
      let (pending, d) = Transport.interrupt_ack bus base s.device in
      let s' : VirtIoBlk S D = record s { device = d } in
      if pending then pop_completions io s' else done s'

  -- At most `n` requests, as the loop over the 16 entries of `sqes` takes them.
  unfoldable pub collect : ℕ → S → List Sqe × S
  collect zero server = ([], server)
  collect (suc n) server =
      let (sqe?, server') = io.next_request server in
      elim sqe? [
        | none ↦ ([], server')
        | some sqe ↦ let (rest, server'') = collect n server' in (sqe ∷ rest, server'')
      ]

  unfoldable pub submit_all : List Sqe → VirtIoBlk S D → Outcome (VirtIoBlk S D)
  submit_all [] s = done s
  submit_all (sqe ∷ rest) s = elim (submit_virtio_request bus base ops sqe s) [
    | fault ↦ fault
    | done (ok u, s') ↦ submit_all rest s'
    | done (err e, s') ↦ submit_all rest (answer io sqe.user_data (negsuc 0) s')
  ]

  unfoldable pub handle_ring : VirtIoBlk S D → Outcome (VirtIoBlk S D)
  handle_ring s = elim s.ring_server [
    | none ↦ done s
    | some server ↦
        let (sqes, server') = collect 16 server in
        elim (submit_all sqes (record s { ring_server = some server' })) [
          | fault ↦ fault
          | done s' ↦ if ltb 0 (length sqes) then pop_completions io s' else done s'
        ]
  ]
