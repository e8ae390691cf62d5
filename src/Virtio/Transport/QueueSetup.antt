-- ===== src/Virtio/Transport/QueueSetup.antt =====
-- `setup_queue` against the queue registers of the virtio specification.
use glenda_drivers.Prelude.{
  ℕ, ◌+◌, ◌*◌, ◌/◌, ◌%◌, ◌^◌, ◌<◌, ◌≡◌, refl, arith, ◌==◌, ◌≢◌, if◌then◌else◌,
}
use glenda_drivers.Virtio.Queue.{VirtQueue, avail_offset, used_offset}
use glenda_drivers.Virtio.RegisterFile.{Registers, QueueRegs, register_bus, write_at, write32_lem}
use glenda_drivers.Virtio.Transport.{setup_queue}

-- What a queue's registers say, with each address put together from its halves.
abbrev pub desc_address : QueueRegs → ℕ
desc_address q = q.desc_high * 2 ^ 32 + q.desc_low

abbrev pub driver_address : QueueRegs → ℕ
driver_address q = q.driver_high * 2 ^ 32 + q.driver_low

abbrev pub device_address : QueueRegs → ℕ
device_address q = q.device_high * 2 ^ 32 + q.device_low

-- The queue registers that `setup_queue` writes.
configured : VirtQueue → QueueRegs
configured vq = record {
  num = vq.num % 2 ^ 32;
  desc_low = vq.paddr % 2 ^ 32;
  desc_high = vq.paddr / 2 ^ 32 % 2 ^ 32;
  driver_low = (vq.paddr + avail_offset vq.num) % 2 ^ 64 % 2 ^ 32;
  driver_high = (vq.paddr + avail_offset vq.num) % 2 ^ 64 / 2 ^ 32 % 2 ^ 32;
  device_low = (vq.paddr + used_offset vq.num) % 2 ^ 64 % 2 ^ 32;
  device_high = (vq.paddr + used_offset vq.num) % 2 ^ 64 / 2 ^ 32 % 2 ^ 32;
  ready = 1;
}

setup_queue_writes :
    (base : ℕ) (vq : VirtQueue) (r : Registers) (i : ℕ)
    → (setup_queue (register_bus base) base vq r).queues i
      ≡ (if i == vq.index % 2 ^ 32 then configured vq else r.queues i)
unfolding setup_queue write_at configured
setup_queue_writes base vq r i = simp write32_lem (ground arith)

-- After `setup_queue` the device finds the queue `vq.index` enabled, with `vq.num` entries, its
-- descriptor table at `vq.paddr`, and its rings at the offsets at which the driver accesses them.
-- The registers of the other queues are as before.
pub setup_queue_configures :
    (base : ℕ) (vq : VirtQueue) (r : Registers)
    → vq.index < 2 ^ 32
    → vq.num < 2 ^ 16
    → vq.paddr + avail_offset vq.num < 2 ^ 64
    → vq.paddr + used_offset vq.num < 2 ^ 64
    → let r' = setup_queue (register_bus base) base vq r in
      ((r'.queues vq.index).num ≡ vq.num)
      × (desc_address (r'.queues vq.index) ≡ vq.paddr)
      × (driver_address (r'.queues vq.index) ≡ vq.paddr + avail_offset vq.num)
      × (device_address (r'.queues vq.index) ≡ vq.paddr + used_offset vq.num)
      × ((r'.queues vq.index).ready ≡ 1)
      × ((i : ℕ) → i ≢ vq.index → r'.queues i ≡ r.queues i)
unfolding configured
setup_queue_configures base vq r hi hn ha hu =
    let own : (setup_queue (register_bus base) base vq r).queues vq.index ≡ configured vq =
      rw (setup_queue_writes base vq r vq.index) (ground arith) in
    rw own (
      omega arith,
      omega arith,
      omega arith,
      omega arith,
      refl,
      (λ i ne. rw (setup_queue_writes base vq r i) (ground arith)),
    )
