-- ===== src/Virtio/Transport/Tests.antt =====
-- Runs of the transport at concrete registers.
use glenda_drivers.Prelude.{ℕ, ◌≡◌, ◌≢◌, [], arith}
use glenda_drivers.Virtio.Queue.{VirtQueue, avail_offset, used_offset}
use glenda_drivers.Virtio.RegisterFile.{Registers, QueueRegs, register_bus}
use glenda_drivers.Virtio.Transport.{get_device_features, setup_queue}
use glenda_drivers.Virtio.Transport.Features.{get_device_features_whole}
use glenda_drivers.Virtio.Transport.QueueSetup.{
  desc_address, driver_address, device_address, setup_queue_configures,
}

abbrev unset : QueueRegs
unset = record {
  num = 0;
  desc_low = 0;
  desc_high = 0;
  driver_low = 0;
  driver_high = 0;
  device_low = 0;
  device_high = 0;
  ready = 0;
}

abbrev fresh : Registers
fresh = record {
  status = 0;
  device_features = 0x130000040;
  device_features_sel = 1;
  driver_features_sel = 1;
  driver_low = 0;
  driver_high = 0;
  interrupt_status = 1;
  queue_sel = 7;
  queues = λ i. unset;
  notified = [];
}

get_device_features_whole_example :
    (get_device_features (register_bus 0x10001000) 0x10001000 fresh).0 ≡ 0x130000040
get_device_features_whole_example = get_device_features_whole 0x10001000 fresh (omega arith)

abbrev queue128 : VirtQueue
queue128 = record {
  index = 0;
  num = 128;
  paddr = 0x180002000;
  last_used_idx = 0;
  free_head = 0;
  num_free = 128;
  mem = record { descs = []; avail_idx = 0; avail = []; used_idx = 0; used = [] };
}

setup_queue_configures_example :
    let r' = setup_queue (register_bus 0x10001000) 0x10001000 queue128 fresh in
    ((r'.queues 0).num ≡ 128)
    × (desc_address (r'.queues 0) ≡ 0x180002000)
    × (driver_address (r'.queues 0) ≡ 0x180002800)
    × (device_address (r'.queues 0) ≡ 0x180002908)
    × ((r'.queues 0).ready ≡ 1)
    × ((i : ℕ) → i ≢ 0 → (r'.queues i) ≡ fresh.queues i)
unfolding avail_offset used_offset
setup_queue_configures_example =
    setup_queue_configures 0x10001000 queue128 fresh (omega arith) (omega arith) (omega arith)
      (omega arith)
