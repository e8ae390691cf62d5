-- ===== src/Virtio/Transport/Features.antt =====
-- Feature negotiation and interrupts against the registers of the virtio specification.
use glenda_drivers.Prelude.{ℕ, ◌/◌, ◌%◌, ◌^◌, ◌<◌, ◌≡◌, arith, ◌==◌, not}
use glenda_drivers.Prelude.Bits.{or_fields}
use glenda_drivers.Virtio.RegisterFile.{
  Registers, register_bus, write_at, read_at, write32_lem, read32_lem,
}
use glenda_drivers.Virtio.Transport.{get_device_features, interrupt_ack}

-- The driver reads the device's 64 feature bits whole, whatever was selected before.
pub get_device_features_whole :
    (base : ℕ) (r : Registers)
    → r.device_features < 2 ^ 64
    → (get_device_features (register_bus base) base r).0 ≡ r.device_features
unfolding get_device_features write_at read_at
get_device_features_whole base r h =
    simp (write32_lem, read32_lem)
      (ground
        (arith, or_fields 32 (r.device_features / 2 ^ 32 % 2 ^ 32) (r.device_features % 2 ^ 32)))

-- `interrupt_ack` tells whether an interrupt was pending, and leaves none pending.
pub interrupt_ack_clears :
    (base : ℕ) (r : Registers)
    → r.interrupt_status < 2 ^ 32
    → ((interrupt_ack (register_bus base) base r).0 ≡ not (r.interrupt_status == 0))
      × ((interrupt_ack (register_bus base) base r).1.interrupt_status ≡ 0)
unfolding interrupt_ack write_at read_at
interrupt_ack_clears base r h = simp (write32_lem, read32_lem) (ground arith)
