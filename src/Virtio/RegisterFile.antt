-- ===== src/Virtio/RegisterFile.antt =====
-- The register file of a virtio 1.0 device as its specification describes it, as far as the
-- transport writes it: what a driver's register accesses are meant to bring about.
use glenda_drivers.Prelude.{
  ℕ, ◌+◌, ◌-◌, ◌/◌, ◌%◌, ◌^◌, ◌≡◌, ap, arith, List, ◌∷◌, ◌==◌, if◌then◌else◌,
}
use glenda_drivers.Mmio.{Bus}
use glenda_drivers.Virtio.Consts.{
  off_magic, off_device_features, off_device_features_sel, off_driver_features,
  off_driver_features_sel, off_queue_sel, off_queue_num, off_queue_ready, off_queue_notify,
  off_status, off_queue_desc_low, off_queue_desc_high, off_queue_driver_low, off_queue_driver_high,
  off_queue_device_low, off_queue_device_high, off_interrupt_status, off_interrupt_ack, off_version,
  magic_value,
}

pub record QueueRegs : Type 0 where
  pub num : ℕ
  pub desc_low : ℕ
  pub desc_high : ℕ
  pub driver_low : ℕ
  pub driver_high : ℕ
  pub device_low : ℕ
  pub device_high : ℕ
  pub ready : ℕ

pub record Registers : Type 0 where
  pub status : ℕ
  pub device_features : ℕ
  pub device_features_sel : ℕ
  pub driver_features_sel : ℕ
  pub driver_low : ℕ
  pub driver_high : ℕ
  pub interrupt_status : ℕ
  pub queue_sel : ℕ
  pub queues : ℕ → QueueRegs
  pub notified : List ℕ

abbrev change_queue : (QueueRegs → QueueRegs) → Registers → Registers
change_queue f r = record r {
  queues = λ i. if i == r.queue_sel then f (r.queues i) else r.queues i;
}

unfoldable pub write_at : ℕ → ℕ → Registers → Registers
write_at off v r =
    if off == off_queue_sel
    then record r { queue_sel = v }
    else if off == off_queue_num
    then change_queue (λ q. record q { num = v }) r
    else if off == off_queue_desc_low
    then change_queue (λ q. record q { desc_low = v }) r
    else if off == off_queue_desc_high
    then change_queue (λ q. record q { desc_high = v }) r
    else if off == off_queue_driver_low
    then change_queue (λ q. record q { driver_low = v }) r
    else if off == off_queue_driver_high
    then change_queue (λ q. record q { driver_high = v }) r
    else if off == off_queue_device_low
    then change_queue (λ q. record q { device_low = v }) r
    else if off == off_queue_device_high
    then change_queue (λ q. record q { device_high = v }) r
    else if off == off_queue_ready
    then change_queue (λ q. record q { ready = v }) r
    else if off == off_queue_notify
    then record r { notified = v ∷ r.notified }
    else if off == off_status
    then record r { status = v }
    else if off == off_device_features_sel
    then record r { device_features_sel = v }
    else if off == off_driver_features_sel
    then record r { driver_features_sel = v }
    else if off == off_driver_features
    then (if r.driver_features_sel == 0
        then record r { driver_low = v }
        else record r { driver_high = v })
    else if off == off_interrupt_ack
    then record r { interrupt_status = r.interrupt_status - v }
    else r

unfoldable pub read_at : ℕ → Registers → ℕ
read_at off r =
    if off == off_magic
    then magic_value
    else if off == off_version
    then 2
    else if off == off_status
    then r.status
    else if off == off_interrupt_status
    then r.interrupt_status
    else if off == off_device_features
    then (if r.device_features_sel == 0
        then r.device_features % 2 ^ 32
        else r.device_features / 2 ^ 32 % 2 ^ 32)
    else 0

unfoldable pub register_bus : ℕ → Bus Registers
unfolding write_at read_at
register_bus base = record {
  read8 = λ a r. (0, r);
  write8 = λ a v r. r;
  read32 = λ a r. (read_at (a - base) r, r);
  write32 = λ a v r. write_at (a - base) v r;
  read64 = λ a r. (0, r);
}

-- An access at an offset from the base.
pub write32_lem :
    (base off v : ℕ) (r : Registers)
    → (register_bus base).write32 (base + off) v r ≡ write_at off v r
unfolding register_bus
write32_lem base off v r =
    ap (λ (t : ℕ). write_at t v r) {x = base + off - base} {y = off} (omega arith)

pub read32_lem :
    (base off : ℕ) (r : Registers) → (register_bus base).read32 (base + off) r ≡ (read_at off r, r)
unfolding register_bus
read32_lem base off r =
    ap {B = ℕ × Registers} (λ (t : ℕ). (read_at t r, r)) {x = base + off - base} {y = off}
      (omega arith)
