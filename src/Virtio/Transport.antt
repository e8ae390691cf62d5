-- ===== src/Virtio/Transport.antt =====
-- virtio/common/src/transport.rs (and `VirtIoError` of lib.rs): the virtio register file. A method
-- that only reads still returns the device, which a read may change.
pub mod QueueSetup
pub mod Features
mod Tests
use glenda_drivers.Prelude.{
  ℕ, ◌+◌, ◌*◌, ◌/◌, ◌%◌, ◌^◌, bit_and, bit_or, Bool, true, false, not, ◌==◌, if◌then◌else◌,
}
use glenda_drivers.Prelude.Handlers.{Result, ok, err}
use glenda_drivers.Mmio.{Bus}
use glenda_drivers.Virtio.Queue.{VirtQueue, avail_offset, used_offset}
use glenda_drivers.Virtio.Consts.{
  magic_value, off_magic, off_version, off_device_id, off_vendor_id, off_device_features,
  off_device_features_sel, off_driver_features, off_driver_features_sel, off_queue_sel,
  off_queue_num_max, off_queue_num, off_queue_ready, off_queue_notify, off_interrupt_status,
  off_interrupt_ack, off_status, off_queue_desc_low, off_queue_desc_high, off_queue_driver_low,
  off_queue_driver_high, off_queue_device_low, off_queue_device_high, off_config,
}

pub data VirtIoError : Type 0 where
  device_not_found invalid_header queue_too_small oom : VirtIoError

-- `VirtIOTransport` is its base address.
module _ {D : Type 0} (bus : Bus D) (base : ℕ) where
  unfoldable pub read_reg : ℕ → D → ℕ × D
  read_reg offset d = bus.read32 (base + offset) d

  -- The value is a `u32`.
  unfoldable pub write_reg : ℕ → ℕ → D → D
  write_reg offset val d = bus.write32 (base + offset) (val % 2 ^ 32) d

  -- Both outcomes of the version test go on.
  unfoldable pub new : D → Result VirtIoError ℕ × D
  unfolding read_reg
  new d =
      let (magic, d1) = read_reg off_magic d in
      if not (magic == magic_value)
      then (err invalid_header, d1)
      else (let (version, d2) = read_reg off_version d1 in (ok base, d2))

  unfoldable pub get_device_id : D → ℕ × D
  unfolding read_reg
  get_device_id d = read_reg off_device_id d

  unfoldable pub get_vendor_id : D → ℕ × D
  unfolding read_reg
  get_vendor_id d = read_reg off_vendor_id d

  unfoldable pub get_status : D → ℕ × D
  unfolding read_reg
  get_status d = read_reg off_status d

  unfoldable pub set_status : ℕ → D → D
  unfolding write_reg
  set_status status d = write_reg off_status status d

  unfoldable pub add_status : ℕ → D → D
  unfolding get_status set_status
  add_status status d = let (old, d1) = get_status d in set_status (bit_or old status) d1

  unfoldable pub read_config : ℕ → D → ℕ × D
  read_config offset d = bus.read8 (base + off_config + offset) d

  unfoldable pub write_config : ℕ → ℕ → D → D
  write_config offset val d =
      let (dummy, d1) = bus.read8 (base + off_config + offset) d in
      bus.write8 (base + off_config + offset) val d1

  -- `get_device_features` and `get_features`
  unfoldable pub get_device_features : D → ℕ × D
  unfolding read_reg write_reg
  get_device_features d =
      let (low, d1) = read_reg off_device_features (write_reg off_device_features_sel 0 d) in
      let (high, d2) = read_reg off_device_features (write_reg off_device_features_sel 1 d1) in
      (bit_or (high * 2 ^ 32 % 2 ^ 64) low, d2)

  -- `set_driver_features` and `set_features`
  unfoldable pub set_driver_features : ℕ → D → D
  unfolding write_reg
  set_driver_features features d = write_reg off_driver_features (features / 2 ^ 32) (
      write_reg off_driver_features_sel 1
        (write_reg off_driver_features features (write_reg off_driver_features_sel 0 d)))

  unfoldable pub interrupt_ack : D → Bool × D
  unfolding read_reg write_reg
  interrupt_ack d =
      let (status, d1) = read_reg off_interrupt_status d in
      if not (status == 0) then (true, write_reg off_interrupt_ack status d1) else (false, d1)

  unfoldable pub ack_interrupt : D → ℕ × D
  unfolding read_reg write_reg
  ack_interrupt d =
      let (status, d1) = read_reg off_interrupt_status d in
      (status, write_reg off_interrupt_ack status d1)

  -- `notify` and `notify_queue`
  unfoldable pub notify : ℕ → D → D
  unfolding write_reg
  notify queue_idx d = write_reg off_queue_notify queue_idx d

  unfoldable pub write_queue_sel : ℕ → D → D
  unfolding write_reg
  write_queue_sel idx d = write_reg off_queue_sel idx d

  unfoldable pub read_queue_max : D → ℕ × D
  unfolding read_reg
  read_queue_max d = read_reg off_queue_num_max d

  unfoldable pub write_queue_num : ℕ → D → D
  unfolding write_reg
  write_queue_num num d = write_reg off_queue_num num d

  unfoldable pub write_queue_desc : ℕ → D → D
  unfolding write_reg
  write_queue_desc addr d =
      write_reg off_queue_desc_high (addr / 2 ^ 32) (write_reg off_queue_desc_low addr d)

  unfoldable pub write_queue_driver : ℕ → D → D
  unfolding write_reg
  write_queue_driver addr d =
      write_reg off_queue_driver_high (addr / 2 ^ 32) (write_reg off_queue_driver_low addr d)

  unfoldable pub write_queue_device : ℕ → D → D
  unfolding write_reg
  write_queue_device addr d =
      write_reg off_queue_device_high (addr / 2 ^ 32) (write_reg off_queue_device_low addr d)

  unfoldable pub write_queue_ready : ℕ → D → D
  unfolding write_reg
  write_queue_ready ready d = write_reg off_queue_ready ready d

  -- `vq.paddr + offset` wraps on 64 bits.
  unfoldable pub setup_queue : VirtQueue → D → D
  unfolding write_queue_sel write_queue_num write_queue_desc write_queue_driver write_queue_device
      write_queue_ready
  setup_queue vq d =
      let d1 = write_queue_num vq.num (write_queue_sel vq.index d) in
      let d2 = write_queue_desc vq.paddr d1 in
      let d3 = write_queue_driver ((vq.paddr + avail_offset vq.num) % 2 ^ 64) d2 in
      let d4 = write_queue_device ((vq.paddr + used_offset vq.num) % 2 ^ 64) d3 in
      write_queue_ready 1 d4

  abbrev pub config_ptr : ℕ
  config_ptr = base + off_config
