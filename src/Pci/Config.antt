-- ===== src/Pci/Config.antt =====
-- bus/pci/src/driver.rs: accesses to the configuration space. `base` is `ecam_base`.
use glenda_drivers.Prelude.{
  ℕ, ◌+◌, ◌-◌, ◌*◌, ◌/◌, ◌%◌, ◌^◌, bit_and, bit_or, Bool, not, ◌||◌, ◌==◌, if◌then◌else◌,
}
use glenda_drivers.Mmio.{Bus}

unfoldable pub cfg_off : ℕ → ℕ → ℕ → ℕ → ℕ
cfg_off bus dev func reg =
    bit_or (bit_or (bit_or (bus * 2 ^ 20) (dev * 2 ^ 15)) (func * 2 ^ 12)) reg

abbrev pub pci_command_reg : ℕ
pci_command_reg = 4

abbrev pub pci_command_io_enable : ℕ
pci_command_io_enable = 1

abbrev pub pci_command_intx_disable : ℕ
pci_command_intx_disable = 2 ^ 10

abbrev pub qemu_pci_vendor_id : ℕ
qemu_pci_vendor_id = 0x1b36

abbrev pub qemu_pci_serial_device_id : ℕ
qemu_pci_serial_device_id = 2

-- `reg & !0x3` on `usize`.
abbrev pub aligned : ℕ → ℕ
aligned reg = bit_and reg (2 ^ 64 - 4)

-- `word & !(0xffff << shift) | val << shift` on `u32`.
unfoldable pub merge : ℕ → ℕ → ℕ → ℕ
merge shift word val =
    bit_or (bit_and word (2 ^ 32 - 1 - 0xffff * 2 ^ shift % 2 ^ 32)) (val * 2 ^ shift % 2 ^ 32)

module _ {D : Type 0} (io : Bus D) (base : ℕ) (bus dev func : ℕ) where
  abbrev pub cfg_addr : ℕ → ℕ
  cfg_addr reg = base + cfg_off bus dev func reg

  unfoldable pub read_u32 : ℕ → D → ℕ × D
  read_u32 reg d = io.read32 (cfg_addr reg) d

  unfoldable pub read_u16 : ℕ → D → ℕ × D
  unfolding read_u32
  read_u16 reg d =
      let (word, d1) = read_u32 (aligned reg) d in
      (bit_and (word / 2 ^ (bit_and reg 2 * 8)) 0xffff, d1)

  unfoldable pub read_u8 : ℕ → D → ℕ × D
  unfolding read_u32
  read_u8 reg d =
      let (word, d1) = read_u32 (aligned reg) d in
      (bit_and (word / 2 ^ (bit_and reg 3 * 8)) 0xff, d1)

  unfoldable pub write_u16 : ℕ → ℕ → D → D
  unfolding read_u32
  write_u16 reg val d =
      let (word, d1) = read_u32 (aligned reg) d in
      io.write32 (cfg_addr (aligned reg)) (merge (bit_and reg 2 * 8) word val) d1

  -- I/O space on, INTx not disabled, in the command register of QEMU's serial card only.
  unfoldable pub ensure_qemu_serial_intx_enabled : ℕ → ℕ → D → D
  unfolding read_u16 write_u16
  ensure_qemu_serial_intx_enabled vendor device d =
      if not (vendor == qemu_pci_vendor_id) || not (device == qemu_pci_serial_device_id)
      then d
      else (let (before, d1) = read_u16 pci_command_reg d in
          let after =
            bit_and (bit_or before pci_command_io_enable) (2 ^ 16 - 1 - pci_command_intx_disable) in
          if not (before == after)
          then (let (verify, d2) = read_u16 pci_command_reg (write_u16 pci_command_reg after d1) in
              d2)
          else d1)

  unfoldable pub device_present : D → Bool × D
  unfolding read_u16
  device_present d = let (vendor, d1) = read_u16 0 d in (not (vendor == 0xffff), d1)

-- It looks at function 0.
unfoldable pub is_multifunction : {D : Type 0} → Bus D → ℕ → ℕ → ℕ → D → Bool × D
unfolding read_u8
is_multifunction io base bus dev d =
    let (header, d1) = read_u8 io base bus dev 0 0x0e d in (not (bit_and header 0x80 == 0), d1)
