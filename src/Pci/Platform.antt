-- ===== src/Pci/Platform.antt =====
-- bus/pci/src/platform.rs: what differs between host bridges. A platform is known by its name here
-- too, as a constructor.
use glenda_drivers.Prelude.{
  ℕ, ◌+◌, ◌-◌, ◌%◌, ◌^◌, min, bit_and, not, ◌||◌, Option, none, some, ◌==◌, leb, if◌then◌else◌,
}

pub data PlatformName : Type 0 where
  generic_pci_host qemu_virt_pcie loongson_ls2k_pcie : PlatformName

pub data IntxRouting : Type 0 where
  unrouted : IntxRouting
  qemu_plic_swizzle : ℕ → ℕ → ℕ → IntxRouting

pub record PciPlatformOps : Type 0 where
  pub name : PlatformName
  pub io_base : Option ℕ
  pub max_scan_window_bytes : ℕ
  pub intx_routing : IntxRouting

abbrev pub generic : PciPlatformOps
generic = record {
  name = generic_pci_host;
  io_base = none;
  max_scan_window_bytes = 2 ^ 20;
  intx_routing = unrouted;
}

unfoldable pub detect : ℕ → ℕ → PciPlatformOps
detect ecam_phys ecam_size =
    if ecam_phys == 0x30000000
    then record {
      name = qemu_virt_pcie;
      io_base = some 0x03000000;
      max_scan_window_bytes = 2 ^ 20;
      intx_routing = qemu_plic_swizzle 0x30000000 0 32;
    }
    else if ecam_phys == 0x1a000000
    then record {
      name = loongson_ls2k_pcie;
      io_base = some 0x18008000;
      max_scan_window_bytes = 2 ^ 20;
      intx_routing = unrouted;
    }
    else generic

unfoldable pub mapped_window_bytes : PciPlatformOps → ℕ → ℕ
mapped_window_bytes p ecam_size = min ecam_size p.max_scan_window_bytes

abbrev pub io_bar_cpu_base : PciPlatformOps → Option ℕ
io_bar_cpu_base p = p.io_base

unfoldable pub map_intx_irq : PciPlatformOps → ℕ → ℕ → ℕ → Option ℕ
map_intx_irq p bus dev irq_pin =
    if not (leb 1 irq_pin) || not (leb irq_pin 4) then none else elim p.intx_routing [
      | unrouted ↦ none
      | qemu_plic_swizzle ecam expected_bus base_irq ↦
          if not (bus == expected_bus)
          then none
          else some ((base_irq + bit_and (dev + irq_pin - 1) 3) % 2 ^ 64)
    ]
