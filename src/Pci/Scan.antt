-- ===== src/Pci/Scan.antt =====
-- bus/pci/src/driver.rs: base address registers, the description of a function, and the scan. Text
-- is modelled by what it prints: names and properties by the numbers in them, in order.
use glenda_drivers.Prelude.{
  ℕ, zero, suc, ◌+◌, ◌*◌, ◌/◌, ◌%◌, ◌^◌, min, max, bit_and, bit_or, Bool, true, false, not, ◌&&◌,
  Option, none, some, List, [], ◌∷◌, ◌++◌, ◌==◌, ltb, if◌then◌else◌,
}
use glenda_drivers.Prelude.Handlers.{Result, ok, err}
use glenda_drivers.Glenda.{Error, invalid_args}
use glenda_drivers.Mmio.{Bus}
use glenda_drivers.Pci.Platform.{
  PciPlatformOps, PlatformName, generic, detect, mapped_window_bytes, io_bar_cpu_base, map_intx_irq,
}
use glenda_drivers.Pci.Config.{
  read_u32, read_u16, read_u8, ensure_qemu_serial_intx_enabled, device_present, is_multifunction,
  pci_command_reg,
}

-- `MMIORegion`
pub record Region : Type 0 where
  pub base_addr : ℕ
  pub size : ℕ

abbrev pub some_region : ℕ → List Region
some_region base = if base == 0 then [] else record { base_addr = base; size = 0x1000 } ∷ []

abbrev pub is_wide : ℕ → Bool
is_wide v = not (v == 0) && ((bit_and v 1 == 0) && (bit_and (v / 2) 3 == 2))

-- A register of 64 bits, with the one after it.
unfoldable pub double : ℕ → ℕ → List Region
double v hi = some_region (bit_or (hi * 2 ^ 32 % 2 ^ 64) (bit_and v 0xfffffff0))

module _ (platform : PciPlatformOps) where
  abbrev pub io_region : ℕ → List Region
  io_region v = elim (io_bar_cpu_base platform) [
    | none ↦ []
    | some cpu ↦ record { base_addr = (cpu + bit_and v 0xfffffffc) % 2 ^ 64; size = 0x100 } ∷ []
  ]

  -- A register that stands alone.
  unfoldable pub single : ℕ → List Region
  single v =
      if v == 0
      then []
      else if not (bit_and v 1 == 0)
      then io_region v
      else some_region (bit_and v 0xfffffff0)

  module _ {D : Type 0} (io : Bus D) (base bus dev func : ℕ) where
    -- The loop of `parse_bars` from register `bar` on, with so many registers left.
    unfoldable pub bars_from : ℕ → ℕ → D → List Region × D
    bars_from zero bar d = ([], d)
    bars_from (suc zero) bar d =
        let (v, d1) = read_u32 io base bus dev func (0x10 + bar * 4) d in (single v, d1)
    bars_from (suc (suc left)) bar d =
        let (v, d1) = read_u32 io base bus dev func (0x10 + bar * 4) d in
        elim (is_wide v) [
          | true ↦
              let (hi, d2) = read_u32 io base bus dev func (0x10 + bar * 4 + 4) d1 in
              let (rest, d3) = bars_from left (bar + 2) d2 in (double v hi ++ rest, d3)
          | false ↦ let (rest, d2) = bars_from (suc left) (bar + 1) d1 in (single v ++ rest, d2)
        ]

    abbrev pub max_bars : ℕ → ℕ
    max_bars header_type = if bit_and header_type 0x7f == 1 then 2 else 6

    unfoldable pub parse_bars : ℕ → D → List Region × D
    parse_bars header_type d = bars_from (max_bars header_type) 0 d

-- `DeviceDescNode` of a function; `compatible` and the properties are texts of these numbers.
pub record PciNode : Type 0 where
  pub unit_addr : ℕ
  pub bus : ℕ
  pub device : ℕ
  pub function : ℕ
  pub vendor : ℕ
  pub device_id : ℕ
  pub class_code : ℕ
  pub subclass : ℕ
  pub prog_if : ℕ
  pub revision : ℕ
  pub header_type : ℕ
  pub ecam_base : ℕ
  pub platform : PlatformName
  pub mmio : List Region
  pub irq : List ℕ

-- `PciBusDriver`, without the handles of the service.
pub record PciBusDriver : Type 0 where
  pub ecam_base : ℕ
  pub ecam_size : ℕ
  pub ecam_phys : ℕ
  pub mapped_ecam_window : ℕ
  pub bus_count : ℕ
  pub platform : PciPlatformOps

abbrev pub new : PciBusDriver
new = record {
  ecam_base = 0;
  ecam_size = 0;
  ecam_phys = 0;
  mapped_ecam_window = 0;
  bus_count = 0;
  platform = generic;
}

abbrev pub ecam_map_va : ℕ
ecam_map_va = 0x40000000

-- `pgsize` and `align_up` are the glenda crate's; `mmio` and `map_page` are its answers. It returns
-- the number of pages.
unfoldable pub setup_ecam_mapping :
    ℕ
    → (ℕ → ℕ → ℕ)
    → Result Error (ℕ × ℕ)
    → (ℕ → Result Error (Unit {0}))
    → PciBusDriver
    → Result Error ℕ × PciBusDriver
setup_ecam_mapping pgsize align_up (err e) map_page s = (err e, s)
setup_ecam_mapping pgsize align_up (ok (paddr, size)) map_page s =
    if ltb size pgsize
    then (err invalid_args, s)
    else (let platform = detect paddr size in
        let s1 : PciBusDriver = record s {
          ecam_phys = paddr;
          ecam_size = size;
          platform = platform;
        } in
        let offset = paddr % pgsize in
        let window = mapped_window_bytes platform size in
        let pages = align_up (window + offset) pgsize / pgsize in
        elim (map_page pages) [
          | err e ↦ (err e, s1)
          | ok u ↦ (
            ok pages,
            record s1 {
              ecam_base = ecam_map_va + offset;
              mapped_ecam_window = window;
              bus_count = max 1 (window / 2 ^ 20);
            },
          )
        ])

module _ {D : Type 0} (io : Bus D) (s : PciBusDriver) where
  -- QEMU's serial card has a known window when its registers say nothing.
  abbrev pub with_fallback : ℕ → ℕ → List Region → List Region
  with_fallback vendor device (r ∷ rs) = r ∷ rs
  with_fallback vendor device [] =
      if (vendor == 0x1b36) && (device == 2)
      then elim (io_bar_cpu_base s.platform) [
        | none ↦ []
        | some cpu ↦ record { base_addr = cpu; size = 0x100 } ∷ []
      ]
      else []

  abbrev pub irqs_of : ℕ → ℕ → ℕ → ℕ → List ℕ
  irqs_of bus dev irq_line irq_pin =
      if not (irq_pin == 0) && (not (irq_line == 0) && not (irq_line == 0xff))
      then irq_line ∷ []
      else elim (map_intx_irq s.platform bus dev irq_pin) [ none ↦ [] | some irq ↦ irq ∷ [] ]

  unfoldable pub build_desc_node : ℕ → ℕ → ℕ → D → Option PciNode × D
  build_desc_node bus dev func d =
      let (present, d0) = device_present io s.ecam_base bus dev func d in
      if not present
      then (none, d0)
      else (let (vendor_id, d1) = read_u16 io s.ecam_base bus dev func 0x00 d0 in
          let (device_id, d2) = read_u16 io s.ecam_base bus dev func 0x02 d1 in
          let (revision, d3) = read_u8 io s.ecam_base bus dev func 0x08 d2 in
          let (prog_if, d4) = read_u8 io s.ecam_base bus dev func 0x09 d3 in
          let (subclass, d5) = read_u8 io s.ecam_base bus dev func 0x0a d4 in
          let (class_code, d6) = read_u8 io s.ecam_base bus dev func 0x0b d5 in
          let (header_type, d7) = read_u8 io s.ecam_base bus dev func 0x0e d6 in
          let (command, d8) = read_u16 io s.ecam_base bus dev func pci_command_reg d7 in
          let (irq_line, d9) = read_u8 io s.ecam_base bus dev func 0x3c d8 in
          let (irq_pin, d10) = read_u8 io s.ecam_base bus dev func 0x3d d9 in
          let d11 =
            ensure_qemu_serial_intx_enabled io s.ecam_base bus dev func vendor_id device_id d10 in
          let (bars, d12) = parse_bars s.platform io s.ecam_base bus dev func header_type d11 in
          (
            some (record {
              unit_addr = bit_or (bit_or (bus * 2 ^ 8) (dev * 2 ^ 3)) func;
              bus = bus;
              device = dev;
              function = func;
              vendor = vendor_id;
              device_id = device_id;
              class_code = class_code;
              subclass = subclass;
              prog_if = prog_if;
              revision = revision;
              header_type = bit_and header_type 0x7f;
              ecam_base = s.ecam_phys;
              platform = s.platform.name;
              mmio = with_fallback vendor_id device_id bars;
              irq = irqs_of bus dev irq_line irq_pin;
            }),
            d12,
          ))

  abbrev pub to_list : Option PciNode → List PciNode
  to_list none = []
  to_list (some n) = n ∷ []

  -- Functions `func ..`, with so many left.
  unfoldable pub scan_funcs : ℕ → ℕ → ℕ → ℕ → D → List PciNode × D
  scan_funcs zero bus dev func d = ([], d)
  scan_funcs (suc left) bus dev func d =
      let (node, d1) = build_desc_node bus dev func d in
      let (rest, d2) = scan_funcs left bus dev (func + 1) d1 in (to_list node ++ rest, d2)

  unfoldable pub scan_device : ℕ → ℕ → D → List PciNode × D
  scan_device bus dev d =
      let (present, d1) = device_present io s.ecam_base bus dev 0 d in
      if not present
      then ([], d1)
      else (let (node, d2) = build_desc_node bus dev 0 d1 in
          let (many, d3) = is_multifunction io s.ecam_base bus dev d2 in
          if many
          then (let (rest, d4) = scan_funcs 7 bus dev 1 d3 in (to_list node ++ rest, d4))
          else (to_list node, d3))

  unfoldable pub scan_devices : ℕ → ℕ → ℕ → D → List PciNode × D
  scan_devices zero bus dev d = ([], d)
  scan_devices (suc left) bus dev d =
      let (here, d1) = scan_device bus dev d in
      let (rest, d2) = scan_devices left bus (dev + 1) d1 in (here ++ rest, d2)

  unfoldable pub scan_buses : ℕ → ℕ → D → List PciNode × D
  scan_buses zero bus d = ([], d)
  scan_buses (suc left) bus d =
      let (here, d1) = scan_devices 32 bus 0 d in
      let (rest, d2) = scan_buses left (bus + 1) d1 in (here ++ rest, d2)

  -- The loops of `scan`, after `setup_ecam_mapping`.
  unfoldable pub scan : D → List PciNode × D
  scan d = scan_buses (min s.bus_count 256) 0 d
