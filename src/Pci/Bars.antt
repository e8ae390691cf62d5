-- ===== src/Pci/Bars.antt =====
-- `parse_bars` reads back the regions that a list of base address registers was written for.
use mathlib.Core.List.{append-nil}
use glenda_drivers.Prelude.{
  ℕ, zero, suc, ◌+◌, ◌-◌, ◌*◌, ◌/◌, ◌%◌, ◌^◌, ◌<◌, ◌≡◌, refl, sym, ap, ap₂, subst, ◌∙◌, arith,
  bit_and, bit_or, Bool, true, false, none, some, List, [], ◌∷◌, ◌++◌, ◌==◌, if◌then◌else◌, length,
}
use glenda_drivers.Prelude.Bits.{or_fields, and_shifted, and_mask}
use glenda_drivers.Pci.Platform.{PciPlatformOps, io_bar_cpu_base}
use glenda_drivers.Pci.Config.{read_u32, cfg_addr}
use glenda_drivers.Pci.Scan.{Region, some_region, single, is_wide, double, bars_from, parse_bars}
use glenda_drivers.Pci.Space.{Space, space_bus}

-- What the PCI standard lets a register say: nothing, an I/O range, a range of memory in 32 bits, or
-- one in 64 bits that takes two registers.
pub data Bar : Type 0 where
  unused : Bar
  io_bar : ℕ → Bar
  memory : ℕ → Bar
  wide : ℕ → Bar

-- The words of the registers.
abbrev pub words_of : List Bar → List ℕ
words_of [] = []
words_of (unused ∷ bs) = 0 ∷ words_of bs
words_of (io_bar base ∷ bs) = (base + 1) ∷ words_of bs
words_of (memory base ∷ bs) = base ∷ words_of bs
words_of (wide base ∷ bs) = (base % 2 ^ 32 + 4) ∷ base / 2 ^ 32 ∷ words_of bs

-- Bases are aligned and fit their registers.
abbrev pub Fits : List Bar → Type 0
Fits [] = Unit
Fits (unused ∷ bs) = Fits bs
Fits (io_bar base ∷ bs) = (base % 4 ≡ 0) × (base + 1 < 2 ^ 32) × Fits bs
Fits (memory base ∷ bs) = (base % 16 ≡ 0) × (base < 2 ^ 32) × Fits bs
Fits (wide base ∷ bs) = (base % 16 ≡ 0) × (base < 2 ^ 64) × Fits bs

module _ (platform : PciPlatformOps) where
  abbrev pub ports : ℕ → List Region
  ports base = elim (io_bar_cpu_base platform) [
    | none ↦ []
    | some cpu ↦ record { base_addr = (cpu + base) % 2 ^ 64; size = 0x100 } ∷ []
  ]

  -- The regions that the registers are for.
  abbrev pub regions_of : List Bar → List Region
  regions_of [] = []
  regions_of (unused ∷ bs) = regions_of bs
  regions_of (io_bar base ∷ bs) = ports base ++ regions_of bs
  regions_of (memory base ∷ bs) = some_region base ++ regions_of bs
  regions_of (wide base ∷ bs) = some_region base ++ regions_of bs

low_mask : (v : ℕ) → v < 2 ^ 32 → bit_and v 0xfffffff0 ≡ v - v % 16
low_mask v h = omega (arith, and_shifted 4 v 0xfffffff, and_mask 28 (v / 16))

io_mask : (v : ℕ) → v < 2 ^ 32 → bit_and v 0xfffffffc ≡ v - v % 4
io_mask v h = omega (arith, and_shifted 2 v 0x3fffffff, and_mask 30 (v / 4))

module _ (platform : PciPlatformOps) where
  single_memory :
      (base : ℕ) → base % 16 ≡ 0 → base < 2 ^ 32 → single platform base ≡ some_region base
  unfolding single
  single_memory base a h = ground (arith, low_mask base h, and_mask 1 base)

  single_io :
      (base : ℕ)
      → base % 4 ≡ 0
      → base + 1 < 2 ^ 32
      → single platform (base + 1) ≡ ports platform base
  unfolding single
  single_io base a h =
      let set : (base + 1 == 0) ≡ false = ground arith in
      let is_io : (bit_and (base + 1) 1 == 0) ≡ false = ground (arith, and_mask 1 (base + 1)) in
      let kept : bit_and (base + 1) 0xfffffffc ≡ base = omega (arith, io_mask (base + 1) h) in
      rw (set, is_io) (ap (ports platform) kept)

double_wide :
    (base : ℕ)
    → base % 16 ≡ 0
    → base < 2 ^ 64
    → double (base % 2 ^ 32 + 4) (base / 2 ^ 32) ≡ some_region base
unfolding double
double_wide base a h =
    let high : base / 2 ^ 32 * 2 ^ 32 % 2 ^ 64 ≡ base / 2 ^ 32 * 2 ^ 32 = omega arith in
    let low : bit_and (base % 2 ^ 32 + 4) 0xfffffff0 ≡ base % 2 ^ 32 =
      omega (arith, low_mask (base % 2 ^ 32 + 4) (omega arith)) in
    let both : bit_or (base / 2 ^ 32 * 2 ^ 32) (base % 2 ^ 32) ≡ base =
      or_fields 32 (base / 2 ^ 32) (base % 2 ^ 32) (omega arith) ∙ omega arith in
    ap some_region (ap₂ bit_or high low ∙ both)

io_not_wide : (base : ℕ) → base % 4 ≡ 0 → is_wide (base + 1) ≡ false
io_not_wide base a = ground (arith, and_mask 1 (base + 1))

memory_not_wide : (base : ℕ) → base % 16 ≡ 0 → is_wide base ≡ false
memory_not_wide base a = ground (arith, and_mask 1 base, and_mask 2 (base / 2))

wide_is_wide : (base : ℕ) → base % 16 ≡ 0 → is_wide (base % 2 ^ 32 + 4) ≡ true
wide_is_wide base a =
    ground (arith, and_mask 1 (base % 2 ^ 32 + 4), and_mask 2 ((base % 2 ^ 32 + 4) / 2))

module _ (platform : PciPlatformOps) (base bus dev func : ℕ) where
  -- The words stand in the registers from `bar` on.
  abbrev pub Laid : Space → ℕ → List ℕ → Type 0
  Laid d bar [] = Unit
  Laid d bar (w ∷ ws) =
      (d (cfg_addr space_bus base bus dev func (0x10 + bar * 4)) % 2 ^ 32 ≡ w) × Laid d (bar + 1) ws

  abbrev found : ℕ → ℕ → Space → List Region
  found left bar d = (bars_from platform space_bus base bus dev func left bar d).0

  -- What the loop does with a register that was read, when more than one is left.
  abbrev chosen : Bool → ℕ → ℕ → ℕ × Space → List Region × Space
  chosen b left bar (v, d1) = elim b [
    | true ↦
        let (hi, d2) = read_u32 space_bus base bus dev func (0x10 + bar * 4 + 4) d1 in
        let (rest, d3) = bars_from platform space_bus base bus dev func left (bar + 2) d2 in
        (double v hi ++ rest, d3)
    | false ↦
        let (rest, d2) = bars_from platform space_bus base bus dev func (suc left) (bar + 1) d1 in
        (single platform v ++ rest, d2)
  ]

  bars_from-step :
      (left bar : ℕ) (d : Space)
      → bars_from platform space_bus base bus dev func (suc (suc left)) bar d ≡ (
          let r = read_u32 space_bus base bus dev func (0x10 + bar * 4) d in
          chosen (is_wide r.0) left bar r)
  unfolding bars_from
  bars_from-step left bar d = refl

  bars_from-last :
      (bar : ℕ) (d : Space)
      → found 1 bar d ≡ single platform (read_u32 space_bus base bus dev func (0x10 + bar * 4) d).0
  unfolding bars_from
  bars_from-last bar d = refl

  read_there :
      (reg w : ℕ) (d : Space)
      → d (cfg_addr space_bus base bus dev func reg) % 2 ^ 32 ≡ w
      → read_u32 space_bus base bus dev func reg d ≡ (w, d)
  unfolding read_u32 space_bus
  read_there reg w d e = ap (λ (t : ℕ). (t, d)) e

  found-chosen :
      (left bar w : ℕ) (ws : List ℕ) (d : Space) (b : Bool)
      → Laid d bar (w ∷ ws)
      → is_wide w ≡ b
      → found (suc (suc left)) bar d ≡ (chosen b left bar (w, d)).0
  found-chosen left bar w ws d b (here, rest) e =
      ap (λ (r : List Region × Space). r.0)
        (bars_from-step left bar d
          ∙ ap (λ (r : ℕ × Space). chosen (is_wide r.0) left bar r)
              (read_there (0x10 + bar * 4) w d here)
          ∙ ap (λ t. chosen t left bar (w, d)) e)

  -- One register that is not the first half of a pair.
  found-single :
      (left bar w : ℕ) (ws : List ℕ) (d : Space)
      → Laid d bar (w ∷ ws)
      → is_wide w ≡ false
      → found (suc left) bar d ≡ single platform w ++ found left (bar + 1) d
  unfolding bars_from
  found-single zero bar w ws d (here, rest) alone =
      bars_from-last bar d
      ∙ ap (λ (r : ℕ × Space). single platform r.0) (read_there (0x10 + bar * 4) w d here)
      ∙ sym (append-nil (single platform w))
  found-single (suc left) bar w ws d l alone = found-chosen left bar w ws d false l alone

  found-double :
      (left bar lo hi : ℕ) (ws : List ℕ) (d : Space)
      → Laid d bar (lo ∷ hi ∷ ws)
      → is_wide lo ≡ true
      → found (suc (suc left)) bar d ≡ double lo hi ++ found left (bar + 2) d
  found-double left bar lo hi ws d (here, (next, rest)) wide_one =
      let at : 0x10 + (bar + 1) * 4 ≡ 0x10 + bar * 4 + 4 = omega arith in
      let next' : d (cfg_addr space_bus base bus dev func (0x10 + bar * 4 + 4)) % 2 ^ 32 ≡ hi =
        subst (λ (t : ℕ). d (cfg_addr space_bus base bus dev func t) % 2 ^ 32 ≡ hi) at next in
      found-chosen left bar lo (hi ∷ ws) d true (here, (next, rest)) wide_one
      ∙ ap (λ (r : ℕ × Space). double lo r.0 ++ found left (bar + 2) r.1)
          (read_there (0x10 + bar * 4 + 4) hi d next')

  single_unused : single platform 0 ≡ []
  unfolding single
  single_unused = refl

  bars_from-none : (bar : ℕ) (d : Space) → found 0 bar d ≡ []
  unfolding bars_from
  bars_from-none bar d = refl

  -- The registers that were written for a list of ranges are read back as their regions, in order.
  bars_from-regions :
      (bs : List Bar) (bar : ℕ) (d : Space)
      → Fits bs
      → Laid d bar (words_of bs)
      → found (length (words_of bs)) bar d ≡ regions_of platform bs
  bars_from-regions [] bar d f l = bars_from-none bar d
  bars_from-regions (unused ∷ bs) bar d f l =
      found-single (length (words_of bs)) bar 0 (words_of bs) d l refl
      ∙ ap₂ (λ xs ys. xs ++ ys) single_unused (bars_from-regions bs (bar + 1) d f l.1)
  bars_from-regions (io_bar b ∷ bs) bar d f l =
      found-single (length (words_of bs)) bar (b + 1) (words_of bs) d l (io_not_wide b f.0)
      ∙ ap₂ (λ xs ys. xs ++ ys) (single_io platform b f.0 f.1)
          (bars_from-regions bs (bar + 1) d f.2 l.1)
  bars_from-regions (memory b ∷ bs) bar d f l =
      found-single (length (words_of bs)) bar b (words_of bs) d l (memory_not_wide b f.0)
      ∙ ap₂ (λ xs ys. xs ++ ys) (single_memory platform b f.0 f.1)
          (bars_from-regions bs (bar + 1) d f.2 l.1)
  bars_from-regions (wide b ∷ bs) bar d f l =
      found-double (length (words_of bs)) bar (b % 2 ^ 32 + 4) (b / 2 ^ 32) (words_of bs) d l
        (wide_is_wide b f.0)
      ∙ ap₂ (λ xs ys. xs ++ ys) (double_wide b f.0 f.1)
          (bars_from-regions bs (bar + 2) d f.2 (
            subst (λ (t : ℕ). Laid d t (words_of bs)) {x = bar + 1 + 1} {y = bar + 2} (omega arith)
              l.1.1))

  -- `parse_bars` reads back the regions that the registers of a function were written for: I/O ranges
  -- (if the platform has a window for them), 32-bit and 64-bit ranges of memory, in order. There are
  -- six registers, or two for a bridge.
  pub parse_bars_reads :
      (header_type : ℕ) (bs : List Bar) (d : Space)
      → Fits bs
      → length (words_of bs) ≡ (if bit_and header_type 0x7f == 1 then 2 else 6)
      → Laid d 0 (words_of bs)
      → (parse_bars platform space_bus base bus dev func header_type d).0 ≡ regions_of platform bs
  unfolding parse_bars
  parse_bars_reads header_type bs d f n l =
      ap (λ (t : ℕ). found t 0 d) (sym n) ∙ bars_from-regions bs 0 d f l
