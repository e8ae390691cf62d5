-- ===== src/Pci/Addressing.antt =====
-- Where a register lies: no two functions share a word of the configuration space.
use glenda_drivers.Prelude.{ℕ, ◌+◌, ◌-◌, ◌*◌, ◌/◌, ◌%◌, ◌^◌, ◌<◌, ◌≡◌, ap, ◌∙◌, arith, bit_or}
use glenda_drivers.Prelude.Bits.{or_fields, and_shifted, and_mask}
use glenda_drivers.Pci.Config.{cfg_off, aligned}

-- The offset of a register is made of its bus, device, function and number.
pub cfg_off-fields :
    (bus dev func reg : ℕ)
    → dev < 32
    → func < 8
    → reg < 2 ^ 12
    → cfg_off bus dev func reg ≡ bus * 2 ^ 20 + dev * 2 ^ 15 + func * 2 ^ 12 + reg
unfolding cfg_off
cfg_off-fields bus dev func reg hd hf hr =
    let one : bit_or (bus * 2 ^ 20) (dev * 2 ^ 15) ≡ (bus * 32 + dev) * 2 ^ 15 =
      or_fields 20 bus (dev * 2 ^ 15) (omega arith) ∙ omega arith in
    let two : bit_or ((bus * 32 + dev) * 2 ^ 15) (func * 2 ^ 12)
        ≡ (bus * 256 + dev * 8 + func) * 2 ^ 12 =
      or_fields 15 (bus * 32 + dev) (func * 2 ^ 12) (omega arith) ∙ omega arith in
    let three : bit_or ((bus * 256 + dev * 8 + func) * 2 ^ 12) reg
        ≡ bus * 2 ^ 20 + dev * 2 ^ 15 + func * 2 ^ 12 + reg =
      or_fields 12 (bus * 256 + dev * 8 + func) reg hr ∙ omega arith in
    ap (λ (t : ℕ). bit_or (bit_or t (func * 2 ^ 12)) reg) one
    ∙ ap (λ (t : ℕ). bit_or t reg) two
    ∙ three

-- Registers of different buses, devices or functions, or different registers of one function, lie at
-- different offsets.
pub cfg_off_injective :
    (bus dev func reg bus' dev' func' reg' : ℕ)
    → dev < 32
    → func < 8
    → reg < 2 ^ 12
    → dev' < 32
    → func' < 8
    → reg' < 2 ^ 12
    → cfg_off bus dev func reg ≡ cfg_off bus' dev' func' reg'
    → (bus ≡ bus') × (dev ≡ dev') × (func ≡ func') × (reg ≡ reg')
cfg_off_injective bus dev func reg bus' dev' func' reg' hd hf hr hd' hf' hr' e = omega (
  arith,
  e,
  cfg_off-fields bus dev func reg hd hf hr,
  cfg_off-fields bus' dev' func' reg' hd' hf' hr',
)

pub aligned_lem : (reg : ℕ) → reg < 2 ^ 64 → aligned reg ≡ reg - reg % 4
aligned_lem reg h = omega (arith, and_shifted 2 reg (2 ^ 62 - 1), and_mask 62 (reg / 4))
