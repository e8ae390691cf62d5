-- ===== src/Pci/Access.antt =====
-- `read_u16` and `write_u16` on a configuration space of 32-bit words.
use glenda_drivers.Prelude.{
  ℕ, ◌+◌, ◌*◌, ◌/◌, ◌%◌, ◌^◌, ◌<◌, ◌≡◌, ◌≢◌, sym, ap, ap₂, ◌∙◌, arith, bit_and, bit_or, ◌⊎◌, inl,
  inr,
}
use glenda_drivers.Prelude.Bits.{or_fields, and_shifted, and_mask, and_bit, bit_or_comm}
use glenda_drivers.Pci.Config.{cfg_addr, aligned, merge, read_u32, read_u16, write_u16, cfg_off}
use glenda_drivers.Pci.Space.{Space, space_bus}

-- A register number names one half of its word.
half-cases : (reg : ℕ) → (bit_and reg 2 * 8 ≡ 0) ⊎ (bit_and reg 2 * 8 ≡ 16)
half-cases reg = elim (two_cases (reg / 2 % 2) (omega arith)) [
  | inl e ↦ inl (omega (arith, and_bit 1 reg, e))
  | inr e ↦ inr (omega (arith, and_bit 1 reg, e))
]
  where
    two_cases : (n : ℕ) → n < 2 → (n ≡ 0) ⊎ (n ≡ 1)
    two_cases n h = ground arith

-- The low half changes, the high half stays.
merge_low :
    (word val : ℕ) → word < 2 ^ 32 → val < 2 ^ 16 → merge 0 word val ≡ word / 2 ^ 16 * 2 ^ 16 + val
unfolding merge
merge_low word val hw hv =
    let kept : bit_and word 0xffff0000 ≡ word / 2 ^ 16 * 2 ^ 16 =
      omega (arith, and_shifted 16 word 0xffff, and_mask 16 (word / 2 ^ 16)) in
    let new_val : val * 1 % 2 ^ 32 ≡ val = omega arith in
    ap₂ bit_or kept new_val ∙ or_fields 16 (word / 2 ^ 16) val hv

merge_high :
    (word val : ℕ) → word < 2 ^ 32 → val < 2 ^ 16 → merge 16 word val ≡ val * 2 ^ 16 + word % 2 ^ 16
unfolding merge
merge_high word val hw hv =
    let kept : bit_and word 0xffff ≡ word % 2 ^ 16 = and_mask 16 word in
    let new_val : val * 2 ^ 16 % 2 ^ 32 ≡ val * 2 ^ 16 = omega arith in
    ap₂ bit_or kept new_val
    ∙ bit_or_comm (word % 2 ^ 16) (val * 2 ^ 16)
    ∙ or_fields 16 val (word % 2 ^ 16) (omega arith)

merge_same :
    (h word val : ℕ)
    → (h ≡ 0) ⊎ (h ≡ 16)
    → word < 2 ^ 32
    → val < 2 ^ 16
    → bit_and (merge h word val % 2 ^ 32 / 2 ^ h) 0xffff ≡ val
merge_same h word val (inl e) hw hv =
    rw (e, merge_low word val hw hv)
      (omega (arith, and_mask 16 ((word / 2 ^ 16 * 2 ^ 16 + val) % 2 ^ 32 / 1)))
merge_same h word val (inr e) hw hv =
    rw (e, merge_high word val hw hv)
      (omega (arith, and_mask 16 ((val * 2 ^ 16 + word % 2 ^ 16) % 2 ^ 32 / 2 ^ 16)))

merge_other :
    (h h' word val : ℕ)
    → (h ≡ 0) ⊎ (h ≡ 16)
    → (h' ≡ 0) ⊎ (h' ≡ 16)
    → h ≢ h'
    → word < 2 ^ 32
    → val < 2 ^ 16
    → bit_and (merge h word val % 2 ^ 32 / 2 ^ h') 0xffff ≡ bit_and (word / 2 ^ h') 0xffff
merge_other h h' word val (inl e) (inl e') ne hw hv = absurd (ne (e ∙ sym e'))
merge_other h h' word val (inr e) (inr e') ne hw hv = absurd (ne (e ∙ sym e'))
merge_other h h' word val (inl e) (inr e') ne hw hv =
    rw (e, e', merge_low word val hw hv)
      (omega (
        arith,
        and_mask 16 ((word / 2 ^ 16 * 2 ^ 16 + val) % 2 ^ 32 / 2 ^ 16),
        and_mask 16 (word / 2 ^ 16),
      ))
merge_other h h' word val (inr e) (inl e') ne hw hv =
    rw (e, e', merge_high word val hw hv)
      (omega
        (arith, and_mask 16 ((val * 2 ^ 16 + word % 2 ^ 16) % 2 ^ 32 / 1), and_mask 16 (word / 1)))

module _ (base bus dev func reg val : ℕ) (d : Space) (hv : val < 2 ^ 16) where
  abbrev written : Space
  written = write_u16 space_bus base bus dev func reg val d

  abbrev place : ℕ
  place = cfg_addr space_bus base bus dev func (aligned reg)

  written_here : written place ≡ merge (bit_and reg 2 * 8) (d place % 2 ^ 32) val
  unfolding write_u16 read_u32 space_bus
  written_here = ground arith

  written_elsewhere : (x : ℕ) → x ≢ place → written x ≡ d x
  unfolding write_u16 read_u32 space_bus
  written_elsewhere x ne = ground arith

  -- After `write_u16` of a 16-bit value, `read_u16` gives it back. The other half of the word reads as
  -- before, and every other address is as before.
  pub write_u16_read :
      ((read_u16 space_bus base bus dev func reg written).0 ≡ val)
      × ((reg' : ℕ)
          → aligned reg' ≡ aligned reg
          → bit_and reg 2 * 8 ≢ bit_and reg' 2 * 8
          → (read_u16 space_bus base bus dev func reg' written).0
            ≡ (read_u16 space_bus base bus dev func reg' d).0)
      × ((x : ℕ) → x ≢ place → written x ≡ d x)
  unfolding read_u16 read_u32 space_bus
  write_u16_read = (
    rw written_here
        (merge_same (bit_and reg 2 * 8) (d place % 2 ^ 32) val (half-cases reg) (omega arith) hv),
    λ reg' same other.
        let there : base + cfg_off bus dev func (aligned reg') ≡ place =
          ap (λ t. base + cfg_off bus dev func t) same in
        rw (there, written_here)
          (merge_other (bit_and reg 2 * 8) (bit_and reg' 2 * 8) (d place % 2 ^ 32) val
            (half-cases reg) (half-cases reg') other (omega arith) hv),
    λ x ne. written_elsewhere x ne,
  )
