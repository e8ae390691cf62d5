-- ===== src/Gpio/Pins.antt =====
-- What the driver of gpio/sifive-gpio/src makes of registers that keep what is written.
use glenda_drivers.Prelude.{
  ℕ, ◌-◌, ◌%◌, ◌^◌, ◌<◌, ◌≡◌, ◌≢◌, ap, ◌∙◌, arith, bit_and, bit_or, not, true, false, ◌==◌,
  if◌then◌else◌, min, max,
}
use native.Mathlib.Nat.{one-le-pow}
use glenda_drivers.Prelude.Handlers.{ok}
use glenda_drivers.Prelude.Bits.{and_bit}
use glenda_drivers.Prelude.Digits.{digit, digit-bit_and, digit-bit_or, digit_pow, digit-not_pow}
use glenda_drivers.Mmio.{Bus}
use glenda_drivers.Gpio.Registers.{Modes, bit_of, others_of, read_reg, write_reg, set_mode, read}

-- The words of the registers, by offset.
abbrev pub Words : Type 0
Words = ℕ → ℕ

unfoldable pub words_bus : ℕ → Bus Words
words_bus base = record {
  read8 = λ addr d. (0, d);
  write8 = λ addr val d. d;
  read32 = λ addr d. (d (addr - base), d);
  write32 = λ addr val d. (λ x. if x == addr - base then val else d x);
  read64 = λ addr d. (0, d);
}

abbrev pub put : ℕ → ℕ → Words → Words
put off v d = λ x. if x == off then v else d x

read_at : (base off : ℕ) (d : Words) → read_reg (words_bus base) base off d ≡ (d off, d)
unfolding words_bus read_reg
read_at base off d = ap (λ (x : ℕ). (d x, d)) (omega arith)

write_at : (base off v : ℕ) (d : Words) → write_reg (words_bus base) base off v d ≡ put off v d
unfolding words_bus write_reg
write_at base off v d = ap (λ (y : ℕ). put y v d) (omega arith)

-- A pin's digit of a register is set, and cleared; the other digits stay.
pub digit-set :
    (j pin v : ℕ) → pin < 32 → digit j (bit_or v (bit_of pin)) ≡ (if j == pin then 1 else digit j v)
digit-set j pin v h =
    digit-bit_or j v (bit_of pin) ∙ ap (max (digit j v)) (digit_pow j (pin % 32)) ∙ ground arith

pub digit-cleared :
    (j pin v : ℕ)
    → j < 32
    → pin < 32
    → digit j (bit_and v (others_of pin)) ≡ (if j == pin then 0 else digit j v)
digit-cleared j pin v hj h =
    digit-bit_and j v (others_of pin)
    ∙ ap (min (digit j v)) (digit-not_pow 32 j (pin % 32) hj (omega arith))
    ∙ ground arith

-- Setting a pin to output sets its digit in OUTPUT_EN and clears it in INPUT_EN; the digits of the
-- other pins stay, and no other register changes.
pub set_mode_output :
    (base : ℕ) (modes : Modes) (pin : ℕ) (d : Words)
    → pin < 32
    → modes.mode_output ≢ modes.mode_input
    → (d' : Words) × (set_mode (words_bus base) base modes pin modes.mode_output d ≡ (ok tt, d'))
      × ((j : ℕ) → j < 32 → digit j (d' 8) ≡ (if j == pin then 1 else digit j (d 8)))
      × ((j : ℕ) → j < 32 → digit j (d' 4) ≡ (if j == pin then 0 else digit j (d 4)))
      × ((x : ℕ) → x ≢ 4 → x ≢ 8 → d' x ≡ d x)
unfolding set_mode
set_mode_output base modes pin d h differ =
    let not_input : (modes.mode_output == modes.mode_input) ≡ false = ground (arith, differ) in
    let is_output : (modes.mode_output == modes.mode_output) ≡ true = ground arith in
    (
      put 4 (bit_and (d 4) (others_of pin)) (put 8 (bit_or (d 8) (bit_of pin)) d),
      simp (not_input, is_output, read_at, write_at),
      (λ j hj. digit-set j pin (d 8) h),
      (λ j hj. digit-cleared j pin (d 4) hj h),
      (λ x n4 n8. ground (arith, n4, n8)),
    )

-- Setting a pin to input sets its digit in INPUT_EN and clears it in OUTPUT_EN; the digits of the
-- other pins stay, and no other register changes.
pub set_mode_input :
    (base : ℕ) (modes : Modes) (pin : ℕ) (d : Words)
    → pin < 32
    → (d' : Words) × (set_mode (words_bus base) base modes pin modes.mode_input d ≡ (ok tt, d'))
      × ((j : ℕ) → j < 32 → digit j (d' 4) ≡ (if j == pin then 1 else digit j (d 4)))
      × ((j : ℕ) → j < 32 → digit j (d' 8) ≡ (if j == pin then 0 else digit j (d 8)))
      × ((x : ℕ) → x ≢ 4 → x ≢ 8 → d' x ≡ d x)
unfolding set_mode
set_mode_input base modes pin d h =
    let is_input : (modes.mode_input == modes.mode_input) ≡ true = ground arith in
    (
      put 8 (bit_and (d 8) (others_of pin)) (put 4 (bit_or (d 4) (bit_of pin)) d),
      simp (is_input, read_at, write_at),
      (λ j hj. digit-set j pin (d 4) h),
      (λ j hj. digit-cleared j pin (d 8) hj h),
      (λ x n4 n8. ground (arith, n4, n8)),
    )

-- `read` looks at the pin's digit.
pub read-digit :
    (base pin : ℕ) (d : Words)
    → pin < 32
    → read (words_bus base) base pin d ≡ (ok (not (digit pin (d 0) == 0)), d)
unfolding read
read-digit base pin d h =
    let same : pin % 32 ≡ pin = omega arith in
    let tested : (bit_and (d 0) (2 ^ pin) == 0) ≡ (digit pin (d 0) == 0) =
      ground (arith, and_bit pin (d 0), one-le-pow pin 2) in
    simp (read_at, same, tested)
