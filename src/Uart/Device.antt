-- ===== src/Uart/Device.antt =====
-- The serial port as its data sheet describes it, as far as the driver uses it: what a driver's
-- register accesses are meant to bring about.
use mathlib.Core.List.{tail}
use glenda_drivers.Prelude.{
  ℕ, ◌+◌, ◌-◌, ◌≡◌, refl, not, ap, ◌∙◌, arith, Bool, true, false, List, [], ◌∷◌, ◌++◌, ◌==◌,
  if◌then◌else◌, bit_and, bit_or,
}
use glenda_drivers.Mmio.{Bus}

-- Bytes received and not read yet, and bytes sent. The transmitter takes `slow` looks at the status
-- until it can take the next byte, `busy` of them to come. `causes` are the identifications that
-- reads of IIR will give, then 1, no interrupt.
pub record Serial : Type 0 where
  pub fifo : List ℕ
  pub sent : List ℕ
  pub busy : ℕ
  pub slow : ℕ
  pub overrun : Bool
  pub causes : List ℕ
  pub line : ℕ
  pub divisor_low : ℕ
  pub divisor_high : ℕ
  pub enabled : ℕ
  pub fifo_control : ℕ
  pub modem : ℕ

-- Bit 7 of the line control register opens the divisor latch.
abbrev pub latch_of : ℕ → Bool
latch_of line = elim (bit_and line 0x80 == 0) [ true ↦ false | false ↦ true ]

abbrev pub latch_open : Serial → Bool
latch_open d = latch_of d.line

abbrev first_cause : List ℕ → ℕ
first_cause [] = 1
first_cause (c ∷ cs) = c

abbrev pub has_byte : List ℕ → Bool
has_byte [] = false
has_byte (c ∷ cs) = true

-- Bit 0: a byte is there; bit 1: one was lost; bits 5 and 6: the transmitter is free.
abbrev pub status_bits : Bool → Bool → Bool → ℕ
status_bits ready lost free =
    bit_or (bit_or (if ready then 1 else 0) (if lost then 2 else 0)) (if free then 0x60 else 0)

abbrev pub status_of : Serial → ℕ
status_of d = status_bits (has_byte d.fifo) d.overrun (d.busy == 0)

pub ready_bit :
    (ready lost free : Bool) → (bit_and (status_bits ready lost free) 1 == 0) ≡ not ready
ready_bit true true true = refl
ready_bit true true false = refl
ready_bit true false true = refl
ready_bit true false false = refl
ready_bit false true true = refl
ready_bit false true false = refl
ready_bit false false true = refl
ready_bit false false false = refl

pub free_bit :
    (ready lost free : Bool) → (bit_and (status_bits ready lost free) 0x20 == 0) ≡ not free
free_bit true true true = refl
free_bit true true false = refl
free_bit true false true = refl
free_bit true false false = refl
free_bit false true true = refl
free_bit false true false = refl
free_bit false false true = refl
free_bit false false false = refl

unfoldable pub serial_read : ℕ → Serial → ℕ × Serial
serial_read off d =
    if off == 5
    then (status_of d, record d { busy = d.busy - 1; overrun = false })
    else if off == 0
    then elim d.fifo [ [] ↦ (0, d) | c ∷ cs ↦ (c, record d { fifo = cs }) ]
    else if off == 2
    then (first_cause d.causes, record d { causes = tail d.causes })
    else (0, d)

unfoldable pub serial_write : ℕ → ℕ → Serial → Serial
serial_write off v d =
    if off == 0
    then (if latch_open d
        then record d { divisor_low = v }
        else record d { sent = d.sent ++ v ∷ []; busy = d.slow })
    else if off == 1
    then (if latch_open d then record d { divisor_high = v } else record d { enabled = v })
    else if off == 2
    then record d { fifo_control = v }
    else if off == 3
    then record d { line = v }
    else if off == 4
    then record d { modem = v }
    else d

unfoldable pub serial_bus : ℕ → Bus Serial
unfolding serial_read serial_write
serial_bus base = record {
  read8 = λ a d. serial_read (a - base) d;
  write8 = λ a v d. serial_write (a - base) v d;
  read32 = λ a d. (0, d);
  write32 = λ a v d. d;
  read64 = λ a d. (0, d);
}

pub read8_lem :
    (base off : ℕ) (d : Serial) → (serial_bus base).read8 (base + off) d ≡ serial_read off d
unfolding serial_bus
read8_lem base off d =
    ap (λ (t : ℕ). serial_read t d) {x = base + off - base} {y = off} (omega arith)

pub write8_lem :
    (base off v : ℕ) (d : Serial) → (serial_bus base).write8 (base + off) v d ≡ serial_write off v d
unfolding serial_bus
write8_lem base off v d =
    ap (λ (t : ℕ). serial_write t v d) {x = base + off - base} {y = off} (omega arith)

-- The same through a base that is known by an equation.
pub read8_at :
    (base b off : ℕ) (d : Serial)
    → b ≡ base
    → (serial_bus base).read8 (b + off) d ≡ serial_read off d
read8_at base b off d e =
    ap (λ (t : ℕ). (serial_bus base).read8 (t + off) d) e ∙ read8_lem base off d

pub write8_at :
    (base b off v : ℕ) (d : Serial)
    → b ≡ base
    → (serial_bus base).write8 (b + off) v d ≡ serial_write off v d
write8_at base b off v d e =
    ap (λ (t : ℕ). (serial_bus base).write8 (t + off) v d) e ∙ write8_lem base off v d
