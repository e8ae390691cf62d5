-- ===== src/Uart/Receiving.antt =====
-- Receiving: `drain_rx_fifo_to_sw_buffer` moves bytes from the device to the software buffer.
use glenda_drivers.Prelude.{
  ℕ, zero, suc, ◌-◌, ◌<◌, ◌≡◌, refl, true, false, none, some, List, [], ◌∷◌, ◌++◌, arith, done,
  Bool-cases, inl, inr, ◌⊎◌, ◌∙◌, ◌==◌,
}
use glenda_drivers.Uart.Device.{
  Serial, latch_open, serial_bus, serial_read, serial_write, read8_lem, write8_lem, ready_bit,
  free_bit,
}
use glenda_drivers.Uart.Port.{getchar, putchar}

pub fifo_cases : (xs : List ℕ) → (xs ≡ []) ⊎ ((c : ℕ) × (cs : List ℕ) × (xs ≡ c ∷ cs))
fifo_cases [] = inl refl
fifo_cases (c ∷ cs) = inr (c, cs, refl)

abbrev pub looked : Serial → Serial
looked d = record d { busy = d.busy - 1; overrun = false }

-- `getchar` takes the oldest byte, if there is one.
pub getchar_empty :
    (base : ℕ) (d : Serial) → d.fifo ≡ [] → getchar (serial_bus base) base d ≡ (none, looked d)
unfolding getchar serial_read
getchar_empty base d e = simp (read8_lem, ready_bit, e) refl

pub getchar_byte :
    (base : ℕ) (d : Serial) (c : ℕ) (cs : List ℕ)
    → d.fifo ≡ c ∷ cs
    → getchar (serial_bus base) base d ≡ (some c, record (looked d) { fifo = cs })
unfolding getchar serial_read
getchar_byte base d c cs e = simp (read8_lem, ready_bit, e) refl

putchar_free :
    (base fuel c : ℕ) (d : Serial)
    → (d.busy == 0) ≡ true
    → latch_open d ≡ false
    → putchar (serial_bus base) base (suc fuel) c d
      ≡ done (record (looked d) { sent = d.sent ++ c ∷ []; busy = d.slow })
unfolding putchar serial_read serial_write
putchar_free base fuel c d free closed = simp (read8_lem, write8_lem, free_bit, free, closed)

putchar_waits :
    (base fuel c : ℕ) (d : Serial)
    → (d.busy == 0) ≡ false
    → putchar (serial_bus base) base (suc fuel) c d
      ≡ putchar (serial_bus base) base fuel c (looked d)
unfolding putchar serial_read
putchar_waits base fuel c d waits = simp (read8_lem, free_bit, waits)

busy_waits : (d : Serial) → (d.busy == 0) ≡ false → 0 < d.busy
busy_waits d waits = ground arith

-- `putchar` sends the byte once the transmitter is free.
pub putchar_sends :
    (base fuel c : ℕ) (d : Serial)
    → d.busy < fuel
    → latch_open d ≡ false
    → (d' : Serial) × (putchar (serial_bus base) base fuel c d ≡ done d')
      × (d'.sent ≡ d.sent ++ c ∷ [])
      × (d'.fifo ≡ d.fifo)
      × (d'.slow ≡ d.slow)
      × (d'.busy ≡ d.slow)
      × (d'.line ≡ d.line)
putchar_sends base zero c d h closed = absurd (omega arith)
putchar_sends base (suc fuel) c d h closed = elim (Bool-cases (d.busy == 0)) [
  | inl free ↦ (
    record (looked d) { sent = d.sent ++ c ∷ []; busy = d.slow },
    putchar_free base fuel c d free closed,
    refl,
    refl,
    refl,
    refl,
    refl,
  )
  | inr waits ↦
      let (d', e, sent, fifo, slow, busy, line) =
        putchar_sends base fuel c (looked d) (omega (arith, busy_waits d waits, h)) closed in
      (d', putchar_waits base fuel c d waits ∙ e, sent, fifo, slow, busy, line)
]
