-- ===== src/Uart/Draining.antt =====
-- `drain_rx_fifo_to_sw_buffer` moves bytes from the device to the software buffer, in order.
use mathlib.Core.List.{append_assoc}
use glenda_drivers.Prelude.{
  ℕ, zero, suc, ◌+◌, ◌<◌, ◌≡◌, refl, ap, ◌∙◌, Bool, true, false, none, some, List, [], ◌∷◌, length,
  arith, done, ltb, Bool-cases, inl, inr, ◌==◌, bit_and, length-append, not, either, if◌then◌else◌,
}
use glenda_drivers.Uart.State.{Ns16550a, RingBuffer, Deque, UartStats, push_back, plus}
use glenda_drivers.Uart.Device.{Serial, status_of, serial_bus, serial_read, read8_at}
use glenda_drivers.Uart.Port.{getchar}
use glenda_drivers.Uart.Receive.{
  record_lsr_errors, take_char, drain_loop, note_budget_hit, drain_rx_fifo_to_sw_buffer,
}
use glenda_drivers.Uart.Receiving.{looked, fifo_cases, getchar_empty, getchar_byte}
use glenda_drivers.Uart.Streams.{RingLaws, IsReady, Ready, Kept, Kept-trans}

module _ (base capacity fuel : ℕ) where
  looked-IsReady :
      (b : ℕ) (q : Deque) (d : Serial)
      → IsReady base capacity fuel b q d
      → IsReady base capacity fuel b q (looked d)
  looked-IsReady b q d v = record {
    at_base = v.at_base;
    room = v.room;
    slots = v.slots;
    head = v.head;
    fuel_rx = v.fuel_rx;
    fuel_tx = v.fuel_tx;
    busy = omega (arith, v.busy);
    closed = v.closed;
  }

module _ {R S : Type 0} {rb : RingBuffer R} (laws : RingLaws rb) (base capacity fuel : ℕ) where
  abbrev Keeps : Ns16550a R S Serial → Ns16550a R S Serial → Type 0
  Keeps s s' = Kept laws base capacity fuel s s'

  looked-Kept :
      (s : Ns16550a R S Serial) (b : Bool) (st : UartStats)
      → Ready laws base capacity fuel s
      → Keeps s (
          if b
          then record s { device = looked s.device; stats = st }
          else record s { device = looked s.device })
  looked-Kept s true st v =
      (refl, refl, looked-IsReady base capacity fuel s.base s.rx_buffer s.device v)
  looked-Kept s false st v =
      (refl, refl, looked-IsReady base capacity fuel s.base s.rx_buffer s.device v)

  -- A look at the status loses nothing.
  pub record_lsr_errors-Kept :
      (s : Ns16550a R S Serial)
      → Ready laws base capacity fuel s
      → Keeps s (record_lsr_errors (serial_bus base) s)
  unfolding record_lsr_errors serial_read
  record_lsr_errors-Kept s v =
      simp (read8_at base s.base 5 s.device v.at_base)
        (looked-Kept s (not (bit_and (status_of s.device) 2 == 0)) _ v)

  pub note_budget_hit-Kept :
      (budget drained : ℕ) (s : Ns16550a R S Serial)
      → Ready laws base capacity fuel s
      → Keeps s (note_budget_hit (serial_bus base) budget drained s)
  unfolding note_budget_hit serial_read
  note_budget_hit-Kept budget drained s v = simp (read8_at base s.base 5 s.device v.at_base) (
      either (ltb drained budget) (Keeps s) s _ (refl, refl, v)
        (looked-Kept s (not (bit_and (status_of s.device) 1 == 0)) _ v))

  -- A byte that has room goes to the end of the software buffer.
  abbrev stored : ℕ → List ℕ → Ns16550a R S Serial → Ns16550a R S Serial
  stored c cs s = record s {
    rx_buffer = push_back c s.rx_buffer;
    device = record (looked s.device) { fifo = cs };
    stats = record (s.stats) { irq_rx_bytes = plus s.stats.irq_rx_bytes 1 };
  }

  stored-Kept :
      (c : ℕ) (cs : List ℕ) (s : Ns16550a R S Serial)
      → s.device.fifo ≡ c ∷ cs
      → Ready laws base capacity fuel s
      → Keeps s (stored c cs s)
  stored-Kept c cs s e v = (
    simp (e, append_assoc),
    refl,
    record {
      at_base = v.at_base;
      room = omega (arith, v.room, ap length e, length-append s.rx_buffer.items (c ∷ []));
      slots = v.slots;
      head = v.head;
      fuel_rx = omega (arith, v.fuel_rx, ap length e);
      fuel_tx = v.fuel_tx;
      busy = omega (arith, v.busy);
      closed = v.closed;
    },
  )

  drain_loop-byte :
      (rounds budget drained c : ℕ) (cs : List ℕ) (s : Ns16550a R S Serial)
      → ltb drained budget ≡ true
      → s.device.fifo ≡ c ∷ cs
      → Ready laws base capacity fuel s
      → drain_loop (serial_bus base) (suc rounds) budget drained s
        ≡ drain_loop (serial_bus base) rounds budget (drained + 1) (stored c cs s)
  unfolding drain_loop take_char
  drain_loop-byte rounds budget drained c cs s more e v =
      let got : getchar (serial_bus base) s.base s.device
          ≡ (some c, record (looked s.device) { fifo = cs }) =
        ap (λ b. getchar (serial_bus base) b s.device) v.at_base
        ∙ getchar_byte base s.device c cs e in
      let room : ltb (length s.rx_buffer.items) 4096 ≡ true = ground (arith, v.room, ap length e) in
      simp (drain_loop, more, got, room)

  drain_loop-dry :
      (rounds budget drained : ℕ) (s : Ns16550a R S Serial)
      → ltb drained budget ≡ true
      → s.device.fifo ≡ []
      → Ready laws base capacity fuel s
      → drain_loop (serial_bus base) (suc rounds) budget drained s
        ≡ done (drained, record s { device = looked s.device })
  unfolding drain_loop
  drain_loop-dry rounds budget drained s more e v =
      let got : getchar (serial_bus base) s.base s.device ≡ (none, looked s.device) =
        ap (λ b. getchar (serial_bus base) b s.device) v.at_base ∙ getchar_empty base s.device e in
      simp (drain_loop, more, got)

  drain_loop-full :
      (rounds budget drained : ℕ) (s : Ns16550a R S Serial)
      → ltb drained budget ≡ false
      → drain_loop (serial_bus base) (suc rounds) budget drained s ≡ done (drained, s)
  unfolding drain_loop
  drain_loop-full rounds budget drained s more = simp (drain_loop, more)

  drain_loop-Kept :
      (rounds budget drained : ℕ) (s : Ns16550a R S Serial)
      → Ready laws base capacity fuel s
      → length s.device.fifo < rounds
      → (n : ℕ) × (s' : Ns16550a R S Serial) × (drain_loop (serial_bus base) rounds budget drained s
          ≡ done (n, s'))
        × Keeps s s'
  drain_loop-Kept zero budget drained s v h = absurd (omega arith)
  drain_loop-Kept (suc rounds) budget drained s v h = elim (Bool-cases (ltb drained budget)) [
    | inr no_more ↦ (drained, s, drain_loop-full rounds budget drained s no_more, (refl, refl, v))
    | inl more ↦ elim (fifo_cases s.device.fifo) [
      | inl e ↦ (
        drained,
        record s { device = looked s.device },
        drain_loop-dry rounds budget drained s more e v,
        (refl, refl, looked-IsReady base capacity fuel s.base s.rx_buffer s.device v),
      )
      | inr (c, cs, e) ↦
          let kept = stored-Kept c cs s e v in
          let (n, s', run, kept') =
            drain_loop-Kept rounds budget (drained + 1) (stored c cs s) kept.2
              (omega (arith, h, ap length e)) in
          (
            n,
            s',
            drain_loop-byte rounds budget drained c cs s more e v ∙ run,
            Kept-trans laws base capacity fuel s (stored c cs s) s' kept kept',
          )
    ]
  ]

  pub drain_rx_fifo_to_sw_buffer-Kept :
      (budget : ℕ) (s : Ns16550a R S Serial)
      → Ready laws base capacity fuel s
      → (n : ℕ) × (s' : Ns16550a R S Serial) × (drain_rx_fifo_to_sw_buffer
            (serial_bus base)
            fuel
            budget
            s
          ≡ done (n, s'))
        × Keeps s s'
  unfolding drain_rx_fifo_to_sw_buffer
  drain_rx_fifo_to_sw_buffer-Kept budget s v =
      let s1 : Ns16550a R S Serial = record_lsr_errors (serial_bus base) s in
      let k1 = record_lsr_errors-Kept s v in
      let (n, s2, run, k2) = drain_loop-Kept fuel budget 0 s1 k1.2 k1.2.fuel_rx in
      let k12 = Kept-trans laws base capacity fuel s s1 s2 k1 k2 in
      let k3 = note_budget_hit-Kept budget n s2 k2.2 in
      elim (Bool-cases (budget == 0)) [
        | inl none_asked ↦ (0, s, simp none_asked, (refl, refl, v))
        | inr asked ↦ (
          n,
          note_budget_hit (serial_bus base) budget n s2,
          simp (asked, run),
          Kept-trans laws base capacity fuel s s2 (note_budget_hit (serial_bus base) budget n s2)
              k12 k3,
        )
      ]
