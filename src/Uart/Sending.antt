-- ===== src/Uart/Sending.antt =====
-- `process_tx_ring` moves bytes from the TX ring to the device, in order.
use mathlib.Core.List.{append_assoc, append-nil}
use glenda_drivers.Prelude.{
  ℕ, ◌≤◌, ◌<◌, ◌≡◌, refl, sym, ap, ap₂, ◌∙◌, false, some, List, [], ◌∷◌, ◌++◌, length, arith, done,
  ltb, Bool-cases, inl, inr,
}
use glenda_drivers.Glenda.{RingServer}
use glenda_drivers.Uart.State.{Ns16550a, RingBuffer, plus}
use glenda_drivers.Uart.Device.{Serial, latch_open, latch_of, serial_bus}
use glenda_drivers.Uart.Port.{put_all}
use glenda_drivers.Uart.Transmit.{interleave, send_chunk}
use glenda_drivers.Uart.Streams.{RingLaws, in_ring, Ready, Kept, Kept-trans}
use glenda_drivers.Uart.Receiving.{putchar_sends}
use glenda_drivers.Uart.Draining.{drain_rx_fifo_to_sw_buffer-Kept}
use glenda_drivers.Uart.Pushing.{take-drop, process_rx_ring-Kept}

pub put_all_sends :
    (base fuel : ℕ) (cs : List ℕ) (d : Serial)
    → d.busy ≤ d.slow
    → d.slow < fuel
    → latch_open d ≡ false
    → (d' : Serial) × (put_all (serial_bus base) base fuel cs d ≡ done d')
      × (d'.sent ≡ d.sent ++ cs)
      × (d'.fifo ≡ d.fifo)
      × (d'.slow ≡ d.slow)
      × (d'.busy ≤ d'.slow)
      × (latch_open d' ≡ false)
unfolding put_all
put_all_sends base fuel [] d busy slow closed =
    (d, refl, sym (append-nil d.sent), refl, refl, busy, closed)
put_all_sends base fuel (c ∷ cs) d busy slow closed =
    let (d1, e1, sent1, fifo1, slow1, busy1, line1) =
      putchar_sends base fuel c d (omega arith) closed in
    let (d2, e2, sent2, fifo2, slow2, busy2, closed2) =
      put_all_sends base fuel cs d1 (omega arith) (omega arith) (ap latch_of line1 ∙ closed) in
    (
      d2,
      simp (put_all, e1, e2),
      sent2 ∙ ap (λ t. t ++ cs) sent1 ∙ append_assoc d.sent (c ∷ []) cs,
      fifo2 ∙ fifo1,
      slow2 ∙ slow1,
      busy2,
      closed2,
    )

-- What `pop_slice` gives and what it leaves.
pub popped :
    {R : Type 0} {rb : RingBuffer R} (laws : RingLaws rb) (t : R) (n : ℕ)
    → (rb.pop_slice t n).0 ++ laws.bytes (rb.pop_slice t n).1 ≡ laws.bytes t
popped laws t n =
    ap₂ (λ xs ys. xs ++ ys) (laws.pop_bytes t n) (laws.pop_rest t n) ∙ take-drop n (laws.bytes t)

module _ {R S : Type 0} {rb : RingBuffer R} (laws : RingLaws rb) (io : RingServer S)
    (base capacity fuel : ℕ) where
  abbrev Keeps : Ns16550a R S Serial → Ns16550a R S Serial → Type 0
  Keeps s s' = Kept laws base capacity fuel s s'

  interleave-Kept :
      (s : Ns16550a R S Serial)
      → Ready laws base capacity fuel s
      → (s' : Ns16550a R S Serial) × (interleave (serial_bus base) rb io capacity fuel s ≡ done s')
        × Keeps s s'
  unfolding interleave
  interleave-Kept s v =
      let (n, s1, run, k1) = drain_rx_fifo_to_sw_buffer-Kept laws base capacity fuel 64 s v in
      let (s2, run2, k2) = process_rx_ring-Kept laws io base capacity fuel s1 k1.2 in
      elim (Bool-cases (ltb 0 n)) [
        | inl some_got ↦ (
          s2,
          simp (interleave, run, some_got, run2),
          Kept-trans laws base capacity fuel s s1 s2 k1 k2,
        )
        | inr none_got ↦ (s1, simp (interleave, run, none_got), k1)
      ]

  -- A chunk that was popped from the ring is sent.
  pub send_chunk-Kept :
      (t : R) (n : ℕ) (s : Ns16550a R S Serial)
      → s.tx_ring ≡ some t
      → Ready laws base capacity fuel s
      → (s' : Ns16550a R S Serial) × (send_chunk
            (serial_bus base)
            rb
            io
            capacity
            fuel
            (rb.pop_slice t n).0
            (record s { tx_ring = some (rb.pop_slice t n).1 })
          ≡ done s')
        × Keeps s s'
  unfolding send_chunk
  send_chunk-Kept t n s e v =
      let bytes : List ℕ = (rb.pop_slice t n).0 in
      let (d, run, sent, fifo, slow, busy, closed) =
        put_all_sends base fuel bytes s.device v.busy v.fuel_tx v.closed in
      let run' : put_all (serial_bus base) s.base fuel bytes s.device ≡ done d =
        ap (λ b. put_all (serial_bus base) b fuel bytes s.device) v.at_base ∙ run in
      let s1 : Ns16550a R S Serial = record s {
        tx_ring = some (rb.pop_slice t n).1;
        device = d;
        stats = record (s.stats) { irq_tx_bytes = plus s.stats.irq_tx_bytes (length bytes) };
      } in
      let k1 : Keeps s s1 = (
        ap (λ xs. in_ring laws s.rx_ring ++ s.rx_buffer.items ++ xs) fifo,
        ap (λ xs. xs ++ laws.bytes (rb.pop_slice t n).1) sent
            ∙ append_assoc s.device.sent bytes (laws.bytes (rb.pop_slice t n).1)
            ∙ ap (λ xs. s.device.sent ++ xs) (popped laws t n)
            ∙ ap (λ o. s.device.sent ++ in_ring laws o) (sym e),
        record {
          at_base = v.at_base;
          room = omega (arith, v.room, ap length fifo);
          slots = v.slots;
          head = v.head;
          fuel_rx = omega (arith, v.fuel_rx, ap length fifo);
          fuel_tx = omega (arith, v.fuel_tx, slow);
          busy = busy;
          closed = closed;
        },
      ) in
      let (s2, run2, k2) = interleave-Kept s1 k1.2 in
      (s2, simp (send_chunk, run', run2), Kept-trans laws base capacity fuel s s1 s2 k1 k2)
