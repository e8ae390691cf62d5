-- ===== src/Uart/Transmit.antt =====
-- uart/ns16550a/src/ns16550a/mod.rs: from the TX ring to the device.
use glenda_drivers.Prelude.{
  ℕ, zero, suc, ◌+◌, ◌-◌, min, true, false, none, some, List, [], ◌∷◌, ◌==◌, ltb, if◌then◌else◌,
  length, Outcome, done, fault,
}
use glenda_drivers.Glenda.{RingServer}
use glenda_drivers.Mmio.{Bus}
use glenda_drivers.Uart.Config.{tx_ring_chunk, rx_tx_interleave_budget_bytes}
use glenda_drivers.Uart.State.{Ns16550a, RingBuffer, plus}
use glenda_drivers.Uart.Port.{put_all}
use glenda_drivers.Uart.Receive.{drain_rx_fifo_to_sw_buffer, process_rx_ring}

module _ {R S D : Type 0} (bus : Bus D) (rb : RingBuffer R) (io : RingServer S)
    (capacity fuel : ℕ) where
  -- The quick look at the receiver between two chunks.
  unfoldable pub interleave : Ns16550a R S D → Outcome (Ns16550a R S D)
  interleave s = elim (drain_rx_fifo_to_sw_buffer bus fuel rx_tx_interleave_budget_bytes s) [
    | fault ↦ fault
    | done (n, s') ↦ if ltb 0 n then process_rx_ring rb io capacity s' else done s'
  ]

  -- One chunk that was read from the ring goes out.
  unfoldable pub send_chunk : List ℕ → Ns16550a R S D → Outcome (Ns16550a R S D)
  send_chunk bytes s = elim (put_all bus s.base fuel bytes s.device) [
    | fault ↦ fault
    | done d ↦
        let st = s.stats in
        interleave (record s {
          device = d;
          stats = record st { irq_tx_bytes = plus st.irq_tx_bytes (length bytes) };
        })
  ]

  -- The loop of `process_tx_ring`: what is left of the budget, and what was written so far.
  unfoldable pub tx_loop : ℕ → ℕ → ℕ → Ns16550a R S D → Outcome (ℕ × ℕ × Ns16550a R S D)
  tx_loop zero left total s = fault
  tx_loop (suc rounds) left total s = elim (ltb 0 left) [
    | false ↦ done (left, total, s)
    | true ↦ elim s.tx_ring [
      | none ↦ done (left, total, s)
      | some t ↦
          let (bytes, t') = rb.pop_slice t (min tx_ring_chunk left) in
          elim bytes [
            | [] ↦ done (left, total, record s { tx_ring = some t' })
            | b ∷ bs ↦ elim (send_chunk (b ∷ bs) (record s { tx_ring = some t' })) [
              | fault ↦ fault
              | done s' ↦ tx_loop rounds (left - length (b ∷ bs)) (total + length (b ∷ bs)) s'
            ]
          ]
    ]
  ]

  abbrev pub pending_tx : Ns16550a R S D → ℕ
  pending_tx s = elim s.tx_ring [ none ↦ 0 | some t ↦ rb.len t ]

  unfoldable pub note_tx_hit : ℕ → Ns16550a R S D → Ns16550a R S D
  note_tx_hit left s =
      let st = s.stats in
      if left == 0
      then (if ltb 0 (pending_tx s)
          then record s { stats = record st { tx_budget_hit = plus st.tx_budget_hit 1 } }
          else s)
      else s

  unfoldable pub process_tx_ring : ℕ → Ns16550a R S D → Outcome (ℕ × Ns16550a R S D)
  process_tx_ring budget s =
      if budget == 0 then done (0, s) else elim (tx_loop (suc budget) budget 0 s) [
        | fault ↦ fault
        | done (left, total, s') ↦ done (total, note_tx_hit left s')
      ]
