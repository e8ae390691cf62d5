-- ===== src/Uart/Receive.antt =====
-- uart/ns16550a/src/ns16550a/mod.rs: from the device to the software buffer and on to the RX ring.
use glenda_drivers.Prelude.{
  ℕ, zero, suc, ◌+◌, bit_and, not, true, false, Bool, none, some, List, [], ◌∷◌, ◌==◌, ltb,
  if◌then◌else◌, length, take, Outcome, done, fault,
}
use glenda_drivers.Prelude.Int.{as_i32}
use glenda_drivers.Glenda.{RingServer}
use glenda_drivers.Mmio.{Bus}
use glenda_drivers.Uart.Consts.{lsr, lsr_data_ready, lsr_overrun_error}
use glenda_drivers.Uart.Config.{rx_buffer_soft_limit}
use glenda_drivers.Uart.State.{Ns16550a, RingBuffer, push_back, front_len, pop_fronts, plus}
use glenda_drivers.Uart.Port.{read_reg, getchar}

abbrev pub is_empty : List ℕ → Bool
is_empty [] = true
is_empty (c ∷ cs) = false

module _ {R S D : Type 0} (bus : Bus D) where
  unfoldable pub record_lsr_errors : Ns16550a R S D → Ns16550a R S D
  unfolding read_reg
  record_lsr_errors s =
      let (status, d) = read_reg bus s.base lsr s.device in
      let st = s.stats in
      if not (bit_and status lsr_overrun_error == 0)
      then record s {
        device = d;
        stats = record st { rx_hw_lsr_overrun = plus st.rx_hw_lsr_overrun 1 };
      }
      else record s { device = d }

  -- A byte goes to the software buffer, and is dropped when the buffer is at its limit.
  unfoldable pub take_char : ℕ → ℕ → Ns16550a R S D → ℕ × Ns16550a R S D
  take_char c drained s =
      let st = s.stats in
      if ltb (length s.rx_buffer.items) rx_buffer_soft_limit
      then (
        drained + 1,
        record s {
          rx_buffer = push_back c s.rx_buffer;
          stats = record st { irq_rx_bytes = plus st.irq_rx_bytes 1 };
        },
      )
      else (drained, record s { stats = record st { rx_sw_drop = plus st.rx_sw_drop 1 } })

  -- The loop of `drain_rx_fifo_to_sw_buffer`; the fuel counts rounds.
  unfoldable pub drain_loop : ℕ → ℕ → ℕ → Ns16550a R S D → Outcome (ℕ × Ns16550a R S D)
  drain_loop zero budget drained s = fault
  drain_loop (suc fuel) budget drained s = elim (ltb drained budget) [
    | false ↦ done (drained, s)
    | true ↦
        let (c?, d) = getchar bus s.base s.device in
        elim c? [
          | none ↦ done (drained, record s { device = d })
          | some c ↦
              let (drained', s') = take_char c drained (record s { device = d }) in
              drain_loop fuel budget drained' s'
        ]
  ]

  unfoldable pub note_budget_hit : ℕ → ℕ → Ns16550a R S D → Ns16550a R S D
  unfolding read_reg
  note_budget_hit budget drained s =
      if ltb drained budget
      then s
      else (let (status, d) = read_reg bus s.base lsr s.device in
          let st = s.stats in
          if not (bit_and status lsr_data_ready == 0)
          then record s {
            device = d;
            stats = record st { rx_budget_hit = plus st.rx_budget_hit 1 };
          }
          else record s { device = d })

  unfoldable pub drain_rx_fifo_to_sw_buffer : ℕ → ℕ → Ns16550a R S D → Outcome (ℕ × Ns16550a R S D)
  drain_rx_fifo_to_sw_buffer fuel budget s =
      if budget == 0 then done (0, s) else elim (drain_loop fuel budget 0 (record_lsr_errors s)) [
        | fault ↦ fault
        | done (drained, s') ↦ done (drained, note_budget_hit budget drained s')
      ]

module _ {R S D : Type 0} (rb : RingBuffer R) (io : RingServer S) (capacity : ℕ) where
  abbrev pub count_full : Ns16550a R S D → Ns16550a R S D
  count_full s =
      let st = s.stats in
      record s { stats = record st { rx_ring_full_break = plus st.rx_ring_full_break 1 } }

  -- The loop of `process_rx_ring`: it pushes the front slice of the buffer, while all of it fits.
  unfoldable pub push_loop : ℕ → R → ℕ → Ns16550a R S D → Outcome (ℕ × R × Ns16550a R S D)
  push_loop zero r total s = fault
  push_loop (suc fuel) r total s =
      let n = front_len capacity s.rx_buffer in
      elim (is_empty s.rx_buffer.items) [
        | true ↦ done (total, r, s)
        | false ↦ elim (n == 0) [
          | true ↦ done (total, r, s)
          | false ↦
              let (pushed, r') = rb.push_slice r (take n s.rx_buffer.items) in
              let s' : Ns16550a R S D = record s {
                rx_buffer = pop_fronts capacity pushed s.rx_buffer;
              } in
              elim (pushed == 0) [
                | true ↦ done (total, r', count_full s)
                | false ↦ elim (ltb pushed n) [
                  | true ↦ done (total + pushed, r', count_full s')
                  | false ↦ push_loop fuel r' (total + pushed) s'
                ]
              ]
        ]
      ]

  -- A pending read is told how many bytes came; an error of `complete` is ignored.
  unfoldable pub notify_reader : ℕ → Ns16550a R S D → Ns16550a R S D
  notify_reader total s =
      if ltb 0 total
      then elim s.pending_read [
        | none ↦ s
        | some ud ↦ elim s.ring [
          | none ↦ s
          | some server ↦ record s { ring = some (io.complete server ud (as_i32 total)).1 }
        ]
      ]
      else s

  unfoldable pub process_rx_ring : Ns16550a R S D → Outcome (Ns16550a R S D)
  process_rx_ring s = elim s.rx_ring [
    | none ↦ done s
    | some r ↦ elim (push_loop (suc (length s.rx_buffer.items)) r 0 s) [
      | fault ↦ fault
      | done (total, r', s') ↦ done (notify_reader total (record s' { rx_ring = some r' }))
    ]
  ]
