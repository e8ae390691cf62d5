-- ===== src/Uart/Driver.antt =====
-- uart/ns16550a/src/ns16550a/mod.rs: interrupts and requests.
use glenda_drivers.Prelude.{
  ℕ, zero, suc, bit_and, Bool, true, false, not, ◌||◌, none, some, ◌==◌, ltb, if◌then◌else◌,
  Outcome, done, fault,
}
use glenda_drivers.Prelude.Int.{as_i32, ℤ, pos}
use glenda_drivers.Glenda.{RingServer, Sqe, Opcodes}
use glenda_drivers.Mmio.{Bus}
use glenda_drivers.Uart.Consts.{
  iir, iir_no_interrupt, iir_id_mask, iir_rx_data_ready, iir_timeout, iir_rls, iir_thr_empty,
}
use glenda_drivers.Uart.Config.{
  irq_event_budget, rx_irq_budget_bytes, tx_irq_budget_bytes, tx_sq_budget_bytes,
}
use glenda_drivers.Uart.State.{Ns16550a, RingBuffer, plus}
use glenda_drivers.Uart.Port.{read_reg}
use glenda_drivers.Uart.Receive.{
  is_empty, record_lsr_errors, drain_rx_fifo_to_sw_buffer, process_rx_ring,
}
use glenda_drivers.Uart.Transmit.{process_tx_ring}

module _ {R S D : Type 0} (bus : Bus D) (rb : RingBuffer R) (io : RingServer S)
    (capacity fuel : ℕ) where
  -- One event, by its identification; it says whether bytes were received.
  unfoldable pub handle_event : ℕ → Ns16550a R S D → Outcome (Bool × Ns16550a R S D)
  handle_event id s =
      let st = s.stats in
      if id == iir_rx_data_ready || id == iir_timeout || id == iir_rls
      then elim (drain_rx_fifo_to_sw_buffer bus fuel rx_irq_budget_bytes
          (record s { stats = record st { irq_rx_batches = plus st.irq_rx_batches 1 } })) [
            | fault ↦ fault
            | done (n, s') ↦ done (ltb 0 n, s')
          ]
      else if id == iir_thr_empty
      then elim (process_tx_ring bus rb io capacity fuel tx_irq_budget_bytes s) [
        | fault ↦ fault
        | done (n, s') ↦ done (false, s')
      ]
      else done (false, record_lsr_errors bus s)

  -- The loop of `handle_irq`; the first argument is `IRQ_EVENT_BUDGET - irq_events`.
  unfoldable pub irq_loop : ℕ → Bool → Ns16550a R S D → Outcome (Bool × Ns16550a R S D)
  irq_loop zero has_data s =
      let st = s.stats in
      done (
        has_data,
        record s { stats = record st { irq_event_budget_hit = plus st.irq_event_budget_hit 1 } },
      )
  irq_loop (suc left) has_data s =
      let (cause, d) = read_reg bus s.base iir s.device in
      let s1 : Ns16550a R S D = record s { device = d } in
      elim (bit_and cause iir_no_interrupt == 0) [
        | false ↦ done (has_data, s1)
        | true ↦ elim (handle_event (bit_and cause iir_id_mask) s1) [
          | fault ↦ fault
          | done (got, s2) ↦ irq_loop left (has_data || got) s2
        ]
      ]

  unfoldable pub handle_irq : Ns16550a R S D → Outcome (Ns16550a R S D)
  handle_irq s = elim (irq_loop irq_event_budget false s) [
    | fault ↦ fault
    | done (has_data, s') ↦
        if has_data || not (is_empty s'.rx_buffer.items)
        then process_rx_ring rb io capacity s'
        else done s'
  ]

  -- `if let Some(ring)`: an answer, whose error is ignored.
  abbrev pub reply : ℕ → ℤ → Ns16550a R S D → Ns16550a R S D
  reply ud res s = elim s.ring [
    | none ↦ s
    | some server ↦ record s { ring = some (io.complete server ud res).1 }
  ]

  unfoldable pub handle_cq : Ns16550a R S D → Outcome (Ns16550a R S D)
  handle_cq s =
      if not (is_empty s.rx_buffer.items) then process_rx_ring rb io capacity s else done s

  -- `not_supported_res` is `-(Error::NotSupported as i32)`.
  module _ (ops : Opcodes) (not_supported_res : ℤ) where
    unfoldable pub handle_sqe : Sqe → Ns16550a R S D → Outcome (Ns16550a R S D)
    handle_sqe sqe s =
        if sqe.opcode == ops.op_write
        then elim (process_tx_ring bus rb io capacity fuel tx_sq_budget_bytes s) [
          | fault ↦ fault
          | done (written, s') ↦
              done
                (reply sqe.user_data (if sqe.addr == 0 then as_i32 written else as_i32 sqe.len) s')
        ]
        else if sqe.opcode == ops.op_read
        then elim (process_rx_ring rb io capacity
            (record s { pending_read = some sqe.user_data })) [
              | fault ↦ fault
              | done s' ↦ done (reply sqe.user_data (pos 0) s')
            ]
        else done (reply sqe.user_data not_supported_res s)

    -- The loop of `handle_sq`; it ends when the ring has no request left.
    unfoldable pub sq_loop : ℕ → Ns16550a R S D → Outcome (Ns16550a R S D)
    sq_loop zero s = fault
    sq_loop (suc rounds) s = elim s.ring [
      | none ↦ done s
      | some server ↦
          let (sqe?, server') = io.next_request server in
          elim sqe? [
            | none ↦ done (record s { ring = some server' })
            | some sqe ↦ elim (handle_sqe sqe (record s { ring = some server' })) [
              | fault ↦ fault
              | done s' ↦ sq_loop rounds s'
            ]
          ]
    ]

    unfoldable pub handle_sq : ℕ → Ns16550a R S D → Outcome (Ns16550a R S D)
    handle_sq rounds s = elim (sq_loop rounds s) [ fault ↦ fault | done s' ↦ handle_cq s' ]
