-- ===== src/Uart/Port.antt =====
-- uart/ns16550a/src/ns16550a/mod.rs: register accesses, single characters, the baud rate.
use glenda_drivers.Prelude.{
  ℕ, zero, suc, ◌+◌, ◌/◌, ◌%◌, ◌^◌, bit_and, bit_or, not, Option, none, some, List, [], ◌∷◌, ◌==◌,
  if◌then◌else◌, length, Outcome, done, fault,
}
use glenda_drivers.Mmio.{Bus}
use glenda_drivers.Uart.Consts.{
  thr, rbr, dll, dlm, ier, fcr, lcr, mcr, lsr, ier_rx_enable, ier_rls_enable, fcr_fifo_enable,
  fcr_fifo_rx_reset, fcr_fifo_tx_reset, fcr_fifo_trigger_14, lcr_dlab, lcr_data_bits_8,
  lcr_stop_bits_1, lcr_parity_none, mcr_out2, mcr_rts, mcr_dtr, lsr_data_ready, lsr_thr_empty,
}
use glenda_drivers.Uart.Config.{calculate_divisor, default_baud_rate}

abbrev pub fifo_setup : ℕ
fifo_setup =
    bit_or (bit_or (bit_or fcr_fifo_enable fcr_fifo_rx_reset) fcr_fifo_tx_reset) fcr_fifo_trigger_14

module _ {D : Type 0} (bus : Bus D) (base : ℕ) where
  unfoldable pub read_reg : ℕ → D → ℕ × D
  read_reg offset d = bus.read8 (base + offset) d

  unfoldable pub write_reg : ℕ → ℕ → D → D
  write_reg offset val d = bus.write8 (base + offset) val d

  unfoldable pub getchar : D → Option ℕ × D
  unfolding read_reg
  getchar d =
      let (status, d1) = read_reg lsr d in
      if not (bit_and status lsr_data_ready == 0)
      then (let (c, d2) = read_reg rbr d1 in (some c, d2))
      else (none, d1)

  -- The wait for the transmitter; the fuel counts the reads of its status.
  unfoldable pub putchar : ℕ → ℕ → D → Outcome D
  unfolding read_reg write_reg
  putchar zero c d = fault
  putchar (suc fuel) c d =
      let (status, d1) = read_reg lsr d in
      let again = putchar fuel c d1 in
      if bit_and status lsr_thr_empty == 0 then again else done (write_reg thr c d1)

  -- `putchar` of each byte in order.
  unfoldable pub put_all : ℕ → List ℕ → D → Outcome D
  put_all fuel [] d = done d
  put_all fuel (c ∷ cs) d = elim (putchar fuel c d) [ fault ↦ fault | done d1 ↦ put_all fuel cs d1 ]

  unfoldable pub set_baud_rate : ℕ → D → Outcome D
  unfolding write_reg
  set_baud_rate baud d = elim (calculate_divisor baud) [
    | fault ↦ fault
    | done divisor ↦
        let d1 = write_reg ier 0 d in
        let d2 = write_reg lcr lcr_dlab d1 in
        let d3 = write_reg dll (bit_and divisor 0xff) d2 in
        let d4 = write_reg dlm (divisor / 2 ^ 8 % 2 ^ 8) d3 in
        let d5 =
          write_reg lcr (bit_or (bit_or lcr_data_bits_8 lcr_stop_bits_1) lcr_parity_none) d4 in
        let d6 = write_reg fcr fifo_setup d5 in
        done (write_reg mcr (bit_or (bit_or mcr_out2 mcr_rts) mcr_dtr) d6)
  ]

  unfoldable pub init_hw : D → Outcome D
  unfolding write_reg
  init_hw d = elim (set_baud_rate default_baud_rate d) [
    | fault ↦ fault
    | done d1 ↦ done (write_reg ier (bit_or ier_rx_enable ier_rls_enable) d1)
  ]

  -- `UartDriver::write` and `read`
  unfoldable pub write : ℕ → List ℕ → D → Outcome (ℕ × D)
  write fuel buf d = elim (put_all fuel buf d) [ fault ↦ fault | done d1 ↦ done (length buf, d1) ]

  -- At most `n` bytes, the size of the caller's buffer.
  unfoldable pub read : ℕ → D → List ℕ × D
  read zero d = ([], d)
  read (suc n) d =
      let (c?, d1) = getchar d in
      let (cs, d2) = read n d1 in elim c? [ none ↦ ([], d1) | some c ↦ (c ∷ cs, d2) ]
