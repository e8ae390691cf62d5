-- ===== src/Uart/Consts.antt =====
-- uart/ns16550a/src/ns16550a/consts.rs: register offsets and bits.
use glenda_drivers.Prelude.{ℕ}

abbrev pub thr : ℕ
thr = 0

abbrev pub rbr : ℕ
rbr = 0

abbrev pub dll : ℕ
dll = 0

abbrev pub dlm : ℕ
dlm = 1

abbrev pub ier : ℕ
ier = 1

abbrev pub iir : ℕ
iir = 2

abbrev pub fcr : ℕ
fcr = 2

abbrev pub lcr : ℕ
lcr = 3

abbrev pub mcr : ℕ
mcr = 4

abbrev pub lsr : ℕ
lsr = 5

abbrev pub msr : ℕ
msr = 6

abbrev pub scr : ℕ
scr = 7

abbrev pub ier_rx_enable : ℕ
ier_rx_enable = 1

abbrev pub ier_tx_enable : ℕ
ier_tx_enable = 2

abbrev pub ier_rls_enable : ℕ
ier_rls_enable = 4

abbrev pub ier_ms_enable : ℕ
ier_ms_enable = 8

abbrev pub fcr_fifo_enable : ℕ
fcr_fifo_enable = 1

abbrev pub fcr_fifo_rx_reset : ℕ
fcr_fifo_rx_reset = 2

abbrev pub fcr_fifo_tx_reset : ℕ
fcr_fifo_tx_reset = 4

abbrev pub fcr_fifo_dma_mode : ℕ
fcr_fifo_dma_mode = 8

abbrev pub fcr_fifo_64byte : ℕ
fcr_fifo_64byte = 32

abbrev pub fcr_fifo_trigger_1 : ℕ
fcr_fifo_trigger_1 = 0

abbrev pub fcr_fifo_trigger_4 : ℕ
fcr_fifo_trigger_4 = 64

abbrev pub fcr_fifo_trigger_8 : ℕ
fcr_fifo_trigger_8 = 128

abbrev pub fcr_fifo_trigger_14 : ℕ
fcr_fifo_trigger_14 = 192

abbrev pub lcr_data_bits_5 : ℕ
lcr_data_bits_5 = 0

abbrev pub lcr_data_bits_6 : ℕ
lcr_data_bits_6 = 1

abbrev pub lcr_data_bits_7 : ℕ
lcr_data_bits_7 = 2

abbrev pub lcr_data_bits_8 : ℕ
lcr_data_bits_8 = 3

abbrev pub lcr_stop_bits_1 : ℕ
lcr_stop_bits_1 = 0

abbrev pub lcr_stop_bits_2 : ℕ
lcr_stop_bits_2 = 4

abbrev pub lcr_parity_none : ℕ
lcr_parity_none = 0

abbrev pub lcr_parity_odd : ℕ
lcr_parity_odd = 8

abbrev pub lcr_parity_even : ℕ
lcr_parity_even = 24

abbrev pub lcr_dlab : ℕ
lcr_dlab = 128

abbrev pub mcr_dtr : ℕ
mcr_dtr = 1

abbrev pub mcr_rts : ℕ
mcr_rts = 2

abbrev pub mcr_out1 : ℕ
mcr_out1 = 4

abbrev pub mcr_out2 : ℕ
mcr_out2 = 8

abbrev pub mcr_loopback : ℕ
mcr_loopback = 16

abbrev pub lsr_data_ready : ℕ
lsr_data_ready = 1

abbrev pub lsr_overrun_error : ℕ
lsr_overrun_error = 2

abbrev pub lsr_parity_error : ℕ
lsr_parity_error = 4

abbrev pub lsr_framing_error : ℕ
lsr_framing_error = 8

abbrev pub lsr_break_interrupt : ℕ
lsr_break_interrupt = 16

abbrev pub lsr_thr_empty : ℕ
lsr_thr_empty = 32

abbrev pub lsr_transmitter_empty : ℕ
lsr_transmitter_empty = 64

abbrev pub lsr_fifo_error : ℕ
lsr_fifo_error = 128

abbrev pub iir_no_interrupt : ℕ
iir_no_interrupt = 1

abbrev pub iir_id_mask : ℕ
iir_id_mask = 0x0E

abbrev pub iir_rx_data_ready : ℕ
iir_rx_data_ready = 0x04

abbrev pub iir_timeout : ℕ
iir_timeout = 0x0C

abbrev pub iir_rls : ℕ
iir_rls = 0x06

abbrev pub iir_thr_empty : ℕ
iir_thr_empty = 0x02
