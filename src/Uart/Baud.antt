-- ===== src/Uart/Baud.antt =====
-- `set_baud_rate` against the registers of the serial port.
use glenda_drivers.Prelude.{ℕ, ◌*◌, ◌/◌, ◌%◌, ◌^◌, ◌<◌, ◌≡◌, arith, bit_and, done}
use glenda_drivers.Uart.Config.{calculate_divisor, uart_clock}
use glenda_drivers.Uart.Port.{fifo_setup}
use glenda_drivers.Uart.Device.{Serial}

-- The divisor of a rate that fits is the clock over 16 times the rate, rounded down.
pub calculate_divisor_lem :
    (baud : ℕ)
    → 0 < baud
    → 16 * baud < 2 ^ 32
    → calculate_divisor baud ≡ done (uart_clock / (16 * baud) % 2 ^ 16)
unfolding calculate_divisor
calculate_divisor_lem baud pos fits = ground arith

configured : ℕ → Serial → Serial
configured divisor d = record d {
  enabled = 0;
  line = 3;
  divisor_low = bit_and divisor 0xff;
  divisor_high = divisor / 2 ^ 8 % 2 ^ 8;
  fifo_control = fifo_setup;
  modem = 0xb;
}
