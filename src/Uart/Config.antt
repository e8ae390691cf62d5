-- ===== src/Uart/Config.antt =====
-- uart/ns16550a/src/ns16550a/config.rs: budgets, and the divisor of a baud rate.
use glenda_drivers.Prelude.{ℕ, ◌*◌, ◌/◌, ◌%◌, ◌^◌, ◌==◌, if◌then◌else◌, Outcome, done, fault}

abbrev pub uart_clock : ℕ
uart_clock = 1843200

abbrev pub default_baud_rate : ℕ
default_baud_rate = 38400

abbrev pub rx_buffer_soft_limit : ℕ
rx_buffer_soft_limit = 4096

abbrev pub tx_ring_chunk : ℕ
tx_ring_chunk = 128

abbrev pub rx_irq_budget_bytes : ℕ
rx_irq_budget_bytes = 512

abbrev pub rx_tx_interleave_budget_bytes : ℕ
rx_tx_interleave_budget_bytes = 64

abbrev pub tx_irq_budget_bytes : ℕ
tx_irq_budget_bytes = 512

abbrev pub tx_sq_budget_bytes : ℕ
tx_sq_budget_bytes = 1024

abbrev pub irq_event_budget : ℕ
irq_event_budget = 64

abbrev pub log_throttle_every : ℕ
log_throttle_every = 1024

-- `16 * baud` wraps on `u32`, a division by 0 panics, and the quotient is cut to `u16`.
unfoldable pub calculate_divisor : ℕ → Outcome ℕ
calculate_divisor baud =
    let d = 16 * baud % 2 ^ 32 in if d == 0 then fault else done (uart_clock / d % 2 ^ 16)
