-- ===== src/Rtc/Registers.antt =====
-- timer/goldfish-rtc/src/rtc.rs.
use glenda_drivers.Prelude.{ℕ, ◌+◌, ◌*◌, ◌/◌, ◌%◌, ◌^◌, bit_and, bit_or, Bool, not, ◌==◌}
use glenda_drivers.Prelude.Handlers.{Result, ok}
use glenda_drivers.Glenda.{Error}
use glenda_drivers.Mmio.{Bus}

abbrev pub timer_time_low : ℕ
timer_time_low = 0x00

abbrev pub timer_time_high : ℕ
timer_time_high = 0x04

abbrev pub timer_alarm_low : ℕ
timer_alarm_low = 0x08

abbrev pub timer_alarm_high : ℕ
timer_alarm_high = 0x0c

abbrev pub timer_irq_enabled : ℕ
timer_irq_enabled = 0x10

abbrev pub timer_clear_alarm : ℕ
timer_clear_alarm = 0x14

abbrev pub timer_alarm_status : ℕ
timer_alarm_status = 0x18

abbrev pub timer_clear_interrupt : ℕ
timer_clear_interrupt = 0x1c

abbrev pub timer_set_time_low : ℕ
timer_set_time_low = 0x20

abbrev pub timer_set_time_high : ℕ
timer_set_time_high = 0x24

module _ {D : Type 0} (bus : Bus D) (base : ℕ) where
  abbrev pub read_reg : ℕ → D → ℕ × D
  read_reg offset d = bus.read32 (base + offset) d

  abbrev pub write_reg : ℕ → ℕ → D → D
  write_reg offset value d = bus.write32 (base + offset) value d

  unfoldable pub ack_interrupt : D → D
  ack_interrupt d = write_reg timer_clear_interrupt 1 d

  unfoldable pub is_alarm_triggered : D → Bool × D
  is_alarm_triggered d = let (status, d1) = read_reg timer_alarm_status d in (not (status == 0), d1)

  unfoldable pub get_time : D → ℕ × D
  get_time d =
      let (low, d1) = read_reg timer_time_low d in
      let (high, d2) = read_reg timer_time_high d1 in (bit_or (high * 2 ^ 32 % 2 ^ 64) low, d2)

  unfoldable pub set_time : ℕ → D → Result Error (Unit {0}) × D
  set_time timestamp d =
      let d1 = write_reg timer_set_time_low (bit_and timestamp 0xffffffff % 2 ^ 32) d in
      let d2 = write_reg timer_set_time_high (timestamp / 2 ^ 32 % 2 ^ 32) d1 in (ok tt, d2)

  unfoldable pub set_alarm : ℕ → D → Result Error (Unit {0}) × D
  set_alarm timestamp d =
      let d1 = write_reg timer_alarm_low (bit_and timestamp 0xffffffff % 2 ^ 32) d in
      let d2 = write_reg timer_alarm_high (timestamp / 2 ^ 32 % 2 ^ 32) d1 in
      (ok tt, write_reg timer_irq_enabled 1 d2)

  unfoldable pub stop_alarm : D → Result Error (Unit {0}) × D
  stop_alarm d =
      let d1 = write_reg timer_irq_enabled 0 d in (ok tt, write_reg timer_clear_alarm 1 d1)
