-- ===== src/Rtc/Tests.antt =====
-- Runs of the clock's driver at concrete inputs: a clock at 2 ^ 32 - 1, which the next access takes over
-- the border of its low half.
use glenda_drivers.Prelude.{◌≡◌, refl, arith, true, false, none, some}
use glenda_drivers.Prelude.Handlers.{ok}
use glenda_drivers.Rtc.Registers.{set_alarm}
use glenda_drivers.Rtc.Service.{Utcb, on_get_time, on_set_time, with_rtc, answer, reported}
use glenda_drivers.Rtc.Clock.{Clock, clock_bus, on_get_time_reads, set_alarm_arms}

abbrev clock : Clock
clock = record {
  now = 0xffffffff;
  pace = 3;
  latched = 0;
  waiting = 5;
  alarm = 0;
  armed = false;
  enabled = false;
}

abbrev blank : Utcb
blank = record { mr = 0; tag = none }

on_get_time_reads_example :
    (on_get_time (clock_bus 0x50000000) blank (record { rtc = some 0x50000000; device = clock })).1
    ≡ record { mr = 0xffffffff; tag = some true }
on_get_time_reads_example = on_get_time_reads 0x50000000 blank clock (omega arith)

-- An alarm for 2 ^ 32 + 7, where the high half of the alarm before was 5.
set_alarm_arms_example :
    (d' : Clock) × (set_alarm (clock_bus 0x50000000) 0x50000000 0x100000007 clock ≡ (ok tt, d'))
    × (d'.alarm ≡ 0x500000007)
    × (d'.waiting ≡ 1)
    × (d'.armed ≡ true)
    × (d'.enabled ≡ true)
set_alarm_arms_example = set_alarm_arms 0x50000000 0x100000007 clock (omega arith)

-- A service that is not initialised refuses to set the time.
not_ready :
    (reported
      (λ e. 9)
      (on_set_time (clock_bus 0x50000000) blank (record { rtc = none; device = clock }))).0
    ≡ record { mr = 9; tag = some false }
unfolding reported on_set_time with_rtc answer
not_ready = refl
