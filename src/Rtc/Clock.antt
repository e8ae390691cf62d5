-- ===== src/Rtc/Clock.antt =====
-- The clock as its data sheet describes it, and what the driver of timer/goldfish-rtc/src makes of it.
use glenda_drivers.Prelude.{
  ℕ, ◌+◌, ◌-◌, ◌*◌, ◌/◌, ◌%◌, ◌^◌, ◌<◌, ◌≡◌, refl, ap, ◌∙◌, arith, ◌==◌, if◌then◌else◌, Bool, true,
  false, some, bit_or,
}
use glenda_drivers.Prelude.Bits.{or_fields, and_mask}
use glenda_drivers.Prelude.Handlers.{ok}
use glenda_drivers.Mmio.{Bus}
use glenda_drivers.Rtc.Registers.{get_time, set_alarm, stop_alarm}
use glenda_drivers.Rtc.Service.{Utcb, on_get_time, time_of}

-- The time in nanoseconds, which every access takes forward by `pace`; the high half that the last
-- read of TIME_LOW kept; the high half that waits for a write of ALARM_LOW; the time of the alarm, which that
-- write sets; whether an alarm is set, and whether it interrupts.
pub record Clock : Type 0 where
  pub now : ℕ
  pub pace : ℕ
  pub latched : ℕ
  pub waiting : ℕ
  pub alarm : ℕ
  pub armed : Bool
  pub enabled : Bool

abbrev tick : Clock → Clock
tick d = record d { now = (d.now + d.pace) % 2 ^ 64 }

unfoldable pub clock_read : ℕ → Clock → ℕ × Clock
clock_read off d =
    if off == 0
    then (d.now % 2 ^ 32, tick (record d { latched = d.now / 2 ^ 32 }))
    else if off == 4
    then (d.latched, tick d)
    else (0, tick d)

unfoldable pub clock_write : ℕ → ℕ → Clock → Clock
clock_write off val d =
    if off == 8
    then tick (record d { alarm = d.waiting * 2 ^ 32 + val; armed = true })
    else if off == 0xc
    then tick (record d { waiting = val })
    else if off == 0x10
    then tick (record d { enabled = if val == 0 then false else true })
    else if off == 0x14
    then tick (record d { armed = false })
    else tick d

-- The clock at an address; it has registers of 32 bits only.
abbrev pub clock_bus : ℕ → Bus Clock
clock_bus base = record {
  read8 = λ addr d. (0, d);
  write8 = λ addr val d. d;
  read32 = λ addr d. clock_read (addr - base) d;
  write32 = λ addr val d. clock_write (addr - base) val d;
  read64 = λ addr d. (0, d);
}

halves : (t : ℕ) → t < 2 ^ 64 → bit_or (t / 2 ^ 32 * 2 ^ 32 % 2 ^ 64) (t % 2 ^ 32) ≡ t
halves t h =
    ap (λ (x : ℕ). bit_or x (t % 2 ^ 32)) (omega arith)
    ∙ or_fields 32 (t / 2 ^ 32) (t % 2 ^ 32) (omega arith)
    ∙ omega arith

-- However fast the clock runs, `get_time` returns the time of its first read.
pub get_time_reads :
    (base : ℕ) (d : Clock) → d.now < 2 ^ 64 → (get_time (clock_bus base) base d).0 ≡ d.now
unfolding get_time clock_read
get_time_reads base d h =
    let low : base + 0 - base ≡ 0 = omega arith in
    let high : base + 4 - base ≡ 4 = omega arith in simp (low, high, halves d.now h)

-- An initialised service answers a request for the time with the time.
pub on_get_time_reads :
    (base : ℕ) (utcb : Utcb) (d : Clock)
    → d.now < 2 ^ 64
    → (on_get_time (clock_bus base) utcb (record { rtc = some base; device = d })).1
      ≡ record { mr = d.now; tag = some true }
unfolding on_get_time time_of
on_get_time_reads base utcb d h =
    ap (λ (t : ℕ). record { mr = t % 2 ^ 64; tag = some true }) (get_time_reads base d h)
    ∙ ap (λ (t : ℕ). record { mr = t; tag = some true }) (omega arith)

-- `set_alarm` writes the low half first, which arms the alarm: the alarm gets the low half of the time
-- with the high half that waited, and the new high half waits for the next alarm.
pub set_alarm_arms :
    (base timestamp : ℕ) (d : Clock)
    → timestamp < 2 ^ 64
    → (d' : Clock) × (set_alarm (clock_bus base) base timestamp d ≡ (ok tt, d'))
      × (d'.alarm ≡ d.waiting * 2 ^ 32 + timestamp % 2 ^ 32)
      × (d'.waiting ≡ timestamp / 2 ^ 32)
      × (d'.armed ≡ true)
      × (d'.enabled ≡ true)
unfolding set_alarm clock_write
set_alarm_arms base timestamp d h =
    let r8 : base + 8 - base ≡ 8 = omega arith in
    let r12 : base + 0xc - base ≡ 0xc = omega arith in
    let r16 : base + 0x10 - base ≡ 0x10 = omega arith in
    (
      (set_alarm (clock_bus base) base timestamp d).1,
      refl,
      simp (r8, r12, r16, and_mask 32 timestamp) (omega arith),
      simp (r8, r12, r16) (omega arith),
      simp (r8, r12, r16),
      simp (r8, r12, r16),
    )

-- After `stop_alarm` no alarm is set and none interrupts; the time to come is not touched.
pub stop_alarm_disarms :
    (base : ℕ) (d : Clock)
    → (d' : Clock) × (stop_alarm (clock_bus base) base d ≡ (ok tt, d'))
      × (d'.armed ≡ false)
      × (d'.enabled ≡ false)
      × (d'.alarm ≡ d.alarm)
unfolding stop_alarm clock_write
stop_alarm_disarms base d =
    let r16 : base + 0x10 - base ≡ 0x10 = omega arith in
    let r20 : base + 0x14 - base ≡ 0x14 = omega arith in
    (
      (stop_alarm (clock_bus base) base d).1,
      refl,
      simp (r16, r20),
      simp (r16, r20),
      simp (r16, r20),
    )
