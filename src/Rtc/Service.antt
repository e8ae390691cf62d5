-- ===== src/Rtc/Service.antt =====
-- timer/goldfish-rtc/src/server.rs: the handlers. `rtc` is the address of the registers once the driver
-- is initialised.
use glenda_drivers.Prelude.{ℕ, ◌%◌, ◌^◌, Bool, true, false, Option, none, some}
use glenda_drivers.Prelude.Handlers.{Result, ok, err}
use glenda_drivers.Glenda.{Error, not_initialized}
use glenda_drivers.Mmio.{Bus}
use glenda_drivers.Rtc.Registers.{get_time, set_time, set_alarm, stop_alarm}

-- What the handlers use of the message: its first word, and whether its tag says success.
pub record Utcb : Type 0 where
  pub mr : ℕ
  pub tag : Option Bool

pub record RtcService (D : Type 0) : Type 0 where
  pub rtc : Option ℕ
  pub device : D

module _ {D : Type 0} where
  -- `if let Some(rtc) = &mut self.rtc { … } else { Err(NotInitialized) }`
  unfoldable pub with_rtc :
      (ℕ → D → Result Error (Unit {0}) × D) → RtcService D → Result Error (Unit {0}) × RtcService D
  with_rtc f s = elim s.rtc [
    | none ↦ (err not_initialized, s)
    | some base ↦ let (res, d) = f base s.device in (res, record s { device = d })
  ]

  -- A handler that sets the tag unless the operation fails.
  unfoldable pub answer :
      Utcb → Result Error (Unit {0}) × RtcService D → Result Error (Unit {0}) × Utcb × RtcService D
  answer utcb (err e, s) = (err e, utcb, s)
  answer utcb (ok u, s) = (ok u, record utcb { tag = some true }, s)

  -- What `run` makes of a request that fails: the tag says so, and the first word is the error's number.
  unfoldable pub reported :
      (Error → ℕ) → Result Error (Unit {0}) × Utcb × RtcService D → Utcb × RtcService D
  reported code (ok u, utcb, s) = (utcb, s)
  reported code (err e, utcb, s) = (record utcb { mr = code e; tag = some false }, s)

module _ {D : Type 0} (bus : Bus D) where
  unfoldable pub time_of : RtcService D → ℕ × RtcService D
  time_of s = elim s.rtc [
    | none ↦ (0, s)
    | some base ↦ let (time, d) = get_time bus base s.device in (time, record s { device = d })
  ]

  unfoldable pub on_get_time : Utcb → RtcService D → Result Error (Unit {0}) × Utcb × RtcService D
  on_get_time utcb s =
      let (time, s1) = time_of s in (ok tt, record utcb { mr = time % 2 ^ 64; tag = some true }, s1)

  unfoldable pub on_set_time : Utcb → RtcService D → Result Error (Unit {0}) × Utcb × RtcService D
  on_set_time utcb s = answer utcb (with_rtc (λ base. set_time bus base utcb.mr) s)

  unfoldable pub on_set_alarm : Utcb → RtcService D → Result Error (Unit {0}) × Utcb × RtcService D
  on_set_alarm utcb s = answer utcb (with_rtc (λ base. set_alarm bus base utcb.mr) s)

  unfoldable pub on_stop_alarm : Utcb → RtcService D → Result Error (Unit {0}) × Utcb × RtcService D
  on_stop_alarm utcb s = answer utcb (with_rtc (λ base. stop_alarm bus base) s)

  unfoldable pub on_get_freq : Utcb → RtcService D → Result Error (Unit {0}) × Utcb × RtcService D
  on_get_freq utcb s = (ok tt, record utcb { mr = 1000000000; tag = some true }, s)
