-- ===== src/Gpio/Service.antt =====
-- gpio/sifive-gpio/src/server.rs: the handlers. `gpio` is the address of the registers once the driver
-- is initialised.
use glenda_drivers.Prelude.{ℕ, ◌%◌, ◌^◌, not, ◌==◌, Bool, true, Option, none, some, if◌then◌else◌}
use glenda_drivers.Prelude.Handlers.{Result, ok, err}
use glenda_drivers.Glenda.{Error, not_initialized}
use glenda_drivers.Mmio.{Bus}
use glenda_drivers.Gpio.Registers.{Modes, set_mode, write, read}

-- What the handlers use of the message: two words, and whether its tag says success.
pub record Utcb : Type 0 where
  pub mr0 : ℕ
  pub mr1 : ℕ
  pub tag : Option Bool

pub record GpioService (D : Type 0) : Type 0 where
  pub gpio : Option ℕ
  pub device : D

module _ {D A : Type 0} where
  -- `if let Some(gpio) = &mut self.gpio { … } else { Err(NotInitialized) }`
  unfoldable pub with_gpio :
      (ℕ → D → Result Error A × D) → GpioService D → Result Error A × GpioService D
  with_gpio f s = elim s.gpio [
    | none ↦ (err not_initialized, s)
    | some base ↦ let (res, d) = f base s.device in (res, record s { device = d })
  ]

  -- A handler that answers with `f` unless the operation fails.
  unfoldable pub answer :
      (A → Utcb → Utcb)
      → Utcb
      → Result Error A × GpioService D
      → Result Error (Unit {0}) × Utcb × GpioService D
  answer f utcb (err e, s) = (err e, utcb, s)
  answer f utcb (ok a, s) = (ok tt, f a utcb, s)

abbrev done_ : Unit {0} → Utcb → Utcb
done_ u utcb = record utcb { tag = some true }

module _ {D : Type 0} (bus : Bus D) where
  unfoldable pub on_set_mode :
      Modes → Utcb → GpioService D → Result Error (Unit {0}) × Utcb × GpioService D
  on_set_mode modes utcb s =
      let pin = utcb.mr0 % 2 ^ 32 in
      let mode = utcb.mr1 % 2 ^ 8 in
      answer done_ utcb (with_gpio (λ base. set_mode bus base modes pin mode) s)

  unfoldable pub on_write : Utcb → GpioService D → Result Error (Unit {0}) × Utcb × GpioService D
  on_write utcb s =
      let pin = utcb.mr0 % 2 ^ 32 in
      let value = not (utcb.mr1 == 0) in
      answer done_ utcb (with_gpio (λ base. write bus base pin value) s)

  unfoldable pub on_read : Utcb → GpioService D → Result Error (Unit {0}) × Utcb × GpioService D
  on_read utcb s =
      let pin = utcb.mr0 % 2 ^ 32 in
      answer (λ value utcb. record utcb { mr0 = if value then 1 else 0; tag = some true }) utcb
        (with_gpio (λ base. read bus base pin) s)
