-- ===== src/Gpio/Registers.antt =====
-- gpio/sifive-gpio/src/gpio.rs. The modes are parameters; `1 << pin` on 32 bits shifts by the pin's
-- number modulo 32.
use glenda_drivers.Prelude.{ℕ, ◌+◌, ◌-◌, ◌%◌, ◌^◌, bit_and, bit_or, Bool, not, ◌==◌, if◌then◌else◌}
use glenda_drivers.Prelude.Handlers.{Result, ok, err}
use glenda_drivers.Glenda.{Error, invalid_args}
use glenda_drivers.Mmio.{Bus}

abbrev pub gpio_value : ℕ
gpio_value = 0x00

abbrev pub gpio_input_en : ℕ
gpio_input_en = 0x04

abbrev pub gpio_output_en : ℕ
gpio_output_en = 0x08

-- `MODE_INPUT` and `MODE_OUTPUT`
pub record Modes : Type 0 where
  pub mode_input : ℕ
  pub mode_output : ℕ

-- `1 << pin` and its complement.
abbrev pub bit_of : ℕ → ℕ
bit_of pin = 2 ^ (pin % 32)

abbrev pub others_of : ℕ → ℕ
others_of pin = 2 ^ 32 - 1 - bit_of pin

module _ {D : Type 0} (bus : Bus D) (base : ℕ) where
  unfoldable pub read_reg : ℕ → D → ℕ × D
  read_reg offset d = bus.read32 (base + offset) d

  unfoldable pub write_reg : ℕ → ℕ → D → D
  write_reg offset value d = bus.write32 (base + offset) value d

  unfoldable pub set_mode : Modes → ℕ → ℕ → D → Result Error (Unit {0}) × D
  set_mode modes pin mode d =
      if mode == modes.mode_input
      then (let (input, d1) = read_reg gpio_input_en d in
          let d2 = write_reg gpio_input_en (bit_or input (bit_of pin)) d1 in
          let (output, d3) = read_reg gpio_output_en d2 in
          (ok tt, write_reg gpio_output_en (bit_and output (others_of pin)) d3))
      else if mode == modes.mode_output
      then (let (output, d1) = read_reg gpio_output_en d in
          let d2 = write_reg gpio_output_en (bit_or output (bit_of pin)) d1 in
          let (input, d3) = read_reg gpio_input_en d2 in
          (ok tt, write_reg gpio_input_en (bit_and input (others_of pin)) d3))
      else (err invalid_args, d)

  unfoldable pub write : ℕ → Bool → D → Result Error (Unit {0}) × D
  write pin value d =
      let (val, d1) = read_reg gpio_value d in
      let val' = if value then bit_or val (bit_of pin) else bit_and val (others_of pin) in
      (ok tt, write_reg gpio_value val' d1)

  unfoldable pub read : ℕ → D → Result Error Bool × D
  read pin d =
      let (val, d1) = read_reg gpio_value d in (ok (not (bit_and val (bit_of pin) == 0)), d1)
