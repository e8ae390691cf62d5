-- ===== src/Gpio/Tests.antt =====
-- Runs of the pins' driver at concrete inputs: all pins are inputs, and the pins 0 and 2 are high.
use glenda_drivers.Prelude.{◌≡◌, refl, none, ◌==◌, if◌then◌else◌}
use glenda_drivers.Prelude.Handlers.{err}
use glenda_drivers.Glenda.{not_initialized}
use glenda_drivers.Gpio.Registers.{Modes}
use glenda_drivers.Gpio.Service.{on_write, with_gpio, answer}
use glenda_drivers.Gpio.Pins.{Words, words_bus}

abbrev modes : Modes
modes = record { mode_input = 0; mode_output = 1 }

abbrev words : Words
words = λ x. if x == 0 then 5 else if x == 4 then 0xffffffff else 0

-- A service that is not initialised refuses a write.
not_ready :
    (on_write
      (words_bus 0)
      (record { mr0 = 1; mr1 = 1; tag = none })
      (record { gpio = none; device = words })).0
    ≡ err not_initialized
unfolding on_write with_gpio answer
not_ready = refl
