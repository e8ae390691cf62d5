-- ===== src/Pci/Tests.antt =====
-- Runs of the PCI driver at concrete inputs.
use glenda_drivers.Prelude.{
  ℕ, ◌*◌, ◌≡◌, ◌≢◌, refl, arith, List, [], ◌∷◌, bit_and, ◌==◌, if◌then◌else◌,
}
use glenda_drivers.Pci.Platform.{detect}
use glenda_drivers.Pci.Config.{cfg_off, cfg_addr, aligned, read_u16, write_u16}
use glenda_drivers.Pci.Scan.{parse_bars}
use glenda_drivers.Pci.Space.{Space, space_bus}
use glenda_drivers.Pci.Addressing.{cfg_off_injective}
use glenda_drivers.Pci.Access.{write_u16_read}
use glenda_drivers.Pci.Bars.{Bar, unused, io_bar, memory, wide, words_of, Laid, parse_bars_reads}

abbrev Same : ℕ → ℕ → Type 0
Same a b = a ≡ b

cfg_off_injective_example : Same 3 3 × Same 31 31 × Same 7 7 × Same 0x3c 0x3c
cfg_off_injective_example =
    cfg_off_injective 3 31 7 0x3c 3 31 7 0x3c (omega arith) (omega arith) (omega arith)
      (omega arith) (omega arith) (omega arith) refl

-- A space whose every word is 0x12345678.
abbrev plain : Space
plain = λ a. 0x12345678

write_u16_read_example :
    ((read_u16 space_bus 0x40000000 0 2 0 6 (write_u16 space_bus 0x40000000 0 2 0 6 0xbeef plain)).0
      ≡ 0xbeef)
    × ((reg' : ℕ)
        → aligned reg' ≡ aligned 6
        → bit_and 6 2 * 8 ≢ bit_and reg' 2 * 8
        → (read_u16 space_bus 0x40000000 0 2 0 reg'
            (write_u16 space_bus 0x40000000 0 2 0 6 0xbeef plain)).0
          ≡ (read_u16 space_bus 0x40000000 0 2 0 reg' plain).0)
    × ((x : ℕ)
        → x ≢ cfg_addr space_bus 0x40000000 0 2 0 (aligned 6)
        → write_u16 space_bus 0x40000000 0 2 0 6 0xbeef plain x ≡ plain x)
write_u16_read_example = write_u16_read 0x40000000 0 2 0 6 0xbeef plain (omega arith)

-- A card with a range of ports, a 64-bit range of memory and a 32-bit one.
abbrev card : List Bar
card = io_bar 0x40 ∷ unused ∷ wide 0x4000010000 ∷ memory 0xfebf0000 ∷ unused ∷ []

abbrev card_space : Space
card_space = λ a.
    if a == 0x40008010
    then 0x41
    else if a == 0x40008018
    then 0x10004
    else if a == 0x4000801c
    then 0x40
    else if a == 0x40008020
    then 0xfebf0000
    else 0

card-Laid : Laid (detect 0x30000000 0) 0x40000000 0 1 0 card_space 0 (words_of card)
unfolding cfg_off
card-Laid = (refl, (refl, (refl, (refl, (refl, (refl, tt))))))

parse_bars_reads_example :
    (parse_bars (detect 0x30000000 0) space_bus 0x40000000 0 1 0 0 card_space).0
    ≡ record { base_addr = 0x03000040; size = 0x100 }
      ∷ record { base_addr = 0x4000010000; size = 0x1000 }
      ∷ record { base_addr = 0xfebf0000; size = 0x1000 }
      ∷ []
unfolding detect
parse_bars_reads_example =
    parse_bars_reads (detect 0x30000000 0) 0x40000000 0 1 0 0 card card_space
      (refl, omega arith, (refl, omega arith, (refl, omega arith, tt))) refl card-Laid
