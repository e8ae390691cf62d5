-- ===== src/Pci/Routing.antt =====
-- Interrupt routing and the scan window.
use glenda_drivers.Prelude.{ℕ, ◌+◌, ◌-◌, ◌%◌, ◌≤◌, ◌<◌, ◌≡◌, ◌≢◌, arith, none, some, ◌⊎◌}
use glenda_drivers.Prelude.Bits.{and_mask}
use glenda_drivers.Pci.Platform.{detect, map_intx_irq}

-- On QEMU's host bridge, the interrupt pins A to D (1 to 4) of the devices of bus 0 go to the lines 32
-- to 35 in turn, starting one line later for each device.
pub map_intx_irq_swizzles :
    (size dev pin : ℕ)
    → 1 ≤ pin
    → pin ≤ 4
    → dev < 32
    → map_intx_irq (detect 0x30000000 size) 0 dev pin ≡ some (32 + (dev + pin - 1) % 4)
unfolding map_intx_irq detect
map_intx_irq_swizzles size dev pin h1 h4 hd = ground (arith, and_mask 2 (dev + pin - 1))

-- Any other pin, another bus, and any other host bridge have no route.
pub map_intx_irq-none :
    (phys size bus dev pin : ℕ)
    → ((pin ≡ 0) ⊎ (4 < pin)) ⊎ ((bus ≢ 0) ⊎ (phys ≢ 0x30000000))
    → map_intx_irq (detect phys size) bus dev pin ≡ none
unfolding map_intx_irq detect
map_intx_irq-none phys size bus dev pin why = ground arith
