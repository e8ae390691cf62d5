-- ===== src/Pci/Space.antt =====
-- A configuration space that keeps what is written to it, a word of 32 bits at every address.
use glenda_drivers.Prelude.{ℕ, ◌%◌, ◌^◌, ◌==◌, if◌then◌else◌}
use glenda_drivers.Mmio.{Bus}

abbrev pub Space : Type 0
Space = ℕ → ℕ

unfoldable pub space_bus : Bus Space
space_bus = record {
  read8 = λ a d. (0, d);
  write8 = λ a v d. d;
  read32 = λ a d. (d a % 2 ^ 32, d);
  write32 = λ a v d. (λ x. if x == a then v else d x);
  read64 = λ a d. (0, d);
}
