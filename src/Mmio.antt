-- ===== src/Mmio.antt =====
-- Memory-mapped registers: the device is a value that every access may change. A driver's access
-- at an address is a call of one of these, in program order.
use glenda_drivers.Prelude.{ℕ}

pub record Bus (D : Type 0) : Type 0 where
  pub read8 : ℕ → D → ℕ × D
  pub write8 : ℕ → ℕ → D → D
  pub read32 : ℕ → D → ℕ × D
  pub write32 : ℕ → ℕ → D → D
  pub read64 : ℕ → D → ℕ × D
