-- ===== src/Uart/Transmitting.antt =====
-- The loop of `process_tx_ring`, and what it sends.
use glenda_drivers.Prelude.{ℕ}
use glenda_drivers.Glenda.{RingServer}
use glenda_drivers.Uart.State.{Ns16550a, RingBuffer}
use glenda_drivers.Uart.Device.{Serial}
use glenda_drivers.Uart.Streams.{RingLaws, Kept}

module _ {R S : Type 0} {rb : RingBuffer R} (laws : RingLaws rb) (io : RingServer S)
    (base capacity fuel : ℕ) where
  abbrev Keeps : Ns16550a R S Serial → Ns16550a R S Serial → Type 0
  Keeps s s' = Kept laws base capacity fuel s s'
