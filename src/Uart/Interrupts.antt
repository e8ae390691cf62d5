-- ===== src/Uart/Interrupts.antt =====
-- `handle_irq`, `handle_cq` and `handle_sq` return, and lose no byte.
use glenda_drivers.Prelude.{ℕ, ◌≡◌, refl, not, done, Bool-cases, inl, inr}
use glenda_drivers.Glenda.{RingServer}
use glenda_drivers.Uart.State.{Ns16550a, RingBuffer}
use glenda_drivers.Uart.Device.{Serial, serial_bus, serial_read}
use glenda_drivers.Uart.Receive.{is_empty}
use glenda_drivers.Uart.Driver.{handle_cq}
use glenda_drivers.Uart.Streams.{RingLaws, Ready, Kept}
use glenda_drivers.Uart.Pushing.{process_rx_ring-Kept}

module _ {R S : Type 0} {rb : RingBuffer R} (laws : RingLaws rb) (io : RingServer S)
    (base capacity fuel : ℕ) where
  abbrev Keeps : Ns16550a R S Serial → Ns16550a R S Serial → Type 0
  Keeps s s' = Kept laws base capacity fuel s s'

  abbrev HasRoom : Ns16550a R S Serial → Type 0
  HasRoom s = Ready laws base capacity fuel s

  -- Reading the cause of an interrupt changes only what the next read gives.
  abbrev asked : Ns16550a R S Serial → Ns16550a R S Serial
  asked s = record s { device = (serial_read 2 s.device).1 }

  -- The same of a notification that the client has taken completions.
  pub handle_cq-Kept :
      (s : Ns16550a R S Serial)
      → HasRoom s
      → (s' : Ns16550a R S Serial) × (handle_cq (serial_bus base) rb io capacity fuel s ≡ done s')
        × Keeps s s'
  unfolding handle_cq
  handle_cq-Kept s v =
      let (s1, run, k) = process_rx_ring-Kept laws io base capacity fuel s v in
      elim (Bool-cases (not (is_empty s.rx_buffer.items))) [
        | inl some_left ↦ (s1, simp (some_left, run), k)
        | inr none_left ↦ (s, simp none_left, (refl, refl, v))
      ]
