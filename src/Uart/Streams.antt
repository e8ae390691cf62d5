-- ===== src/Uart/Streams.antt =====
-- What the driver must not lose: the bytes on their way in, and those on their way out.
use glenda_drivers.Prelude.{
  ℕ, ◌+◌, ◌-◌, ◌≤◌, ◌<◌, ◌≡◌, ◌∙◌, min, false, Option, none, some, List, [], ◌++◌, length, take,
  drop,
}
use glenda_drivers.Uart.State.{Ns16550a, RingBuffer, Deque}
use glenda_drivers.Uart.Device.{Serial, latch_open}

-- What `ShmRingBuffer` is documented to do: a queue of at most `capacity` bytes. `push_slice` takes as
-- many bytes as fit, `pop_slice` gives the oldest ones.
pub record RingLaws {R : Type 0} (rb : RingBuffer R) : Type 0 where
  pub bytes : R → List ℕ
  pub capacity : R → ℕ
  pub push_count :
      (r : R) (xs : List ℕ)
      → (rb.push_slice r xs).0 ≡ min (length xs) (capacity r - length (bytes r))
  pub push_bytes :
      (r : R) (xs : List ℕ)
      → bytes (rb.push_slice r xs).1 ≡ bytes r ++ take (rb.push_slice r xs).0 xs
  pub push_capacity : (r : R) (xs : List ℕ) → capacity (rb.push_slice r xs).1 ≡ capacity r
  pub pop_bytes : (r : R) (n : ℕ) → (rb.pop_slice r n).0 ≡ take n (bytes r)
  pub pop_rest : (r : R) (n : ℕ) → bytes (rb.pop_slice r n).1 ≡ drop n (bytes r)
  pub pop_capacity : (r : R) (n : ℕ) → capacity (rb.pop_slice r n).1 ≡ capacity r

module _ {R : Type 0} {rb : RingBuffer R} (laws : RingLaws rb) where
  abbrev pub in_ring : Option R → List ℕ
  in_ring none = []
  in_ring (some r) = laws.bytes r

module _ {R S : Type 0} {rb : RingBuffer R} (laws : RingLaws rb) where
  -- Received: in the RX ring for the client, in the software buffer, in the device.
  abbrev pub incoming : Ns16550a R S Serial → List ℕ
  incoming s = in_ring laws s.rx_ring ++ s.rx_buffer.items ++ s.device.fifo

  -- Sent by the device, and in the TX ring.
  abbrev pub outgoing : Ns16550a R S Serial → List ℕ
  outgoing s = s.device.sent ++ in_ring laws s.tx_ring

-- The software buffer has room for all that the device holds, the loops have fuel for it and for the
-- slow transmitter, and the divisor latch is closed.
pub record IsReady (base capacity fuel b : ℕ) (q : Deque) (d : Serial) : Type 0 where
  pub at_base : b ≡ base
  pub room : length q.items + length d.fifo ≤ 4096
  pub slots : 4096 ≤ capacity
  pub head : q.head < capacity
  pub fuel_rx : length d.fifo < fuel
  pub fuel_tx : d.slow < fuel
  pub busy : d.busy ≤ d.slow
  pub closed : latch_open d ≡ false

module _ {R S : Type 0} {rb : RingBuffer R} (laws : RingLaws rb) (base capacity fuel : ℕ) where
  abbrev pub Ready : Ns16550a R S Serial → Type 0
  Ready s = IsReady base capacity fuel s.base s.rx_buffer s.device

  -- `s'` follows from `s` with no byte lost, doubled or out of order, in either direction.
  abbrev pub Kept : Ns16550a R S Serial → Ns16550a R S Serial → Type 0
  Kept s s' = (incoming laws s' ≡ incoming laws s) × (outgoing laws s' ≡ outgoing laws s) × Ready s'

  pub Kept-trans : (s t u : Ns16550a R S Serial) → Kept s t → Kept t u → Kept s u
  Kept-trans s t u (i, o, v) (i', o', v') = (i' ∙ i, o' ∙ o, v')
