-- ===== src/Virtio/Net/Driver.antt =====
-- virtio/net/src/net.rs: starting the device, and what the service calls.
use glenda_drivers.Prelude.{
  ℕ, zero, suc, ◌+◌, ◌-◌, ◌%◌, ◌^◌, bit_and, bit_or, none, some, not, List, [], ◌∷◌, ◌==◌,
  if◌then◌else◌, Outcome, done, fault,
}
use glenda_drivers.Prelude.Int.{negsuc}
use glenda_drivers.Prelude.Handlers.{Result, ok, err, Handler}
use glenda_drivers.Glenda.{Sqe, Opcodes, RingServer}
use glenda_drivers.Mmio.{Bus}
use glenda_drivers.Virtio.Consts.{
  status_acknowledge, status_driver, status_driver_ok, status_features_ok,
}
use glenda_drivers.Virtio.Queue
use glenda_drivers.Virtio.Queue.{VirtQueue, QueueMemory}
use glenda_drivers.Virtio.Transport
use glenda_drivers.Virtio.Transport.{VirtIoError, device_not_found, invalid_header}
use glenda_drivers.Virtio.Net.State.{VirtIoNet, Lane, virtio_net_f_mrg_rxbuf}
use glenda_drivers.Virtio.Net.Request.{submit}
use glenda_drivers.Virtio.Net.Lane.{Side, receive, transmit, drain}

module _ {D : Type 0} (bus : Bus D) (base : ℕ) where
  -- The six bytes of the address, from the `i`-th on.
  unfoldable pub read_mac : ℕ → ℕ → D → List ℕ × D
  read_mac zero i d = ([], d)
  read_mac (suc left) i d =
      let (b, d1) = bus.read8 (Transport.config_ptr bus base + i) d in
      let (bs, d2) = read_mac left (i + 1) d1 in (b ∷ bs, d2)

module _ {S D : Type 0} (bus : Bus D) (base : ℕ) where
  -- `init` up to the test of the features.
  abbrev pub negotiated : VirtIoNet S D → ℕ × VirtIoNet S D
  negotiated s =
      let d0 = Transport.set_status bus base 0 s.device in
      let d1 = Transport.add_status bus base (bit_or status_acknowledge status_driver) d0 in
      let (offered, d2) = Transport.get_device_features bus base d1 in
      let features = bit_and offered (2 ^ 64 - 1 - virtio_net_f_mrg_rxbuf) in
      let d3 = Transport.set_driver_features bus base features d2 in
      let d4 = Transport.add_status bus base status_features_ok d3 in
      let (st, d5) = Transport.get_status bus base d4 in (st, record s { device = d5 })

  -- `init` from the second queue on.
  abbrev pub started : VirtQueue → VirtQueue → VirtIoNet S D → VirtIoNet S D
  started rx tx s =
      let d1 = Transport.setup_queue bus base rx s.device in
      let d2 = Transport.setup_queue bus base tx d1 in
      let (mac, d3) = read_mac bus base 6 0 d2 in
      record s {
        rx = record (s.rx) { queue = some rx };
        tx = record (s.tx) { queue = some tx };
        mac = mac;
        device = Transport.add_status bus base status_driver_ok d3;
      }

  -- The memory of the queues lies 8192 and 12288 bytes into the DMA area.
  unfoldable pub init :
      ℕ
      → ℕ
      → QueueMemory
      → QueueMemory
      → VirtIoNet S D
      → Outcome (Result VirtIoError (Unit {0}) × VirtIoNet S D)
  init dma_vaddr dma_paddr rx_mem tx_mem s =
      let (st, s1) = negotiated (record s { dma_vaddr = dma_vaddr; dma_paddr = dma_paddr }) in
      if bit_and st status_features_ok == 0
      then done (err invalid_header, s1)
      else elim (Queue.new 0 128 ((dma_paddr + 8192) % 2 ^ 64) rx_mem) [
        | fault ↦ fault
        | done rx ↦ elim (Queue.new 1 128 ((dma_paddr + 8192 + 4096) % 2 ^ 64) tx_mem) [
          | fault ↦ fault
          | done tx ↦ done (ok tt, started rx tx s1)
        ]
      ]

-- The queues that `handle_irq` finds; a side that is not set up is passed over.
module _ {S : Type 0} (io : RingServer S) where
  unfoldable pub drain_side : Side → Lane → S → Outcome (Lane × S)
  drain_side side lane server = elim lane.queue [
    | none ↦ done (lane, server)
    | some q ↦ elim (drain io side q lane.pending server) [
      | fault ↦ fault
      | done (q', pending, server') ↦ done (record { queue = some q'; pending = pending }, server')
    ]
  ]

  -- At most `n` requests, as the loop over the 16 entries of `sqes` takes them.
  unfoldable pub collect : ℕ → S → List Sqe × S
  collect zero server = ([], server)
  collect (suc n) server =
      let (sqe?, server') = io.next_request server in
      elim sqe? [
        | none ↦ ([], server')
        | some sqe ↦ let (rest, server'') = collect n server' in (sqe ∷ rest, server'')
      ]

module _ {S D : Type 0} (io : RingServer S) (bus : Bus D) (base : ℕ) (ops : Opcodes) where
  unfoldable pub handle_irq : VirtIoNet S D → Outcome (VirtIoNet S D)
  handle_irq s =
      let (pending, d) = Transport.interrupt_ack bus base s.device in
      let s1 : VirtIoNet S D = record s { device = d } in
      if not pending then done s1 else elim s1.ring_server [
        | none ↦ done s1
        | some server ↦ elim (drain_side io receive s1.rx server) [
          | fault ↦ fault
          | done (rx, server1) ↦ elim (drain_side io transmit s1.tx server1) [
            | fault ↦ fault
            | done (tx, server2) ↦ done (record s1 { rx = rx; tx = tx; ring_server = some server2 })
          ]
        ]
      ]

  -- One request of the ring.
  unfoldable pub serve : Sqe → Handler (VirtIoNet S D) VirtIoError (Unit {0})
  serve sqe s =
      if sqe.opcode == ops.op_read
      then submit bus base receive sqe s
      else if sqe.opcode == ops.op_write
      then submit bus base transmit sqe s
      else done (err device_not_found, s)

  -- `server.complete(sqe.user_data, -1)` on the ring server, if there is one.
  abbrev pub refuse : ℕ → VirtIoNet S D → VirtIoNet S D
  refuse user_data s = elim s.ring_server [
    | none ↦ s
    | some server ↦ record s { ring_server = some (io.complete server user_data (negsuc 0)).1 }
  ]

  unfoldable pub serve_all : List Sqe → VirtIoNet S D → Outcome (VirtIoNet S D)
  serve_all [] s = done s
  serve_all (sqe ∷ rest) s = elim (serve sqe s) [
    | fault ↦ fault
    | done (ok u, s') ↦ serve_all rest s'
    | done (err e, s') ↦ serve_all rest (refuse sqe.user_data s')
  ]

  unfoldable pub handle_ring : VirtIoNet S D → Outcome (VirtIoNet S D)
  handle_ring s = elim s.ring_server [
    | none ↦ done s
    | some server ↦
        let (sqes, server') = collect io 16 server in
        serve_all sqes (record s { ring_server = some server' })
  ]
