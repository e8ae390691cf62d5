-- ===== src/Virtio/Net/Request.antt =====
-- virtio/net/src/net.rs: `submit`, and the rings of requests that it serves.
use glenda_drivers.Prelude.{ℕ, ◌+◌, ◌%◌, ◌^◌, none, some, ◌==◌, if◌then◌else◌, done, fault}
use glenda_drivers.Prelude.Handlers.{ok, err, Handler, get, modify, ◌>>=◌, ◌>>◌}
use glenda_drivers.Glenda.{Sqe}
use glenda_drivers.Mmio.{Bus}
use glenda_drivers.Virtio.Queue.{VirtQueue}
use glenda_drivers.Virtio.Transport
use glenda_drivers.Virtio.Transport.{VirtIoError, device_not_found, invalid_header}
use glenda_drivers.Virtio.Chains
use glenda_drivers.Virtio.Net.State.{VirtIoNet, Lane, default_hdr}
use glenda_drivers.Virtio.Net.Lane.{
  Side, receive, transmit, index_of, header_offset, data_paddr, take_two, fill_two, set_pending,
}

module _ {S D : Type 0} where
  abbrev pub lane_of : Side → VirtIoNet S D → Lane
  lane_of receive s = s.rx
  lane_of transmit s = s.tx

  abbrev pub with_lane : Side → Lane → VirtIoNet S D → VirtIoNet S D
  with_lane receive l s = record s { rx = l }
  with_lane transmit l s = record s { tx = l }

  -- A computation on the queue of a side, which is there.
  unfoldable pub on_queue :
      {A : Type 0} → Side → Handler VirtQueue VirtIoError A → Handler (VirtIoNet S D) VirtIoError A
  on_queue side m s = elim (lane_of side s).queue [
    | none ↦ done (err device_not_found, s)
    | some q ↦ elim (m q) [
      | fault ↦ fault
      | done (r, q') ↦ done (r, with_lane side (record (lane_of side s) { queue = some q' }) s)
    ]
  ]

  unfoldable pub remember : Side → ℕ → ℕ → Handler (VirtIoNet S D) VirtIoError (Unit {0})
  remember side d1 user_data s =
      elim (set_pending d1 (some (user_data, d1)) (lane_of side s).pending) [
        | fault ↦ fault
        | done p ↦ done (ok tt, with_lane side (record (lane_of side s) { pending = p }) s)
      ]

module _ {S D : Type 0} (bus : Bus D) (base : ℕ) where
  unfoldable pub submit : Side → Sqe → Handler (VirtIoNet S D) VirtIoError (Unit {0})
  submit side sqe = do
    taken ← on_queue side take_two
    let d1 = taken.0
    let d2 = taken.1
    s ← get
    paddr ← (λ s'. done (data_paddr s.buffer sqe, s'))
    let offset = header_offset side d1
    modify (λ s. record s { headers = λ x. if x == offset then default_hdr else s.headers x })
    on_queue side (fill_two side ((s.dma_paddr + offset) % 2 ^ 64) paddr sqe.len d1 d2)
    remember side d1 sqe.user_data
    on_queue side (Chains.offer d1)
    modify (λ s. record s { device = Transport.notify bus base (index_of side) s.device })
