-- ===== src/Virtio/Net/Service.antt =====
-- The handlers of virtio/net/src/net.rs return, and keep both queues sound.
use glenda_drivers.Prelude.{
  ℕ, ◌≡◌, refl, sym, ◌∙◌, subst, List, [], ◌∷◌, Option, some, Outcome, done, inl, inr, Bool-cases,
  Option-cases, ◌==◌, arith,
}
use glenda_drivers.Prelude.Handlers.{Result, ok, err}
use glenda_drivers.Glenda.{Sqe, Opcodes, RingServer}
use glenda_drivers.Mmio.{Bus}
use glenda_drivers.Virtio.Queue.{VirtQueue}
use glenda_drivers.Virtio.Transport
use glenda_drivers.Virtio.Transport.{VirtIoError, device_not_found}
use glenda_drivers.Virtio.Net.State.{VirtIoNet, Lane}
use glenda_drivers.Virtio.Net.Lane.{Side, receive, transmit, drain}
use glenda_drivers.Virtio.Net.Lane.Invariant.{LaneSound}
use glenda_drivers.Virtio.Net.Lane.Emptying.{drain_sound}
use glenda_drivers.Virtio.Net.Driver.{
  drain_side, collect, handle_irq, serve, refuse, serve_all, handle_ring,
}
use glenda_drivers.Virtio.Net.Soundness.{NetSound, submit_sound}

module _ {S : Type 0} (io : RingServer S) where
  drain_side-known :
      (side : Side) (l : Lane) (server server' : S) (q q' : VirtQueue) (p : List (Option (ℕ × ℕ)))
      → l.queue ≡ some q
      → drain io side q l.pending server ≡ done (q', p, server')
      → drain_side io side l server ≡ done (record { queue = some q'; pending = p }, server')
  unfolding drain_side
  drain_side-known side l server server' q q' p e run = simp (e, drain_side, run)

  drain_side_sound :
      (side : Side) (l : Lane) (server : S)
      → LaneSound l
      → (l' : Lane) × (server' : S) × (drain_side io side l server ≡ done (l', server'))
        × LaneSound l'
  drain_side_sound side l server (q, has, v) =
      let (q', p, server', run, v', dry) = drain_sound io side q l.pending server v in
      (_, server', drain_side-known side l server server' q q' p has run, (q', refl, v'))

module _ {S D : Type 0} (io : RingServer S) (bus : Bus D) (base : ℕ) (ops : Opcodes) where
  -- `f` returns from `s`, to a sound state.
  abbrev pub Returns : (VirtIoNet S D → Outcome (VirtIoNet S D)) → VirtIoNet S D → Type 0
  Returns f s = (s' : VirtIoNet S D) × (f s ≡ done s') × NetSound s'

  abbrev Served : Sqe → VirtIoNet S D → Type 0
  Served sqe s =
      (r : Result VirtIoError (Unit {0})) × (s' : VirtIoNet S D) × (serve io bus base ops sqe s
        ≡ done (r, s'))
      × NetSound s'

  serve_sound : (sqe : Sqe) (s : VirtIoNet S D) → NetSound s → Served sqe s
  unfolding serve
  serve_sound sqe s v = elim (Bool-cases (sqe.opcode == ops.op_read)) [
    | inl reads ↦
        let (r, s', run, v') = submit_sound bus base sqe s receive v in
        (r, s', simp (reads, run), v')
    | inr other ↦ elim (Bool-cases (sqe.opcode == ops.op_write)) [
      | inl writes ↦
          let (r, s', run, v') = submit_sound bus base sqe s transmit v in
          (r, s', simp (other, writes, run), v')
      | inr neither ↦ (err device_not_found, s, simp (other, neither), v)
    ]
  ]

  refuse_lanes :
      (ud : ℕ) (s : VirtIoNet S D)
      → ((refuse io bus base ops ud s).rx ≡ s.rx) × ((refuse io bus base ops ud s).tx ≡ s.tx)
  refuse_lanes ud s = ground arith

  refuse-NetSound :
      (ud : ℕ) (s : VirtIoNet S D) → NetSound s → NetSound (refuse io bus base ops ud s)
  refuse-NetSound ud s v =
      let (rx, tx) = refuse_lanes ud s in
      (subst LaneSound (sym rx) v.0, subst LaneSound (sym tx) v.1)

  serve_all_next :
      (sqe : Sqe) (rest : List Sqe) (s s' : VirtIoNet S D)
      → serve io bus base ops sqe s ≡ done (ok tt, s')
      → serve_all io bus base ops (sqe ∷ rest) s ≡ serve_all io bus base ops rest s'
  unfolding serve_all
  serve_all_next sqe rest s s' e = rw (e, serve_all) refl

  serve_all_failed :
      (sqe : Sqe) (rest : List Sqe) (s s' : VirtIoNet S D) (x : VirtIoError)
      → serve io bus base ops sqe s ≡ done (err x, s')
      → serve_all io bus base ops (sqe ∷ rest) s
        ≡ serve_all io bus base ops rest (refuse io bus base ops sqe.user_data s')
  unfolding serve_all
  serve_all_failed sqe rest s s' x e = rw (e, serve_all) refl

  serve_all_sound :
      (sqes : List Sqe) (s : VirtIoNet S D)
      → NetSound s
      → Returns (serve_all io bus base ops sqes) s
  unfolding serve_all
  serve_all_sound [] s v = (s, refl, v)
  serve_all_sound (sqe ∷ rest) s v = one (serve_sound sqe s v) (serve_all_sound rest)
    where
      one :
          Served sqe s
          → ((t : VirtIoNet S D) → NetSound t → Returns (serve_all io bus base ops rest) t)
          → Returns (serve_all io bus base ops (sqe ∷ rest)) s
      one (ok tt, s', e, v') ih =
          let (s'', run, sound) = ih s' v' in (s'', serve_all_next sqe rest s s' e ∙ run, sound)
      one (err x, s', e, v') ih =
          let (s'', run, sound) = ih _ (refuse-NetSound sqe.user_data s' v') in
          (s'', serve_all_failed sqe rest s s' x e ∙ run, sound)

  -- The requests of the ring are handled to the end, whatever they are.
  pub handle_ring_sound : (s : VirtIoNet S D) → NetSound s → Returns (handle_ring io bus base ops) s
  unfolding handle_ring
  handle_ring_sound s v = elim (Option-cases s.ring_server) [
    | inl e ↦ (s, simp (e, handle_ring), v)
    | inr (server, e) ↦
        let (sqes, server') = collect io 16 server in
        let (t, run, sound) = serve_all_sound sqes (record s { ring_server = some server' }) v in
        (t, simp (e, handle_ring) run, sound)
  ]

  -- An interrupt is handled to the end.
  pub handle_irq_sound : (s : VirtIoNet S D) → NetSound s → Returns (handle_irq io bus base ops) s
  unfolding handle_irq
  handle_irq_sound s v =
      let s1 : VirtIoNet S D = record s {
        device = (Transport.interrupt_ack bus base s.device).1;
      } in
      elim (Bool-cases (Transport.interrupt_ack bus base s.device).0) [
        | inr idle ↦ (s1, simp idle, v)
        | inl pending ↦ elim (Option-cases s.ring_server) [
          | inl e ↦ (s1, simp (pending, e), v)
          | inr (server, e) ↦
              let (rx, server1, run1, v1) = drain_side_sound io receive s.rx server v.0 in
              let (tx, server2, run2, v2) = drain_side_sound io transmit s.tx server1 v.1 in
              (
                record s1 { rx = rx; tx = tx; ring_server = some server2 },
                simp (pending, e, run1, run2),
                (v1, v2),
              )
        ]
      ]
