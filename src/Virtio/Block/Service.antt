-- ===== src/Virtio/Block/Service.antt =====
-- The block driver from `init` on: interrupts, requests and the device's writes in any order.
use glenda_drivers.Prelude.{
  ℕ, ◌≡◌, refl, ◌∙◌, List, [], ◌∷◌, Option, none, some, Outcome, length, done, inl, inr, Bool-cases,
  Option-cases, ltb,
}
use glenda_drivers.Prelude.Int.{negsuc}
use glenda_drivers.Prelude.Handlers.{Result, ok, err}
use glenda_drivers.Glenda.{Error, Sqe, Opcodes, RingServer}
use glenda_drivers.Mmio.{Bus}
use glenda_drivers.Virtio.Transport
use glenda_drivers.Virtio.Block.State.{VirtIoBlk}
use glenda_drivers.Virtio.Block.Request.{submit_virtio_request}
use glenda_drivers.Virtio.Block.Completion.{answer}
use glenda_drivers.Virtio.Block.Driver.{collect, handle_irq, handle_ring, submit_all}
use glenda_drivers.Virtio.Block.Invariant.{BlkInv-Touched, IsSound}
use glenda_drivers.Virtio.Block.Soundness.{submit_virtio_request_sound}
use glenda_drivers.Virtio.Block.Freeing.{BlkInv-answer}
use glenda_drivers.Virtio.Block.Draining.{pop_completions_sound}

module _ {S D : Type 0} where
  -- A change outside the queue and its bookkeeping keeps the driver sound.
  IsSound-ring_server :
      (s : VirtIoBlk S D) (r : Option S) → IsSound s → IsSound (record s { ring_server = r })
  IsSound-ring_server s r (q, fs, own, v) = (
    q,
    fs,
    own,
    BlkInv-Touched s (record s { ring_server = r }) q fs own v.queue refl refl refl v,
  )

  IsSound-device : (s : VirtIoBlk S D) (d : D) → IsSound s → IsSound (record s { device = d })
  IsSound-device s d (q, fs, own, v) =
      (q, fs, own, BlkInv-Touched s (record s { device = d }) q fs own v.queue refl refl refl v)

module _ {S D : Type 0} (io : RingServer S) (bus : Bus D) (base : ℕ) (ops : Opcodes) where
  -- `f` returns from `s`, to a sound state.
  abbrev pub Returns : (VirtIoBlk S D → Outcome (VirtIoBlk S D)) → VirtIoBlk S D → Type 0
  Returns f s = (s' : VirtIoBlk S D) × (f s ≡ done s') × IsSound s'

  submit_all_nil : (s : VirtIoBlk S D) → submit_all io bus base ops [] s ≡ done s
  unfolding submit_all
  submit_all_nil s = refl

  submit_all_next :
      (sqe : Sqe) (rest : List Sqe) (s s' : VirtIoBlk S D)
      → submit_virtio_request bus base ops sqe s ≡ done (ok tt, s')
      → submit_all io bus base ops (sqe ∷ rest) s ≡ submit_all io bus base ops rest s'
  unfolding submit_all
  submit_all_next sqe rest s s' e = rw (e, submit_all) refl

  submit_all_failed :
      (sqe : Sqe) (rest : List Sqe) (s s' : VirtIoBlk S D) (x : Error)
      → submit_virtio_request bus base ops sqe s ≡ done (err x, s')
      → submit_all io bus base ops (sqe ∷ rest) s
        ≡ submit_all io bus base ops rest (answer io sqe.user_data (negsuc 0) s')
  unfolding submit_all
  submit_all_failed sqe rest s s' x e = rw (e, submit_all) refl

  IsSound-answer : (ud : ℕ) (s : VirtIoBlk S D) → IsSound s → IsSound (answer io ud (negsuc 0) s)
  IsSound-answer ud s (q, fs, own, v) = (q, fs, own, BlkInv-answer io ud (negsuc 0) s q fs own v)

  submit_all_sound :
      (sqes : List Sqe) (s : VirtIoBlk S D)
      → IsSound s
      → Returns (submit_all io bus base ops sqes) s
  submit_all_sound [] s v = (s, submit_all_nil s, v)
  submit_all_sound (sqe ∷ rest) s v =
      one (submit_virtio_request_sound bus base ops s sqe v) (submit_all_sound rest)
    where
      one :
          (r : Result Error (Unit {0})) × (s' : VirtIoBlk S D) × (submit_virtio_request bus base ops
                sqe s
              ≡ done (r, s'))
            × IsSound s'
          → ((t : VirtIoBlk S D) → IsSound t → Returns (submit_all io bus base ops rest) t)
          → Returns (submit_all io bus base ops (sqe ∷ rest)) s
      one (ok tt, s', e, v') ih =
          let (s'', run, sound) = ih s' v' in (s'', submit_all_next sqe rest s s' e ∙ run, sound)
      one (err x, s', e, v') ih =
          let t : VirtIoBlk S D = answer io sqe.user_data (negsuc 0) s' in
          let (s'', run, sound) = ih t (IsSound-answer sqe.user_data s' v') in
          (s'', submit_all_failed sqe rest s s' x e ∙ run, sound)

  -- An interrupt is handled to the end, whatever the device has put into the used ring: no panic and
  -- no endless loop, and the driver is sound again.
  pub handle_irq_sound : (s : VirtIoBlk S D) → IsSound s → Returns (handle_irq io bus base ops) s
  unfolding handle_irq
  handle_irq_sound s v =
      let s' : VirtIoBlk S D = record s {
        device = (Transport.interrupt_ack bus base s.device).1;
      } in
      let v' : IsSound s' = IsSound-device s _ v in
      elim (Bool-cases (Transport.interrupt_ack bus base s.device).0) [
        | inl is ↦
            let (t, run, sound, dry) = pop_completions_sound io s' v' in
            (t, rw (is, handle_irq) run, sound)
        | inr isnt ↦ (s', rw (isnt, handle_irq) refl, v')
      ]

  handle_ring_idle :
      (s : VirtIoBlk S D) → s.ring_server ≡ none → handle_ring io bus base ops s ≡ done s
  unfolding handle_ring
  handle_ring_idle s e = simp (e, handle_ring)

  -- The same of the requests of the ring, whatever they are.
  pub handle_ring_sound : (s : VirtIoBlk S D) → IsSound s → Returns (handle_ring io bus base ops) s
  unfolding handle_ring
  handle_ring_sound s v = elim (Option-cases s.ring_server) [
    | inl e ↦ (s, handle_ring_idle s e, v)
    | inr (server, e) ↦
        let (sqes, server') = collect io bus base ops 16 server in
        let (t, run, sound) =
          submit_all_sound sqes (record s { ring_server = some server' })
            (IsSound-ring_server s _ v) in
        let (t', run', sound', dry) = pop_completions_sound io t sound in
        elim (Bool-cases (ltb 0 (length sqes))) [
          | inl some_taken ↦ (t', rw (e, handle_ring, run, some_taken) run', sound')
          | inr none_taken ↦ (t, rw (e, handle_ring, run, none_taken) refl, sound)
        ]
  ]
