-- ===== src/Virtio/Net/Soundness.antt =====
-- Every operation of virtio/net/src/net.rs keeps both queues sound.
use glenda_drivers.Prelude.{
  ℕ, ◌+◌, ◌%◌, ◌^◌, ◌≡◌, refl, subst, List, ◌∷◌, Option, some, done, inl, inr, ◌==◌, if◌then◌else◌,
}
use glenda_drivers.Prelude.Handlers.{Handler, Result, ok, err, Result-cases}
use glenda_drivers.Glenda.{Sqe}
use glenda_drivers.Mmio.{Bus}
use glenda_drivers.Virtio.Queue.{VirtQueue}
use glenda_drivers.Virtio.Transport
use glenda_drivers.Virtio.Transport.{VirtIoError, oom}
use glenda_drivers.Virtio.Chains.{offer}
use glenda_drivers.Virtio.Net.State.{VirtIoNet, Lane, default_hdr}
use glenda_drivers.Virtio.Net.Lane.{
  Side, receive, transmit, index_of, header_offset, data_paddr, take_two, fill_two, set_pending,
}
use glenda_drivers.Virtio.Net.Lane.Invariant.{LaneInv, IsSound, LaneSound}
use glenda_drivers.Virtio.Net.Lane.Filling.{
  take_two_cases, two-IsSound, fill_two-filled, offer-filled, set_pending-filled, filled-IsSound,
}
use glenda_drivers.Virtio.Net.Request.{lane_of, with_lane, on_queue, remember, submit}

-- A lane with its queue.
abbrev lane : VirtQueue → List (Option (ℕ × ℕ)) → Lane
lane q pending = record { queue = some q; pending = pending }

module _ {S D : Type 0} where
  abbrev pub NetSound : VirtIoNet S D → Type 0
  NetSound s = LaneSound s.rx × LaneSound s.tx

  lane_of-NetSound : (side : Side) (s : VirtIoNet S D) → NetSound s → LaneSound (lane_of side s)
  lane_of-NetSound receive s v = v.0
  lane_of-NetSound transmit s v = v.1

  with_lane-NetSound :
      (side : Side) (l : Lane) (s : VirtIoNet S D)
      → NetSound s
      → LaneSound l
      → NetSound (with_lane side l s)
  with_lane-NetSound receive l s v w = (w, v.1)
  with_lane-NetSound transmit l s v w = (v.0, w)

  on_queue-known :
      {A : Type 0} (side : Side) (m : Handler VirtQueue VirtIoError A) (s : VirtIoNet S D)
      (q q' : VirtQueue) (r : Result VirtIoError A)
      → (lane_of side s).queue ≡ some q
      → m q ≡ done (r, q')
      → on_queue side m s ≡ done (r, with_lane side (lane q' (lane_of side s).pending) s)
  unfolding on_queue
  on_queue-known side m s q q' r e run = simp (e, on_queue, run)

  remember-known :
      (side : Side) (d1 user_data : ℕ) (s : VirtIoNet S D) (p : List (Option (ℕ × ℕ)))
      → set_pending d1 (some (user_data, d1)) (lane_of side s).pending ≡ done p
      → remember side d1 user_data s
        ≡ done (ok tt, with_lane side (record (lane_of side s) { pending = p }) s)
  unfolding remember
  remember-known side d1 ud s p e = simp (e, remember)

  abbrev pub headed : ℕ → VirtIoNet S D → VirtIoNet S D
  headed offset s = record s { headers = λ x. if x == offset then default_hdr else s.headers x }

module _ {S D : Type 0} (bus : Bus D) (base : ℕ) (sqe : Sqe) (s : VirtIoNet S D) where
  submit_oom :
      (side : Side) (q q' : VirtQueue)
      → (lane_of side s).queue ≡ some q
      → take_two q ≡ done (err oom, q')
      → submit bus base side sqe s
        ≡ done (err oom, with_lane side (lane q' (lane_of side s).pending) s)
  unfolding submit
  submit_oom side q q' e t = simp (on_queue-known side take_two s q q' (err oom) e t)

  pub submit_outside :
      (side : Side) (q q' : VirtQueue) (a b : ℕ) (x : VirtIoError)
      → (lane_of side s).queue ≡ some q
      → take_two q ≡ done (ok (a, b), q')
      → data_paddr s.buffer sqe ≡ err x
      → submit bus base side sqe s
        ≡ done (err x, with_lane side (lane q' (lane_of side s).pending) s)
  unfolding submit
  submit_outside receive q q' a b x e t o =
      simp (on_queue-known receive take_two s q q' (ok (a, b)) e t, o)
  submit_outside transmit q q' a b x e t o =
      simp (on_queue-known transmit take_two s q q' (ok (a, b)) e t, o)

  abbrev sent : Side → VirtQueue → List (Option (ℕ × ℕ)) → ℕ → VirtIoNet S D
  sent side q pending a =
      let s' = with_lane side (lane q pending) (headed (header_offset side a) s) in
      record s' { device = Transport.notify bus base (index_of side) s'.device }

  submit_sent :
      (side : Side) (q q1 q2 q3 : VirtQueue) (a b paddr : ℕ) (p : List (Option (ℕ × ℕ)))
      → (lane_of side s).queue ≡ some q
      → take_two q ≡ done (ok (a, b), q1)
      → data_paddr s.buffer sqe ≡ ok paddr
      → fill_two side ((s.dma_paddr + header_offset side a) % 2 ^ 64) paddr sqe.len a b q1
        ≡ done (ok tt, q2)
      → set_pending a (some (sqe.user_data, a)) (lane_of side s).pending ≡ done p
      → offer {E = VirtIoError} a q2 ≡ done (ok tt, q3)
      → submit bus base side sqe s ≡ done (ok tt, sent side q3 p a)
  unfolding submit
  submit_sent receive q q1 q2 q3 a b paddr p has took at fill keep give =
      let s1 : VirtIoNet S D =
        headed (header_offset receive a)
          (with_lane receive (lane q1 (lane_of receive s).pending) s) in
      let s2 : VirtIoNet S D = with_lane receive (lane q2 (lane_of receive s).pending) s1 in
      let s3 : VirtIoNet S D = with_lane receive (lane q2 p) s2 in
      rw (
        on_queue-known receive take_two s q q1 (ok (a, b)) has took,
        at,
        on_queue-known receive (fill_two receive _ paddr sqe.len a b) s1 q1 q2 (ok tt) refl fill,
        remember-known receive a sqe.user_data s2 p keep,
        on_queue-known receive (offer a) s3 q2 q3 (ok tt) refl give,
      )
  submit_sent transmit q q1 q2 q3 a b paddr p has took at fill keep give =
      let s1 : VirtIoNet S D =
        headed (header_offset transmit a)
          (with_lane transmit (lane q1 (lane_of transmit s).pending) s) in
      let s2 : VirtIoNet S D = with_lane transmit (lane q2 (lane_of transmit s).pending) s1 in
      let s3 : VirtIoNet S D = with_lane transmit (lane q2 p) s2 in
      rw (
        on_queue-known transmit take_two s q q1 (ok (a, b)) has took,
        at,
        on_queue-known transmit (fill_two transmit _ paddr sqe.len a b) s1 q1 q2 (ok tt) refl fill,
        remember-known transmit a sqe.user_data s2 p keep,
        on_queue-known transmit (offer a) s3 q2 q3 (ok tt) refl give,
      )

  sent-NetSound :
      (side : Side) (q : VirtQueue) (p : List (Option (ℕ × ℕ))) (a : ℕ)
      → NetSound s
      → IsSound q p
      → NetSound (sent side q p a)
  sent-NetSound receive q p a v w = ((q, refl, w), v.1)
  sent-NetSound transmit q p a v w = (v.0, (q, refl, w))

  abbrev Submitted : Side → Type 0
  Submitted side =
      (r : Result VirtIoError (Unit {0})) × (s' : VirtIoNet S D) × (submit bus base side sqe s
        ≡ done (r, s'))
      × NetSound s'

  -- Whatever the request, `submit` returns, and both queues are sound.
  pub submit_sound : (side : Side) → NetSound s → Submitted side
  submit_sound side v = started (lane_of-NetSound side s v)
    where
      started : LaneSound (lane_of side s) → Submitted side
      started (q, has, (fs, own, w)) = elim (take_two_cases q (lane_of side s).pending fs own w) [
        | inl (q', t, sound) ↦ (
          err oom,
          _,
          submit_oom side q q' has t,
          with_lane-NetSound side _ s v (q', refl, sound),
        )
        | inr (a, b, gs, e, t) ↦
            let w' : LaneInv q (lane_of side s).pending (a ∷ b ∷ gs) own =
              subst (λ xs. LaneInv q (lane_of side s).pending xs own) e w in
            elim (Result-cases (data_paddr s.buffer sqe)) [
              | inr (x, outside) ↦ (
                err x,
                _,
                submit_outside side q _ a b x has t outside,
                with_lane-NetSound side _ s v
                    (_, refl, two-IsSound q (lane_of side s).pending a b gs own w'),
              )
              | inl (paddr, at) ↦
                  let hp : ℕ = (s.dma_paddr + header_offset side a) % 2 ^ 64 in
                  let pending : List (Option (ℕ × ℕ)) = (lane_of side s).pending in
                  (
                    ok tt,
                    _,
                    submit_sent side q _ _ _ a b paddr _ has t at
                        (fill_two-filled q pending a b gs own w' side hp paddr sqe.len)
                        (set_pending-filled q pending a b gs own w' side hp paddr sqe.len
                          sqe.user_data)
                        (offer-filled q pending a b gs own w' side hp paddr sqe.len),
                    sent-NetSound side _ _ a v (
                        filled-IsSound q pending a b gs own w' side hp paddr sqe.len sqe.user_data),
                  )
            ]
      ]
