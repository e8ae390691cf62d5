-- ===== src/Virtio/Net/Refusing.antt =====
-- What a request outside the shared memory costs the network driver of virtio/net/src/net.rs.
use glenda_drivers.Prelude.{ℕ, ◌≡◌, refl, List, ◌∷◌, some, done}
use glenda_drivers.Prelude.Handlers.{err}
use glenda_drivers.Glenda.{Sqe}
use glenda_drivers.Mmio.{Bus}
use glenda_drivers.Virtio.Queue.{VirtQueue}
use glenda_drivers.Virtio.Queue.FreeList.{FreeList, popped, popped-FreeList}
use glenda_drivers.Virtio.Transport.{VirtIoError}
use glenda_drivers.Virtio.Net.State.{VirtIoNet}
use glenda_drivers.Virtio.Net.Lane.{Side, receive, transmit, data_paddr}
use glenda_drivers.Virtio.Net.Lane.Filling.{take_two_both}
use glenda_drivers.Virtio.Net.Request.{lane_of, submit}
use glenda_drivers.Virtio.Net.Soundness.{submit_outside}

module _ {S D : Type 0} (bus : Bus D) (base : ℕ) (sqe : Sqe) (s : VirtIoNet S D) where
  -- A request outside the shared memory fails, but two descriptors that were free are free no longer,
  -- while no request is pending that was not before.
  pub submit_outside_loses :
      (side : Side) (q : VirtQueue) (a b : ℕ) (fs : List ℕ) (e : VirtIoError)
      → (lane_of side s).queue ≡ some q
      → FreeList q (a ∷ b ∷ fs)
      → data_paddr s.buffer sqe ≡ err e
      → (s' : VirtIoNet S D) × (q' : VirtQueue) × (submit bus base side sqe s ≡ done (err e, s'))
        × ((lane_of side s').queue ≡ some q')
        × FreeList q' fs
        × ((lane_of side s').pending ≡ (lane_of side s).pending)
        × (s'.buffer ≡ s.buffer)
  submit_outside_loses receive q a b fs e has v outside = (
    _,
    popped (popped q),
    submit_outside bus base sqe s receive q (popped (popped q)) a b e has (take_two_both q a b fs v)
        outside,
    refl,
    popped-FreeList _ b fs (popped-FreeList q a (b ∷ fs) v),
    refl,
    refl,
  )
  submit_outside_loses transmit q a b fs e has v outside = (
    _,
    popped (popped q),
    submit_outside bus base sqe s transmit q (popped (popped q)) a b e has
        (take_two_both q a b fs v) outside,
    refl,
    popped-FreeList _ b fs (popped-FreeList q a (b ∷ fs) v),
    refl,
    refl,
  )
