-- ===== src/Virtio/Chains/Taking.antt =====
-- Taking descriptors for a request, filling them and offering the chain to the device.
use glenda_drivers.Prelude.{ℕ, ◌+◌, ◌%◌, ◌^◌, ◌<◌, ◌≡◌, List, [], ◌∷◌, arith, length, set, done}
use glenda_drivers.Prelude.Handlers.{ok, err}
use glenda_drivers.Virtio.Queue.{VirtQueue, Descriptor, submit}
use glenda_drivers.Virtio.Queue.FreeList.{
  FreeList, popped, changed, alloc_desc-popped, alloc_desc_empty, write_desc-changed,
}
use glenda_drivers.Virtio.Chains.{take_desc, put_desc, offer}

abbrev pub offered : VirtQueue → ℕ → VirtQueue
offered q head = record q {
  mem = record (q.mem) {
    avail = set q.mem.avail (q.mem.avail_idx % q.num) head;
    avail_idx = (q.mem.avail_idx + 1) % 2 ^ 16;
  };
}

module _ {E : Type 0} (e : E) where
  pub take_desc-popped :
      (q : VirtQueue) (f : ℕ) (fs : List ℕ)
      → FreeList q (f ∷ fs)
      → take_desc e q ≡ done (ok f, popped q)
  unfolding take_desc
  take_desc-popped q f fs v = rw (alloc_desc-popped q f fs v, take_desc)

  pub take_desc_empty : (q : VirtQueue) → FreeList q [] → take_desc e q ≡ done (err e, q)
  unfolding take_desc
  take_desc_empty q v = rw (alloc_desc_empty q v, take_desc)

module _ (E : Type 0) where
  pub put_desc-changed :
      (q : VirtQueue) (id : ℕ) (d : Descriptor)
      → id < length q.mem.descs
      → put_desc {E = E} id d q ≡ done (ok tt, changed q id d)
  unfolding put_desc
  put_desc-changed q id d h = rw (write_desc-changed q id d h, put_desc)

  pub offer-offered :
      (q : VirtQueue) (head : ℕ) → 0 < q.num → offer {E = E} head q ≡ done (ok tt, offered q head)
  unfolding offer submit
  offer-offered q head h = ground arith
