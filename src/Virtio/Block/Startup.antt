-- ===== src/Virtio/Block/Startup.antt =====
-- The block driver from `init` on: interrupts, requests, the service's calls and the device's writes,
-- in any order.
use glenda_drivers.Prelude.{
  ℕ, ◌+◌, ◌%◌, ◌^◌, ◌≤◌, ◌<◌, ◌≡◌, ◌≢◌, refl, sym, ap, ◌∙◌, subst, Outcome, done-injective,
  some-injective, List, [], ◌∷◌, Option, none, some, arith, length, get_elem?, done,
  length-replicate, get_elem?-replicate, range_from, replicate,
}
use glenda_drivers.Prelude.Handlers.{Result}
use glenda_drivers.Glenda.{Opcodes, RingServer, Error}
use glenda_drivers.Mmio.{Bus}
use glenda_drivers.Virtio.Queue.{VirtQueue, QueueMemory, UsedElem}
use glenda_drivers.Virtio.Queue.FreeList.{FreeList}
use glenda_drivers.Virtio.Queue.Setup.{new_lem}
use glenda_drivers.Virtio.Chains.Ownership.{free, Owned}
use glenda_drivers.Virtio.Chains.Pending.{RingBounds}
use glenda_drivers.Virtio.Block.State.{VirtIoBlk, BlkReq, new, setup_shm, set_ring_server}
use glenda_drivers.Virtio.Block.Driver.{init, started, negotiated, handle_irq, handle_ring}
use glenda_drivers.Virtio.Block.Invariant.{BlkInv, BlkInv-Touched, IsSound}
use glenda_drivers.Virtio.Block.Service.{Returns, handle_irq_sound, handle_ring_sound}

pub all_free : (xs : List ℕ) → Owned (λ x. free) free xs
all_free [] = tt
all_free (x ∷ xs) = (refl, all_free xs)

pub nothing : (ud h : ℕ) → ◌≢◌ {A = Option (ℕ × ℕ)} (some (ud, h)) none
nothing ud h e = cc

-- The memory that `init` is given: a table of 128 descriptors, and a used ring with room for them.
pub record QueueRoom (mem : QueueMemory) : Type 0 where
  pub descs : length mem.descs ≡ 128
  pub used : 128 ≤ length mem.used
  pub used_idx : mem.used_idx < 2 ^ 16

module _ {S D : Type 0} where
  -- With no request pending, every descriptor is free.
  fresh-BlkInv :
      (s : VirtIoBlk S D) (q : VirtQueue) (fs : List ℕ)
      → s.queue ≡ some q
      → s.pending_info ≡ replicate 64 none
      → length s.status ≡ 64
      → s.blk_size ≢ 0
      → FreeList q fs
      → RingBounds q
      → BlkInv s q fs (λ x. free)
  fresh-BlkInv s q fs eq ep es nz free_list rings = record {
    queue = eq;
    rings = rings;
    free_list = free_list;
    free_owned = all_free fs;
    slots = ap length ep ∙ length-replicate {A = Option (ℕ × ℕ)} 64 none;
    statuses = es;
    flights = λ (p ud h : ℕ) e.
        let at_p : get_elem? (replicate 64 none) p ≡ some (some (ud, h)) =
          subst (λ t. get_elem? t p ≡ some (some (ud, h))) ep e in
        absurd (nothing ud h (get_elem?-replicate 64 none p (some (ud, h)) at_p));
    sized = nz;
  }

module _ {S D : Type 0} (bus : Bus D) (base dma_vaddr dma_paddr : ℕ) (mem : QueueMemory) where
  -- `init` returns: it does not panic, and unless the device says that its blocks are empty, the
  -- driver is sound.
  pub init_sound :
      (reqs : List BlkReq) (status : List ℕ) (d : D)
      → QueueRoom mem
      → length status ≡ 64
      → (negotiated bus base (new {S = S} reqs status d)).blk_size ≢ 0
      → (s : VirtIoBlk S D) × (init bus base dma_vaddr dma_paddr mem (new reqs status d) ≡ done s)
        × IsSound s
  unfolding init new
  init_sound reqs status d room statuses nz =
      let (q, e, free_list, num, last, used, used_idx) =
        new_lem 0 128 ((dma_paddr + 8192) % 2 ^ 64) mem (omega arith) (omega arith) room.descs in
      let s : VirtIoBlk S D =
        started bus base dma_vaddr dma_paddr q (negotiated bus base (new reqs status d)) in
      (
        s,
        rw (e, init) refl,
        (
          q,
          range_from 0 128,
          λ x. free,
          fresh-BlkInv s q (range_from 0 128) refl refl statuses nz free_list (record {
            positive = omega (arith, num);
            cursor = omega (arith, last);
            index = omega (arith, used_idx, room.used_idx);
            used_room = omega (arith, num, ap length used, room.used);
          }),
        ),
      )

module _ {S D : Type 0} (io : RingServer S) (bus : Bus D) (base : ℕ) (ops : Opcodes) where
  -- What can happen to the running driver. The device writes what it likes into the used ring and
  -- the status bytes.
  pub data Step (s : VirtIoBlk S D) : VirtIoBlk S D → Type 0 where
    irq : {t : VirtIoBlk S D} → handle_irq io bus base ops s ≡ done t → Step s t
    ring : {t : VirtIoBlk S D} → handle_ring io bus base ops s ≡ done t → Step s t
    connect : (server : S) → Step s (set_ring_server server s)
    share :
        (vaddr paddr size : ℕ) {r : Result Error (Unit {0})} {t : VirtIoBlk S D}
        → setup_shm vaddr paddr size s ≡ done (r, t)
        → Step s t
    device :
        (q : VirtQueue) (used : List UsedElem) (used_idx : ℕ) (status : List ℕ) (d : D)
        → s.queue ≡ some q
        → length used ≡ length q.mem.used
        → used_idx < 2 ^ 16
        → length status ≡ length s.status
        → Step s (record s {
          queue = some (record q { mem = record q.mem { used = used; used_idx = used_idx } });
          status = status;
          device = d;
        })

  pub data Reach (s : VirtIoBlk S D) : VirtIoBlk S D → Type 0 where
    start : Reach s s
    later : {t u : VirtIoBlk S D} → Reach s t → Step t u → Reach s u

  returned :
      (f : VirtIoBlk S D → Outcome (VirtIoBlk S D)) {s t : VirtIoBlk S D}
      → Returns io bus base ops f s
      → f s ≡ done t
      → IsSound t
  returned f (t', e', sound) e = subst IsSound (done-injective (sym e' ∙ e)) sound

  shared :
      (s : VirtIoBlk S D) (vaddr paddr size : ℕ)
      → IsSound s
      → IsSound (record s {
        buffer = some (record { vaddr = vaddr; client_vaddr = vaddr; paddr = paddr; size = size });
      })
  shared s vaddr paddr size (q, fs, own, v) = (
    q,
    fs,
    own,
    BlkInv-Touched s (record s { buffer = some _ }) q fs own v.queue refl refl refl v,
  )

  Step-IsSound : (s t : VirtIoBlk S D) → Step s t → IsSound s → IsSound t
  unfolding setup_shm set_ring_server
  Step-IsSound s t (irq e) v =
      returned (handle_irq io bus base ops) {s = s} (handle_irq_sound io bus base ops s v) e
  Step-IsSound s t (ring e) v =
      returned (handle_ring io bus base ops) {s = s} (handle_ring_sound io bus base ops s v) e
  Step-IsSound s _ (connect server) (q, fs, own, v) = (
    q,
    fs,
    own,
    BlkInv-Touched s (record s { ring_server = some server }) q fs own v.queue refl refl refl v,
  )
  Step-IsSound s t (share vaddr paddr size e) (q, fs, own, v) =
      subst IsSound (ap (λ (x : Result Error (Unit {0}) × VirtIoBlk S D). x.1) (done-injective e))
        (shared s vaddr paddr size (q, fs, own, v))
  Step-IsSound s _ (device q used used_idx status d has lu lt ls) (q', fs, own, v) =
      let same : q' ≡ q = some-injective (sym v.queue ∙ has) in
      let v' : BlkInv s q fs own = subst (λ p. BlkInv s p fs own) same v in
      (
        record q { mem = record q.mem { used = used; used_idx = used_idx } },
        fs,
        own,
        record {
          queue = refl;
          rings = record {
            positive = v'.rings.positive;
            cursor = v'.rings.cursor;
            index = lt;
            used_room = omega (arith, lu, v'.rings.used_room);
          };
          free_list = record {
            sized = v'.free_list.sized;
            fits = v'.free_list.fits;
            linked = v'.free_list.linked;
            counted = v'.free_list.counted;
            distinct = v'.free_list.distinct;
          };
          free_owned = v'.free_owned;
          slots = v'.slots;
          statuses = ls ∙ v'.statuses;
          flights = v'.flights;
          sized = v'.sized;
        },
      )

  Reach-IsSound : (s t : VirtIoBlk S D) → Reach s t → IsSound s → IsSound t
  Reach-IsSound s _ start v = v
  Reach-IsSound s u (later {t} r p) v = Step-IsSound t u p (Reach-IsSound s t r v)

  -- From `init` on, whatever the clients ask for and whatever the device puts into the used ring and
  -- the status bytes, in any order: the next interrupt and the next run over the ring are handled to
  -- the end, with no panic, no endless loop and no descriptor in two places. The device must not say
  -- that its blocks are empty.
  pub reachable-Returns :
      (dma_vaddr dma_paddr : ℕ) (mem : QueueMemory) (reqs : List BlkReq) (status : List ℕ) (d : D)
      → QueueRoom mem
      → length status ≡ 64
      → (negotiated bus base (new {S = S} reqs status d)).blk_size ≢ 0
      → (s t : VirtIoBlk S D) → init bus base dma_vaddr dma_paddr mem (new reqs status d) ≡ done s
      → Reach s t
      → Returns io bus base ops (handle_irq io bus base ops) t
        × Returns io bus base ops (handle_ring io bus base ops) t
  reachable-Returns dma_vaddr dma_paddr mem reqs status d room statuses nz s t run r =
      let (s', e, sound) =
        init_sound bus base dma_vaddr dma_paddr mem reqs status d room statuses nz in
      let v : IsSound t =
        Reach-IsSound s t r (subst IsSound (done-injective (sym e ∙ run)) sound) in
      (handle_irq_sound io bus base ops t v, handle_ring_sound io bus base ops t v)
