-- ===== src/Virtio/Net/Startup.antt =====
-- The network driver of virtio/net/src/net.rs from `init` on: interrupts, requests, the service's calls
-- and the device's writes, in any order.
use glenda_drivers.Prelude.{
  ℕ, ◌+◌, ◌%◌, ◌^◌, ◌<◌, ◌≡◌, refl, sym, ap, ◌∙◌, subst, Outcome, done-injective, some-injective,
  List, Option, none, some, arith, length, done, length-replicate, get_elem?-replicate, range_from,
  replicate, bit_and, ◌==◌, false, true, Bool-cases, inl, inr,
}
use glenda_drivers.Prelude.Handlers.{Result, ok, err}
use glenda_drivers.Glenda.{Opcodes, RingServer}
use glenda_drivers.Mmio.{Bus}
use glenda_drivers.Virtio.Consts.{status_features_ok}
use glenda_drivers.Virtio.Transport.{VirtIoError, invalid_header}
use glenda_drivers.Virtio.Queue
use glenda_drivers.Virtio.Queue.{VirtQueue, QueueMemory, UsedElem}
use glenda_drivers.Virtio.Queue.Setup.{new_lem}
use glenda_drivers.Virtio.Chains.Ownership.{Owner}
use glenda_drivers.Virtio.Block.Startup.{QueueRoom, all_free, nothing}
use glenda_drivers.Virtio.Net.State.{
  VirtIoNet, VirtIoNetHdr, Lane, fresh, setup_shm, set_ring_server,
}
use glenda_drivers.Virtio.Net.Lane.Invariant.{IsSound, LaneSound, NamesHeads}
use glenda_drivers.Virtio.Net.Driver.{init, negotiated, started, handle_irq, handle_ring}
use glenda_drivers.Virtio.Net.Soundness.{NetSound}
use glenda_drivers.Virtio.Net.Service.{Returns, handle_irq_sound, handle_ring_sound}

-- With no request pending, every descriptor is free.
new_queue-IsSound :
    (index paddr : ℕ) (mem : QueueMemory)
    → QueueRoom mem
    → NamesHeads mem.used
    → (q : VirtQueue) × (Queue.new index 128 paddr mem ≡ done q) × IsSound q (replicate 128 none)
new_queue-IsSound index paddr mem room names =
    let (q, e, free_list, num, last, used, used_idx) =
      new_lem index 128 paddr mem (omega arith) (omega arith) room.descs in
    (
      q,
      e,
      (
        range_from 0 128,
        λ x. Owner.free,
        record {
          books = record {
            rings = record {
              positive = omega (arith, num);
              cursor = omega (arith, last);
              index = omega (arith, used_idx, room.used_idx);
              used_room = omega (arith, num, ap length used, room.used);
            };
            free_list = free_list;
            free_owned = all_free (range_from 0 128);
            flights = λ (p ud h : ℕ) at.
                absurd (nothing ud h (get_elem?-replicate 128 none p (some (ud, h)) at));
          };
          slots = length-replicate {A = Option (ℕ × ℕ)} 128 none;
          size = num;
          names = subst NamesHeads (sym used) names;
        },
      ),
    )

module _ {S D : Type 0} (bus : Bus D) (base dma_vaddr dma_paddr : ℕ) (rx_mem tx_mem : QueueMemory)
    (headers : ℕ → VirtIoNetHdr) (d : D) where
  -- The state that `init` starts from, and the status that the device shows after the negotiation.
  abbrev pub given : VirtIoNet S D
  given = record (fresh headers d) { dma_vaddr = dma_vaddr; dma_paddr = dma_paddr }

  init_refused :
      (bit_and (negotiated bus base given).0 status_features_ok == 0) ≡ true
      → init bus base dma_vaddr dma_paddr rx_mem tx_mem (fresh headers d)
        ≡ done (err invalid_header, (negotiated bus base given).1)
  unfolding init
  init_refused refused = simp refused

  pub init_started :
      (rx tx : VirtQueue)
      → (bit_and (negotiated bus base given).0 status_features_ok == 0) ≡ false
      → Queue.new 0 128 ((dma_paddr + 8192) % 2 ^ 64) rx_mem ≡ done rx
      → Queue.new 1 128 ((dma_paddr + 8192 + 4096) % 2 ^ 64) tx_mem ≡ done tx
      → init bus base dma_vaddr dma_paddr rx_mem tx_mem (fresh headers d)
        ≡ done (ok tt, started bus base rx tx (negotiated bus base given).1)
  unfolding init
  init_started rx tx accepted e1 e2 = simp (accepted, e1, e2)

  -- `init` returns; unless the device refuses the features, both queues are sound.
  pub init_sound :
      QueueRoom rx_mem
      → QueueRoom tx_mem
      → NamesHeads rx_mem.used
      → NamesHeads tx_mem.used
      → (r : Result VirtIoError (Unit {0})) × (s : VirtIoNet S D) × (init bus base dma_vaddr
            dma_paddr rx_mem tx_mem
            (fresh headers d)
          ≡ done (r, s))
        × (r ≡ ok tt → NetSound s)
  init_sound rx_room tx_room rx_names tx_names =
      let (rx, e1, v1) =
        new_queue-IsSound 0 ((dma_paddr + 8192) % 2 ^ 64) rx_mem rx_room rx_names in
      let (tx, e2, v2) =
        new_queue-IsSound 1 ((dma_paddr + 8192 + 4096) % 2 ^ 64) tx_mem tx_room tx_names in
      elim (Bool-cases (bit_and (negotiated bus base given).0 status_features_ok == 0)) [
        | inl refused ↦ (err invalid_header, _, init_refused refused, λ e. cc)
        | inr accepted ↦
            (ok tt, _, init_started rx tx accepted e1 e2, λ e. ((rx, refl, v1), (tx, refl, v2)))
      ]

-- A queue after the device has written its used ring.
abbrev pub written : VirtQueue → List UsedElem → ℕ → VirtQueue
written q used used_idx = record q { mem = record (q.mem) { used = used; used_idx = used_idx } }

written-IsSound :
    (q : VirtQueue) (pending : List (Option (ℕ × ℕ))) (used : List UsedElem) (used_idx : ℕ)
    → length used ≡ length q.mem.used
    → used_idx < 2 ^ 16
    → NamesHeads used
    → IsSound q pending
    → IsSound (written q used used_idx) pending
written-IsSound q pending used used_idx len small names (fs, own, v) = (
  fs,
  own,
  record {
    books = record {
      rings = record {
        positive = v.books.rings.positive;
        cursor = v.books.rings.cursor;
        index = small;
        used_room = omega (arith, len, v.books.rings.used_room);
      };
      free_list = record {
        sized = v.books.free_list.sized;
        fits = v.books.free_list.fits;
        linked = v.books.free_list.linked;
        counted = v.books.free_list.counted;
        distinct = v.books.free_list.distinct;
      };
      free_owned = v.books.free_owned;
      flights = v.books.flights;
    };
    slots = v.slots;
    size = v.size;
    names = names;
  },
)

-- What the device may make of a lane: another used ring, whose entries name descriptors.
pub data Written (l : Lane) : Lane → Type 0 where
  puts :
      (q : VirtQueue) (used : List UsedElem) (used_idx : ℕ)
      → l.queue ≡ some q
      → length used ≡ length q.mem.used
      → used_idx < 2 ^ 16
      → NamesHeads used
      → Written l (record l { queue = some (written q used used_idx) })

Written-LaneSound : (l m : Lane) → Written l m → LaneSound l → LaneSound m
Written-LaneSound l _ (puts q used used_idx has len small names) (p, e, v) =
    let same : p ≡ q = some-injective (sym e ∙ has) in
    (
      written q used used_idx,
      refl,
      written-IsSound q l.pending used used_idx len small names
          (subst (λ t. IsSound t l.pending) same v),
    )

module _ {S D : Type 0} (io : RingServer S) (bus : Bus D) (base : ℕ) (ops : Opcodes) where
  -- What can happen to the running driver.
  pub data Step (s : VirtIoNet S D) : VirtIoNet S D → Type 0 where
    irq : {t : VirtIoNet S D} → handle_irq io bus base ops s ≡ done t → Step s t
    ring : {t : VirtIoNet S D} → handle_ring io bus base ops s ≡ done t → Step s t
    connect : (server : S) → Step s (set_ring_server server s)
    share : (vaddr paddr size : ℕ) → Step s (setup_shm vaddr paddr size s)
    device :
        (rx tx : Lane) (d : D)
        → Written s.rx rx
        → Written s.tx tx
        → Step s (record s { rx = rx; tx = tx; device = d })

  pub data Reach (s : VirtIoNet S D) : VirtIoNet S D → Type 0 where
    start : Reach s s
    later : {t u : VirtIoNet S D} → Reach s t → Step t u → Reach s u

  returned :
      (f : VirtIoNet S D → Outcome (VirtIoNet S D)) {s t : VirtIoNet S D}
      → Returns io bus base ops f s
      → f s ≡ done t
      → NetSound t
  returned f (t', e', sound) e = subst NetSound (done-injective (sym e' ∙ e)) sound

  Step-NetSound : (s t : VirtIoNet S D) → Step s t → NetSound s → NetSound t
  unfolding setup_shm set_ring_server
  Step-NetSound s t (irq e) v =
      returned (handle_irq io bus base ops) {s = s} (handle_irq_sound io bus base ops s v) e
  Step-NetSound s t (ring e) v =
      returned (handle_ring io bus base ops) {s = s} (handle_ring_sound io bus base ops s v) e
  Step-NetSound s _ (connect server) v = v
  Step-NetSound s _ (share vaddr paddr size) v = v
  Step-NetSound s _ (device rx tx d a b) v =
      (Written-LaneSound s.rx rx a v.0, Written-LaneSound s.tx tx b v.1)

  Reach-NetSound : (s t : VirtIoNet S D) → Reach s t → NetSound s → NetSound t
  Reach-NetSound s _ start v = v
  Reach-NetSound s u (later {t} r p) v = Step-NetSound t u p (Reach-NetSound s t r v)

  -- From a successful `init` on, whatever the clients ask for and whatever the device writes into the
  -- used rings, as long as it names descriptors below 128, in any order: `handle_irq` and `handle_ring`
  -- return, and every descriptor of either queue is then free, or in the chain of one pending
  -- request, or lost.
  pub net_reachable-Returns :
      (dma_vaddr dma_paddr : ℕ) (rx_mem tx_mem : QueueMemory) (headers : ℕ → VirtIoNetHdr) (d : D)
      → QueueRoom rx_mem
      → QueueRoom tx_mem
      → NamesHeads rx_mem.used
      → NamesHeads tx_mem.used
      → (s t : VirtIoNet S D)
      → init bus base dma_vaddr dma_paddr rx_mem tx_mem (fresh headers d) ≡ done (ok tt, s)
      → Reach s t
      → Returns io bus base ops (handle_irq io bus base ops) t
        × Returns io bus base ops (handle_ring io bus base ops) t
  net_reachable-Returns dma_vaddr dma_paddr rx_mem tx_mem headers d rx_room tx_room rx_names
        tx_names s t run r =
      let (res, s', e, sound) =
        init_sound bus base dma_vaddr dma_paddr rx_mem tx_mem headers d rx_room tx_room rx_names
          tx_names in
      let same = done-injective (sym e ∙ run) in
      let is_ok : res ≡ ok tt =
        ap (λ (x : Result VirtIoError (Unit {0}) × VirtIoNet S D). x.0) same in
      let is_s : s' ≡ s = ap (λ (x : Result VirtIoError (Unit {0}) × VirtIoNet S D). x.1) same in
      let v : NetSound t = Reach-NetSound s t r (subst NetSound is_s (sound is_ok)) in
      (handle_irq_sound io bus base ops t v, handle_ring_sound io bus base ops t v)
