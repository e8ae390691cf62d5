-- ===== src/Virtio/Block/Accepting.antt =====
-- What a request does to the invariant: its chain of three is taken, or what was free is lost.
use glenda_drivers.Prelude.{
  ℕ, ◌<◌, ◌≡◌, refl, sym, ap, ◌∙◌, subst, List, [], ◌∷◌, some, Bool, arith, length, length-set,
  Distinct, AllBelow,
}
use glenda_drivers.Glenda.{Sqe, Opcodes}
use glenda_drivers.Mmio.{Bus}
use glenda_drivers.Virtio.Queue.{VirtQueue, QueueMemory}
use glenda_drivers.Virtio.Queue.FreeList.{FreeList, Chain-AllBelow}
use glenda_drivers.Virtio.Chains.Giving.{Apart, AllBelow-mono}
use glenda_drivers.Virtio.Chains.Ownership.{
  free_ne_slot, Owner, free, slot, lost, Owned, Flight, give_all, Apart-of_owners, Flight-set,
  Flight-give_all,
}
use glenda_drivers.Virtio.Block.State.{VirtIoBlk}
use glenda_drivers.Virtio.Block.Queueing.{queued, queued-FreeList, queued-UsedChain}
use glenda_drivers.Virtio.Block.Invariant.{BlkInv, books, IsSound-Books}
use glenda_drivers.Virtio.Chains.Pending.{accepted-Books}
use glenda_drivers.Virtio.Block.Submission.{prepared, accepted, header_paddr, status_paddr}

module _ {S D : Type 0} (bus : Bus D) (base : ℕ) (ops : Opcodes) where
  module _ (s : VirtIoBlk S D) (sqe : Sqe) (q : VirtQueue) (a b c : ℕ) (fs : List ℕ)
      (own : ℕ → Owner) (v : BlkInv s q (a ∷ b ∷ c ∷ fs) own) (i paddr : ℕ) (kind : ℕ × Bool)
      (small : i < 64) where
    abbrev pub after_queue : VirtQueue
    after_queue =
        queued (header_paddr bus base ops s i) paddr sqe.len (status_paddr bus base ops s i) kind.1
          q a b c

    abbrev pub after_state : VirtIoBlk S D
    after_state =
        accepted bus base ops
          (record (prepared bus base ops s sqe i kind.0) { queue = some after_queue }) sqe i a

    abbrev pub after_own : ℕ → Owner
    after_own = give_all own (a ∷ b ∷ c ∷ []) (slot i)

    distinct3 : Distinct (a ∷ b ∷ c ∷ [])
    distinct3 = let d = v.free_list.distinct in ((d.0.0, (d.0.1.0, tt)), ((d.1.0.0, tt), (tt, tt)))

    below3 : AllBelow (length q.mem.descs) (a ∷ b ∷ c ∷ [])
    below3 =
        let below = Chain-AllBelow q.mem.descs q.free_head (a ∷ b ∷ c ∷ fs) v.free_list.linked in
        (below.0, (below.1.0, (below.1.1.0, tt)))

    apart3 : Apart (a ∷ b ∷ c ∷ []) fs
    apart3 = let d = v.free_list.distinct in (d.0.1.1, (d.1.0.1, (d.1.1.0, tt)))

    owned3 : Owned own free (a ∷ b ∷ c ∷ [])
    owned3 = (v.free_owned.0, (v.free_owned.1.0, (v.free_owned.1.1.0, tt)))

    after-FreeList : FreeList after_queue fs
    after-FreeList = queued-FreeList _ _ _ _ kind.1 q a b c fs v.free_list

    kept-Flight :
        (p : ℕ) (xs : List ℕ)
        → Apart (a ∷ b ∷ c ∷ []) xs
        → Flight q.mem.descs own p xs
        → Flight after_queue.mem.descs own p xs
    kept-Flight p xs away f =
        Flight-set _ own p c _ xs away.1.1.0
          (Flight-set _ own p b _ xs away.1.0 (Flight-set _ own p a _ xs away.0 f))

    pub submit-BlkInv : BlkInv after_state after_queue fs after_own
    submit-BlkInv =
        IsSound-Books after_state after_queue fs after_own refl
          (length-set s.pending_info i (some (sqe.user_data, a)) ∙ v.slots)
          (length-set s.status i 0xff ∙ v.statuses) v.sized
          (accepted-Books q after_queue s.pending_info (a ∷ b ∷ c ∷ fs) fs own (books s q _ own v)
            (a ∷ b ∷ c ∷ []) apart3 owned3 v.free_owned.1.1.1 after-FreeList
            (record {
              positive = v.rings.positive;
              cursor = v.rings.cursor;
              index = v.rings.index;
              used_room = v.rings.used_room;
            })
            kept-Flight i sqe.user_data a (b ∷ c ∷ []) refl (omega (arith, v.slots))
            (queued-UsedChain _ _ _ _ kind.1 q a b c fs v.free_list)
            (AllBelow-mono _ _ (a ∷ b ∷ c ∷ [])
              (omega (arith, after-FreeList.sized, v.free_list.sized)) below3)
            distinct3)

  -- With fewer than three free descriptors the request fails, and those that were free are lost.
  module _ (s : VirtIoBlk S D) (sqe : Sqe) (q : VirtQueue) (fs : List ℕ) (own : ℕ → Owner)
      (v : BlkInv s q fs own) (i paddr : ℕ) (kind : ℕ × Bool) where
    abbrev pub short_state : VirtQueue → VirtIoBlk S D
    short_state q' = record (prepared bus base ops s sqe i kind.0) { queue = some q' }

    pub short-BlkInv :
        (q' : VirtQueue)
        → FreeList q' []
        → q'.mem ≡ q.mem
        → q'.num ≡ q.num
        → q'.last_used_idx ≡ q.last_used_idx
        → BlkInv (short_state q') q' [] (give_all own fs lost)
    short-BlkInv q' fl m n l = record {
      queue = refl;
      rings = record {
        positive = omega (arith, v.rings.positive);
        cursor = omega (arith, v.rings.cursor);
        index = omega (arith, v.rings.index, ap (λ (t : QueueMemory). t.used_idx) m);
        used_room = omega (arith, v.rings.used_room, ap (λ (t : QueueMemory). length t.used) m);
      };
      free_list = fl;
      free_owned = tt;
      slots = v.slots;
      statuses = length-set s.status i 0xff ∙ v.statuses;
      flights = λ p ud h e.
          let (xs, f) = v.flights p ud h e in
          (
            xs,
            subst (λ (t : QueueMemory). Flight t.descs (give_all own fs lost) p (h ∷ xs)) (sym m)
                (Flight-give_all _ own p fs lost (h ∷ xs)
                  (Apart-of_owners own free (slot p) fs (h ∷ xs) (free_ne_slot p) v.free_owned
                    f.owned)
                  f),
          );
      sized = v.sized;
    }
