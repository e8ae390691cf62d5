-- ===== src/Virtio/Block/Invariant.antt =====
-- The invariant of the block driver: every descriptor of the queue is free, held by one pending
-- request as part of its chain, or lost.
use glenda_drivers.Prelude.{ℕ, ◌≡◌, ◌≢◌, sym, ap, ◌∙◌, subst, List, ◌∷◌, some, length, get_elem?}
use glenda_drivers.Virtio.Queue.{VirtQueue}
use glenda_drivers.Virtio.Queue.FreeList.{FreeList}
use glenda_drivers.Virtio.Chains.Ownership.{Owner, free, Owned, Flight}
use glenda_drivers.Virtio.Chains.Pending.{Books, RingBounds}
use glenda_drivers.Virtio.Block.State.{VirtIoBlk}

module _ {S D : Type 0} where
  pub record BlkInv (s : VirtIoBlk S D) (q : VirtQueue) (fs : List ℕ) (own : ℕ → Owner)
      : Type 0 where
    pub queue : s.queue ≡ some q
    pub rings : RingBounds q
    pub free_list : FreeList q fs
    pub free_owned : Owned own free fs
    pub slots : length s.pending_info ≡ 64
    pub statuses : length s.status ≡ 64
    pub flights :
        (p user_data head : ℕ)
        → get_elem? s.pending_info p ≡ some (some (user_data, head))
        → (xs : List ℕ) × Flight q.mem.descs own p (head ∷ xs)
    pub sized : s.blk_size ≢ 0

  abbrev pub IsSound : VirtIoBlk S D → Type 0
  IsSound s = (q : VirtQueue) × (fs : List ℕ) × (own : ℕ → Owner) × BlkInv s q fs own

  -- Headers and status bytes do not matter to the invariant.
  pub BlkInv-Touched :
      (s s' : VirtIoBlk S D) (q : VirtQueue) (fs : List ℕ) (own : ℕ → Owner)
      → s'.queue ≡ some q
      → s'.pending_info ≡ s.pending_info
      → length s'.status ≡ length s.status
      → s'.blk_size ≡ s.blk_size
      → BlkInv s q fs own
      → BlkInv s' q fs own
  BlkInv-Touched s s' q fs own eq ep es eb v = record {
    queue = eq;
    rings = v.rings;
    free_list = v.free_list;
    free_owned = v.free_owned;
    slots = ap length ep ∙ v.slots;
    statuses = es ∙ v.statuses;
    flights = λ p ud h e. v.flights p ud h (subst (λ t. get_elem? t p ≡ some (some (ud, h))) ep e);
    sized = λ z. v.sized (sym eb ∙ z);
  }

  pub books :
      (s : VirtIoBlk S D) (q : VirtQueue) (fs : List ℕ) (own : ℕ → Owner)
      → BlkInv s q fs own
      → Books q s.pending_info fs own
  books s q fs own v = record {
    rings = v.rings;
    free_list = v.free_list;
    free_owned = v.free_owned;
    flights = v.flights;
  }

  pub IsSound-Books :
      (s : VirtIoBlk S D) (q : VirtQueue) (fs : List ℕ) (own : ℕ → Owner)
      → s.queue ≡ some q
      → length s.pending_info ≡ 64
      → length s.status ≡ 64
      → s.blk_size ≢ 0
      → Books q s.pending_info fs own
      → BlkInv s q fs own
  IsSound-Books s q fs own has slots statuses sized v = record {
    queue = has;
    rings = v.rings;
    free_list = v.free_list;
    free_owned = v.free_owned;
    slots = slots;
    statuses = statuses;
    flights = v.flights;
    sized = sized;
  }
