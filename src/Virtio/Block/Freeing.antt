-- ===== src/Virtio/Block/Freeing.antt =====
-- What the end of a pending request does to the driver's state, and what `pop` gives.
use glenda_drivers.Prelude.{
  ℕ, suc, ◌+◌, ◌%◌, ◌^◌, ◌≡◌, refl, ap, ◌∙◌, List, ◌∷◌, none, some, arith, length, set, get_elem?,
  get_or, done, inl, inr, ◌⊎◌, length-set, ℕ_discrete, get_elem?-eq-get_or,
}
use glenda_drivers.Prelude.Int.{ℤ}
use glenda_drivers.Glenda.{RingServer}
use glenda_drivers.Virtio.Queue.{VirtQueue, UsedElem, pop, can_pop}
use glenda_drivers.Virtio.Chains.{free_chain}
use glenda_drivers.Virtio.Chains.Giving.{push_all, onto}
use glenda_drivers.Virtio.Chains.Ownership.{Owner, free, Flight, give_all}
use glenda_drivers.Virtio.Block.State.{VirtIoBlk}
use glenda_drivers.Virtio.Block.Completion.{answer, backlog}
use glenda_drivers.Virtio.Block.Invariant.{BlkInv, BlkInv-Touched, books, IsSound-Books}
use glenda_drivers.Virtio.Chains.Pending
use glenda_drivers.Virtio.Chains.Pending.{RingBounds, freed-Books}

abbrev pub stepped : VirtQueue → VirtQueue
stepped q = record q { last_used_idx = (q.last_used_idx + 1) % 2 ^ 16 }

-- `pop` finds nothing when the indices agree, else an entry, whatever it is.
pub pop_bounds :
    (q : VirtQueue)
    → RingBounds q
    → ((backlog (some q) ≡ 0) × (pop q ≡ done (none, q)))
      ⊎ ((e : UsedElem) × (get_elem? q.mem.used (q.last_used_idx % q.num) ≡ some e)
          × (pop q ≡ done (some (e.id, e.len), stepped q))
          × (suc (backlog (some (stepped q))) ≡ backlog (some q)))
unfolding pop can_pop
pop_bounds q b = elim (ℕ_discrete q.last_used_idx q.mem.used_idx) [
  | yes e ↦ inl (omega (arith, b.cursor, b.index), ground arith)
  | no ne ↦
      let e : UsedElem = get_or q.mem.used (q.last_used_idx % q.num) (record { id = 0; len = 0 }) in
      let at : get_elem? q.mem.used (q.last_used_idx % q.num) ≡ some e =
        get_elem?-eq-get_or q.mem.used (q.last_used_idx % q.num) (record { id = 0; len = 0 })
          (omega (arith, b.positive, b.used_room)) in
      inr (e, at, ground (arith, b.positive, at), omega (arith, b.cursor, b.index))
]

module _ {S D : Type 0} (io : RingServer S) where
  pub answer_fields :
      (ud : ℕ) (res : ℤ) (s : VirtIoBlk S D)
      → ((answer io ud res s).queue ≡ s.queue)
        × ((answer io ud res s).pending_info ≡ s.pending_info)
        × ((answer io ud res s).status ≡ s.status)
        × ((answer io ud res s).blk_size ≡ s.blk_size)
  answer_fields ud res s = ground arith

  pub BlkInv-answer :
      (ud : ℕ) (res : ℤ) (s : VirtIoBlk S D) (q : VirtQueue) (fs : List ℕ) (own : ℕ → Owner)
      → BlkInv s q fs own
      → BlkInv (answer io ud res s) q fs own
  BlkInv-answer ud res s q fs own v =
      let (eq, ep, es, eb) = answer_fields ud res s in
      BlkInv-Touched s (answer io ud res s) q fs own (eq ∙ v.queue) ep (ap length es) eb v

  -- The pending request of slot `i` is over: its whole chain goes back to the free list.
  module _ (s : VirtIoBlk S D) (q : VirtQueue) (fs : List ℕ) (own : ℕ → Owner)
      (v : BlkInv (record s { queue = some q }) q fs own) (i user_data head : ℕ) (xs : List ℕ)
      (here : get_elem? s.pending_info i ≡ some (some (user_data, head)))
      (f : Flight q.mem.descs own i (head ∷ xs)) where
    abbrev pub freed : VirtQueue
    freed = push_all q (head ∷ xs)

    abbrev pub freed_own : ℕ → Owner
    freed_own = give_all own (head ∷ xs) free

    abbrev pub freed_state : VirtIoBlk S D
    freed_state = record s { queue = some freed; pending_info = set s.pending_info i none }

    pub free_chain-freed : free_chain q.num q head ≡ done freed
    free_chain-freed =
        Pending.free_chain-freed q s.pending_info fs own (books _ q fs own v) i user_data head xs
          here f

    pub freed-BlkInv : BlkInv freed_state freed (onto (head ∷ xs) fs) freed_own
    freed-BlkInv =
        IsSound-Books freed_state freed (onto (head ∷ xs) fs) freed_own refl
          (length-set s.pending_info i none ∙ v.slots) v.statuses v.sized
          (freed-Books q s.pending_info fs own (books _ q fs own v) i user_data head xs here f)
