-- ===== src/Virtio/Block/Draining.antt =====
-- `pop_completions` takes every used entry, whatever the device has put there, and keeps the
-- driver's invariant.
use glenda_drivers.Prelude.{
  ℕ, zero, suc, ◌<◌, ◌≡◌, refl, ap, ◌∙◌, List, ◌∷◌, Option, none, some, true, arith, set, get_elem?,
  get_or, done, ◌==◌, inl, inr, get_elem?_lt, get_elem?-eq-get_or, Option-cases, if◌then◌else◌,
}
use glenda_drivers.Prelude.Int.{ℤ, pos, negsuc}
use glenda_drivers.Glenda.{RingServer}
use glenda_drivers.Virtio.Queue.{VirtQueue, pop}
use glenda_drivers.Virtio.Chains.{free_chain}
use glenda_drivers.Virtio.Chains.Giving.{SameRings, push_all-SameRings}
use glenda_drivers.Virtio.Chains.Ownership.{Owner}
use glenda_drivers.Virtio.Block.State.{VirtIoBlk, virtio_blk_s_ok}
use glenda_drivers.Virtio.Block.Request.{position}
use glenda_drivers.Virtio.Block.Completion.{
  answer, has_head, complete_one, completions, backlog, pop_completions,
}
use glenda_drivers.Virtio.Block.Invariant.{BlkInv, IsSound}
use glenda_drivers.Virtio.Block.Submission.{position_lem}
use glenda_drivers.Virtio.Block.Freeing.{
  stepped, pop_bounds, BlkInv-answer, freed, freed_state, free_chain-freed, freed-BlkInv,
}

-- The result that a status byte stands for.
abbrev pub result_of : ℕ → ℤ
result_of status = if status == virtio_blk_s_ok then pos 0 else negsuc 0

SameRings-refl : (q : VirtQueue) → SameRings q q
SameRings-refl q = record {
  num = refl;
  last_used_idx = refl;
  size = refl;
  avail = refl;
  avail_idx = refl;
  used = refl;
  used_idx = refl;
}

fewer : (p q : VirtQueue) → SameRings p q → backlog (some p) ≡ backlog (some q)
fewer p q same = rw (same.last_used_idx, same.used_idx)

module _ {S D : Type 0} (io : RingServer S) where
  -- A used entry whose id is no pending head is dropped.
  complete_one_unknown :
      (q : VirtQueue) (id : ℕ) (s : VirtIoBlk S D)
      → position (has_head id) s.pending_info ≡ none
      → complete_one io q id s ≡ done (record s { queue = some q })
  unfolding complete_one
  complete_one_unknown q id s e = rw (e, complete_one)

  -- A used entry that names the head of a pending request ends that request: its client is
  -- answered once, with 0 if the device's status byte is `virtio_blk_s_ok` and -1 otherwise, and its
  -- chain is freed.
  complete_one_known :
      (q : VirtQueue) (id : ℕ) (s : VirtIoBlk S D) (i user_data head status : ℕ)
      → position (has_head id) s.pending_info ≡ some i
      → get_elem? s.pending_info i ≡ some (some (user_data, head))
      → get_elem? s.status i ≡ some status
      → (q' : VirtQueue) → free_chain q.num q head ≡ done q'
      → complete_one io q id s
        ≡ done (
            answer io user_data
              (result_of status)
              (record s { queue = some q'; pending_info = set s.pending_info i none }))
  unfolding complete_one
  complete_one_known q id s i ud head st e1 e2 e3 q' e4 = rw (e1, complete_one, e2, e4, e3)

  -- What a step of the loop keeps: soundness, and the indices of the used ring.
  abbrev Stays : VirtQueue → VirtIoBlk S D → Type 0
  Stays q s' =
      (q' : VirtQueue) × (fs : List ℕ) × (own : ℕ → Owner) × BlkInv s' q' fs own × SameRings q' q

  complete_one_sound :
      (q : VirtQueue) (id : ℕ) (s : VirtIoBlk S D) (fs : List ℕ) (own : ℕ → Owner)
      → BlkInv (record s { queue = some q }) q fs own
      → (s' : VirtIoBlk S D) × (complete_one io q id s ≡ done s') × Stays q s'
  complete_one_sound q id s fs own v = elim (Option-cases (position (has_head id) s.pending_info)) [
    | inl e ↦ (
      record s { queue = some q },
      complete_one_unknown q id s e,
      (q, fs, own, v, SameRings-refl q),
    )
    | inr (i, e) ↦ known i e (position_lem (has_head id) s.pending_info i e)
  ]
    where
      known :
          (i : ℕ)
          → position (has_head id) s.pending_info ≡ some i
          → (x : Option (ℕ × ℕ)) × (get_elem? s.pending_info i ≡ some x) × (has_head id x ≡ true)
          → (s' : VirtIoBlk S D) × (complete_one io q id s ≡ done s') × Stays q s'
      known i e (none, here, is) = cc
      known i e (some (ud, head), here, is) =
          let (xs, f) = v.flights i ud head here in
          let st : ℕ = get_or s.status i 0 in
          let at : get_elem? s.status i ≡ some st =
            get_elem?-eq-get_or s.status i 0
              (omega (arith, get_elem?_lt s.pending_info i here, v.slots, v.statuses)) in
          (
            answer io ud (result_of st) (freed_state io s q fs own v i ud head xs here f),
            complete_one_known q id s i ud head st e here at
                (freed io s q fs own v i ud head xs here f)
                (free_chain-freed io s q fs own v i ud head xs here f),
            (
              freed io s q fs own v i ud head xs here f,
              _,
              _,
              BlkInv-answer io ud (result_of st) _ _ _ _
                  (freed-BlkInv io s q fs own v i ud head xs here f),
              push_all-SameRings q (head ∷ xs),
            ),
          )

  -- A step of the cursor keeps the invariant.
  stepped-BlkInv :
      (s : VirtIoBlk S D) (q : VirtQueue) (fs : List ℕ) (own : ℕ → Owner)
      → BlkInv s q fs own
      → BlkInv (record s { queue = some (stepped q) }) (stepped q) fs own
  stepped-BlkInv s q fs own v = record {
    queue = refl;
    rings = record {
      positive = v.rings.positive;
      cursor = omega arith;
      index = v.rings.index;
      used_room = v.rings.used_room;
    };
    free_list = record {
      sized = v.free_list.sized;
      fits = v.free_list.fits;
      linked = v.free_list.linked;
      counted = v.free_list.counted;
      distinct = v.free_list.distinct;
    };
    free_owned = v.free_owned;
    slots = v.slots;
    statuses = v.statuses;
    flights = v.flights;
    sized = v.sized;
  }

  emptied-BlkInv :
      (s : VirtIoBlk S D) (q : VirtQueue) (fs : List ℕ) (own : ℕ → Owner)
      → BlkInv s q fs own
      → BlkInv (record s { queue = some q }) q fs own
  emptied-BlkInv s q fs own v = record {
    queue = refl;
    rings = v.rings;
    free_list = v.free_list;
    free_owned = v.free_owned;
    slots = v.slots;
    statuses = v.statuses;
    flights = v.flights;
    sized = v.sized;
  }

  completions_dry :
      (s : VirtIoBlk S D) (q : VirtQueue)
      → s.queue ≡ some q
      → pop q ≡ done (none, q)
      → (fuel : ℕ) → completions io (suc fuel) s ≡ done (record s { queue = some q })
  unfolding completions
  completions_dry s q eq e fuel = rw (eq, completions, e)

  completions_next :
      (s s' : VirtIoBlk S D) (q q' : VirtQueue) (id len : ℕ)
      → s.queue ≡ some q
      → pop q ≡ done (some (id, len), q')
      → complete_one io q' id s ≡ done s'
      → (fuel : ℕ) → completions io (suc fuel) s ≡ completions io fuel s'
  unfolding completions
  completions_next s s' q q' id len eq e run fuel = rw (eq, completions, e, run)

  -- With fuel for the entries that are there, the loop ends, and none is left.
  completions_sound :
      (fuel : ℕ) (s : VirtIoBlk S D)
      → IsSound s
      → backlog s.queue < fuel
      → (s' : VirtIoBlk S D) × (completions io fuel s ≡ done s')
        × IsSound s'
        × (backlog s'.queue ≡ 0)
  completions_sound zero s v h = absurd (omega arith)
  completions_sound (suc fuel) s (q, fs, own, v) h = elim (pop_bounds q v.rings) [
    | inl (dry, e) ↦ (
      record s { queue = some q },
      completions_dry s q v.queue e fuel,
      (q, fs, own, emptied-BlkInv s q fs own v),
      dry,
    )
    | inr (e, at, e', less) ↦
        let (s', run, (q', fs', own', v', same)) =
          complete_one_sound (stepped q) e.id s fs own (stepped-BlkInv s q fs own v) in
        let (s'', rest, sound, dry) =
          completions_sound fuel s' (q', fs', own', v')
            (omega (
              arith,
              less,
              h,
              ap backlog v.queue,
              fewer q' (stepped q) same,
              ap backlog v'.queue,
            )) in
        (s'', completions_next s s' q (stepped q) e.id e.len v.queue e' run fuel ∙ rest, sound, dry)
  ]

  -- `pop_completions` returns, whatever the device has put into the used ring: no panic, no
  -- endless loop. No used entry is left, and the driver is sound.
  pub pop_completions_sound :
      (s : VirtIoBlk S D)
      → IsSound s
      → (s' : VirtIoBlk S D) × (pop_completions io s ≡ done s')
        × IsSound s'
        × (backlog s'.queue ≡ 0)
  unfolding pop_completions
  pop_completions_sound s v = completions_sound (suc (backlog s.queue)) s v (omega arith)
