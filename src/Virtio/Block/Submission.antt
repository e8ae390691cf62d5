-- ===== src/Virtio/Block/Submission.antt =====
-- `submit_virtio_request` by its guards: what it comes to when they pass, and when one fails.
use glenda_drivers.Prelude.{
  suc, subst, ℕ, ◌+◌, ◌*◌, ◌%◌, ◌^◌, ◌≡◌, refl, List, [], ◌∷◌, Option, none, some, Bool, true,
  false, arith, length, set, get_elem?, done, ◌==◌, Bool-cases, Option-cases, inl, inr, ◌⊎◌,
  length-set,
}
use glenda_drivers.Prelude.Handlers.{ok, err, Result-cases}
use glenda_drivers.Glenda.{
  Error, Sqe, Opcodes, invalid_args, not_supported, out_of_memory, not_initialized,
}
use glenda_drivers.Mmio.{Bus}
use glenda_drivers.Virtio.Queue.{VirtQueue}
use glenda_drivers.Virtio.Transport
use glenda_drivers.Virtio.Block.State.{VirtIoBlk, blk_req_size}
use glenda_drivers.Virtio.Block.Request.{
  position, is_none, data_paddr, queue_request, direction, submit_virtio_request,
}

-- A search finds an index in range at which the test holds.
pub position_lem {ℓ} :
    {A : Type ℓ} (p : A → Bool) (xs : List A) (i : ℕ)
    → position p xs ≡ some i
    → (x : A) × (get_elem? xs i ≡ some x) × (p x ≡ true)
unfolding position
position_lem p [] i e = cc
position_lem {A} p (x ∷ xs) i e = go (p x) refl (position p xs) refl (position_lem p xs)
  where
    go :
        (t : Bool)
        → p x ≡ t
        → (r : Option ℕ) → position p xs ≡ r
        → ((j : ℕ) → position p xs ≡ some j → (y : A) × (get_elem? xs j ≡ some y) × (p y ≡ true))
        → (y : A) × (get_elem? (x ∷ xs) i ≡ some y) × (p y ≡ true)
    go true et r er ih =
        let found : 0 ≡ i = ground (arith, e) in
        (x, subst (λ k. get_elem? (x ∷ xs) k ≡ some x) found refl, et)
    go false et none er ih = cc (rw (et, er) at e)
    go false et (some j) er ih =
        let (y, at_j, holds) = ih j er in
        let found : suc j ≡ i = ground (arith, e) in
        (y, subst (λ k. get_elem? (x ∷ xs) k ≡ some y) found at_j, holds)

module _ {S D : Type 0} (bus : Bus D) (base : ℕ) (ops : Opcodes) where
  -- The header and the status byte of the slot are written before the descriptors are taken.
  abbrev pub prepared : VirtIoBlk S D → Sqe → ℕ → ℕ → VirtIoBlk S D
  prepared s sqe i type_ = record s {
    reqs = set s.reqs i (record { type_ = type_; reserved = 0; sector = sqe.off });
    status = set s.status i 0xff;
  }

  abbrev pub accepted : VirtIoBlk S D → Sqe → ℕ → ℕ → VirtIoBlk S D
  accepted s sqe i d1 = record s {
    pending_info = set s.pending_info i (some (sqe.user_data, d1));
    device = Transport.notify bus base 0 s.device;
  }

  abbrev pub header_paddr : VirtIoBlk S D → ℕ → ℕ
  header_paddr s i = (s.dma_paddr + i * blk_req_size) % 2 ^ 64

  abbrev pub status_paddr : VirtIoBlk S D → ℕ → ℕ
  status_paddr s i = (s.dma_paddr + (64 * blk_req_size + i)) % 2 ^ 64

  -- All the guards pass: what is left is the queue.
  module _ (s : VirtIoBlk S D) (sqe : Sqe) (q : VirtQueue) (i paddr : ℕ) (kind : ℕ × Bool)
      (sized : (s.blk_size == 0) ≡ false) (aligned : (sqe.len % s.blk_size == 0) ≡ true)
      (has_queue : s.queue ≡ some q) (has_slot : position is_none s.pending_info ≡ some i)
      (has_dma : (s.dma_vaddr == 0) ≡ false) (has_kind : direction ops sqe.opcode ≡ some kind)
      (in_range : data_paddr s.buffer sqe ≡ ok paddr) where
    pub submit_ok :
        (d1 : ℕ) (q' : VirtQueue)
        → queue_request (header_paddr s i) paddr sqe.len (status_paddr s i) kind.1 q
          ≡ done (ok d1, q')
        → submit_virtio_request bus base ops sqe s
          ≡ done (ok tt, accepted (record (prepared s sqe i kind.0) { queue = some q' }) sqe i d1)
    unfolding submit_virtio_request
    submit_ok d1 q' e = simp (sized, aligned, has_queue, has_slot, has_dma, has_kind, in_range, e)

    pub submit_err :
        (er : Error) (q' : VirtQueue)
        → queue_request (header_paddr s i) paddr sqe.len (status_paddr s i) kind.1 q
          ≡ done (err er, q')
        → submit_virtio_request bus base ops sqe s
          ≡ done (err er, record (prepared s sqe i kind.0) { queue = some q' })
    unfolding submit_virtio_request
    submit_err er q' e = simp (sized, aligned, has_queue, has_slot, has_dma, has_kind, in_range, e)

  -- A state that differs from `s` in the headers and status bytes alone.
  abbrev pub Touched : VirtIoBlk S D → VirtIoBlk S D → Type 0
  Touched s s' =
      (s'.queue ≡ s.queue)
      × (s'.pending_info ≡ s.pending_info)
      × (length s'.status ≡ length s.status)
      × (s'.blk_size ≡ s.blk_size)

  -- A request that is refused before its descriptors are taken.
  abbrev pub Refused : VirtIoBlk S D → Sqe → Type 0
  Refused s sqe =
      (e : Error) × (s' : VirtIoBlk S D) × (submit_virtio_request bus base ops sqe s
        ≡ done (err e, s'))
      × Touched s s'

  abbrev pub Accepted : VirtIoBlk S D → Sqe → VirtQueue → Type 0
  Accepted s sqe q =
      (i : ℕ) × (paddr : ℕ) × (kind : ℕ × Bool) × ((sqe.len % s.blk_size == 0) ≡ true)
      × (position is_none s.pending_info ≡ some i)
      × ((s.dma_vaddr == 0) ≡ false)
      × (direction ops sqe.opcode ≡ some kind)
      × (data_paddr s.buffer sqe ≡ ok paddr)

  pub guards :
      (s : VirtIoBlk S D) (sqe : Sqe) (q : VirtQueue)
      → (s.blk_size == 0) ≡ false
      → s.queue ≡ some q
      → Refused s sqe ⊎ Accepted s sqe q
  unfolding submit_virtio_request
  guards s sqe q sized has_queue = elim (Bool-cases (sqe.len % s.blk_size == 0)) [
    | inr b ↦ inl (invalid_args, s, simp (sized, b), (refl, refl, refl, refl))
    | inl aligned ↦ elim (Option-cases (position is_none s.pending_info)) [
      | inl b ↦
          inl (out_of_memory, s, simp (sized, aligned, has_queue, b), (refl, refl, refl, refl))
      | inr (i, has_slot) ↦ elim (Bool-cases (s.dma_vaddr == 0)) [
        | inl b ↦ inl (
          not_initialized,
          s,
          simp (sized, aligned, has_queue, has_slot, b),
          (refl, refl, refl, refl),
        )
        | inr has_dma ↦ elim (Option-cases (direction ops sqe.opcode)) [
          | inl b ↦ inl (
            not_supported,
            s,
            simp (sized, aligned, has_queue, has_slot, has_dma, b),
            (refl, refl, refl, refl),
          )
          | inr (kind, has_kind) ↦ elim (Result-cases (data_paddr s.buffer sqe)) [
            | inl (p, in_range) ↦ inr (i, p, kind, aligned, has_slot, has_dma, has_kind, in_range)
            | inr (e, b) ↦ inl (
              e,
              prepared s sqe i kind.0,
              simp (sized, aligned, has_queue, has_slot, has_dma, has_kind, b),
              (refl, refl, length-set s.status i 0xff, refl),
            )
          ]
        ]
      ]
    ]
  ]
