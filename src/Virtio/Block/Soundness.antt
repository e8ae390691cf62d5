-- ===== src/Virtio/Block/Soundness.antt =====
-- `submit_virtio_request` keeps the driver's invariant on every branch.
use glenda_drivers.Prelude.{
  ℕ, ◌%◌, ◌<◌, ◌≡◌, ◌≢◌, ◌∙◌, List, [], ◌∷◌, some, Bool, true, false, arith, length, done, ◌==◌,
  inl, inr, get_elem?_lt,
}
use glenda_drivers.Prelude.Handlers.{Result, ok, err}
use glenda_drivers.Glenda.{Error, Sqe, Opcodes, out_of_memory}
use glenda_drivers.Mmio.{Bus}
use glenda_drivers.Virtio.Queue.{VirtQueue}
use glenda_drivers.Virtio.Chains.Ownership.{Owner, lost, give_all}
use glenda_drivers.Virtio.Block.State.{VirtIoBlk}
use glenda_drivers.Virtio.Block.Request.{
  position, is_none, direction, data_paddr, submit_virtio_request,
}
use glenda_drivers.Virtio.Block.Queueing.{queue_request-queued, queue_request_short}
use glenda_drivers.Virtio.Block.Invariant.{BlkInv, IsSound}
use glenda_drivers.Virtio.Block.Submission.{
  position_lem, header_paddr, status_paddr, submit_ok, submit_err, guards,
}
use glenda_drivers.Virtio.Block.Accepting.{
  after_queue, after_state, after_own, submit-BlkInv, short_state, short-BlkInv,
}
use glenda_drivers.Virtio.Block.Invariant.{BlkInv-Touched}

module _ {S D : Type 0} (bus : Bus D) (base : ℕ) (ops : Opcodes) where
  module _ (s : VirtIoBlk S D) (sqe : Sqe) (q : VirtQueue) (own : ℕ → Owner) (i paddr : ℕ)
      (kind : ℕ × Bool) (sized : (s.blk_size == 0) ≡ false)
      (aligned : (sqe.len % s.blk_size == 0) ≡ true)
      (has_slot : position is_none s.pending_info ≡ some i) (has_dma : (s.dma_vaddr == 0) ≡ false)
      (has_kind : direction ops sqe.opcode ≡ some kind)
      (in_range : data_paddr s.buffer sqe ≡ ok paddr) where
    abbrev Sound : Type 0
    Sound =
        (r : Result Error (Unit {0})) × (s' : VirtIoBlk S D) × (submit_virtio_request bus base ops
            sqe s
          ≡ done (r, s'))
        × IsSound s'

    short_sound : (fs : List ℕ) → BlkInv s q fs own → length fs < 3 → Sound
    short_sound fs v h =
        let (q', e, fl, m, n, l) =
          queue_request_short (header_paddr bus base ops s i) paddr sqe.len
            (status_paddr bus base ops s i) kind.1 q fs v.free_list h in
        (
          err out_of_memory,
          short_state bus base ops s sqe q fs own v i paddr kind q',
          submit_err bus base ops s sqe q i paddr kind sized aligned v.queue has_slot has_dma
              has_kind in_range out_of_memory q' e,
          (
            q',
            [],
            give_all own fs lost,
            short-BlkInv bus base ops s sqe q fs own v i paddr kind q' fl m n l,
          ),
        )

    queued_sound : (fs : List ℕ) → BlkInv s q fs own → Sound
    queued_sound [] v = short_sound [] v (omega arith)
    queued_sound (a ∷ []) v = short_sound (a ∷ []) v (omega arith)
    queued_sound (a ∷ b ∷ []) v = short_sound (a ∷ b ∷ []) v (omega arith)
    queued_sound (a ∷ b ∷ c ∷ fs) v =
        let (x, at_i, is) = position_lem is_none s.pending_info i has_slot in
        let small : i < 64 = omega (arith, get_elem?_lt s.pending_info i at_i, v.slots) in
        (
          ok tt,
          after_state bus base ops s sqe q a b c fs own v i paddr kind small,
          submit_ok bus base ops s sqe q i paddr kind sized aligned v.queue has_slot has_dma
              has_kind in_range a
              (after_queue bus base ops s sqe q a b c fs own v i paddr kind small)
              (queue_request-queued _ _ _ _ kind.1 q a b c fs v.free_list),
          (
            after_queue bus base ops s sqe q a b c fs own v i paddr kind small,
            fs,
            after_own bus base ops s sqe q a b c fs own v i paddr kind small,
            submit-BlkInv bus base ops s sqe q a b c fs own v i paddr kind small,
          ),
        )

  nonzero : (s : VirtIoBlk S D) → s.blk_size ≢ 0 → (s.blk_size == 0) ≡ false
  nonzero s nz = ground arith

  -- Whatever the request, `submit_virtio_request` returns: it does not panic, and it leaves the
  -- driver sound.
  pub submit_virtio_request_sound :
      (s : VirtIoBlk S D) (sqe : Sqe)
      → IsSound s
      → (r : Result Error (Unit {0})) × (s' : VirtIoBlk S D) × (submit_virtio_request bus base ops
            sqe s
          ≡ done (r, s'))
        × IsSound s'
  submit_virtio_request_sound s sqe (q, fs, own, v) =
      elim (guards bus base ops s sqe q (nonzero s v.sized) v.queue) [
        | inl (e, s', eq, touched) ↦ (
          err e,
          s',
          eq,
          (
            q,
            fs,
            own,
            BlkInv-Touched s s' q fs own (touched.0 ∙ v.queue) touched.1 touched.2 touched.3 v,
          ),
        )
        | inr (i, paddr, kind, aligned, has_slot, has_dma, has_kind, in_range) ↦
            queued_sound s sqe q own i paddr kind (nonzero s v.sized) aligned has_slot has_dma
              has_kind in_range fs v
      ]
