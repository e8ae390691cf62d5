-- ===== src/Virtio/Block/Completion.antt =====
-- virtio/block/src/blk.rs: `pop_completions`.
use glenda_drivers.Prelude.{
  ℕ, zero, suc, ◌+◌, ◌-◌, ◌%◌, ◌^◌, Bool, false, Option, none, some, ◌==◌, if◌then◌else◌, get_elem?,
  set, Outcome, done, fault,
}
use glenda_drivers.Prelude.Int.{ℤ, pos, negsuc}
use glenda_drivers.Glenda.{RingServer}
use glenda_drivers.Virtio.Queue
use glenda_drivers.Virtio.Queue.{VirtQueue, QueueMemory, Descriptor, desc_f_next, desc_f_write}
use glenda_drivers.Virtio.Chains.{free_chain}
use glenda_drivers.Virtio.Block.State.{VirtIoBlk, virtio_blk_s_ok}
use glenda_drivers.Virtio.Block.Request.{position}

abbrev pub has_head : ℕ → Option (ℕ × ℕ) → Bool
has_head id none = false
has_head id (some (user_data, head)) = head == id % 2 ^ 16

-- The used entries that the driver has not taken yet.
abbrev pub backlog : Option VirtQueue → ℕ
backlog none = 0
backlog (some q) = (q.mem.used_idx + 2 ^ 16 - q.last_used_idx) % 2 ^ 16

module _ {S D : Type 0} (io : RingServer S) where
  -- `server.complete` on the ring server, if there is one; its error is ignored.
  abbrev pub answer : ℕ → ℤ → VirtIoBlk S D → VirtIoBlk S D
  answer user_data res s = elim s.ring_server [
    | none ↦ s
    | some server ↦ record s { ring_server = some (io.complete server user_data res).1 }
  ]

  -- The body of the loop of `pop_completions`, for one used entry.
  unfoldable pub complete_one : VirtQueue → ℕ → VirtIoBlk S D → Outcome (VirtIoBlk S D)
  complete_one q id s = elim (position (has_head id) s.pending_info) [
    | none ↦ done (record s { queue = some q })
    | some pos' ↦ elim (get_elem? s.pending_info pos') [
      | some (some (user_data, head)) ↦ elim (free_chain q.num q head) [
        | fault ↦ fault
        | done q' ↦ elim (get_elem? s.status pos') [
          | none ↦ fault
          | some status ↦
              let result = if status == virtio_blk_s_ok then pos 0 else negsuc 0 in
              done (
                answer user_data result
                  (record s { queue = some q'; pending_info = set s.pending_info pos' none }))
        ]
      ]
      | _ ↦ fault
    ]
  ]

  -- The loop of `pop_completions`; the fuel counts rounds.
  unfoldable pub completions : ℕ → VirtIoBlk S D → Outcome (VirtIoBlk S D)
  completions zero s = fault
  completions (suc fuel) s = elim s.queue [
    | none ↦ done s
    | some q ↦ elim (Queue.pop q) [
      | fault ↦ fault
      | done (none, q') ↦ done (record s { queue = some q' })
      | done (some (id, len), q') ↦ elim (complete_one q' id s) [
        | fault ↦ fault
        | done s' ↦ completions fuel s'
      ]
    ]
  ]

  unfoldable pub pop_completions : VirtIoBlk S D → Outcome (VirtIoBlk S D)
  pop_completions s = completions (suc (backlog s.queue)) s
