-- ===== src/Virtio/Chains.antt =====
-- What the virtio drivers do with the descriptors of one request: take them, and give a finished
-- chain back (the loop that blk.rs has in `pop_completions` and net.rs twice in `handle_irq`).
pub mod Giving
pub mod Taking
pub mod Ownership
pub mod Pending
use glenda_drivers.Prelude.{
  ℕ, zero, suc, bit_and, Bool, true, false, Option, none, some, ◌==◌, get_elem?, Outcome, done,
  fault, or_fault, ◌>>=◌,
}
use glenda_drivers.Prelude.Handlers.{Result, ok, err, Handler}
use glenda_drivers.Virtio.Queue.{
  VirtQueue, Descriptor, alloc_desc, free_desc, write_desc, submit, desc_f_next,
}

module _ {E : Type 0} where
  -- `queue.alloc_desc().ok_or(e)?`
  unfoldable pub take_desc : E → Handler VirtQueue E ℕ
  take_desc e q = elim (alloc_desc q) [
    | fault ↦ fault
    | done (none, q') ↦ done (err e, q')
    | done (some d, q') ↦ done (ok d, q')
  ]

  unfoldable pub put_desc : ℕ → Descriptor → Handler VirtQueue E (Unit {0})
  put_desc id d q = elim (write_desc q id d) [ fault ↦ fault | done q' ↦ done (ok tt, q') ]

  unfoldable pub offer : ℕ → Handler VirtQueue E (Unit {0})
  offer head q = elim (submit q head) [ fault ↦ fault | done q' ↦ done (ok tt, q') ]

-- Frees the chain that starts at `curr`; out of fuel is a fault.
unfoldable pub free_chain : ℕ → VirtQueue → ℕ → Outcome VirtQueue
free_chain zero q curr = fault
free_chain (suc fuel) q curr = do
  d ← or_fault (get_elem? q.mem.descs curr)
  q' ← free_desc q curr
  let rest = free_chain fuel q' d.next
  elim (bit_and d.flags desc_f_next == 0) [ true ↦ done q' | false ↦ rest ]
