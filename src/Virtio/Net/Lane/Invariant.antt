-- ===== src/Virtio/Net/Lane/Invariant.antt =====
-- The invariant of a queue of virtio/net/src/net.rs with its list of pending requests.
use glenda_drivers.Prelude.{ℕ, ◌<◌, ◌≡◌, List, Option, some, length, get_elem?}
use glenda_drivers.Virtio.Queue.{VirtQueue, UsedElem}
use glenda_drivers.Virtio.Chains.Ownership.{Owner}
use glenda_drivers.Virtio.Chains.Pending.{Books}
use glenda_drivers.Virtio.Net.State.{Lane}

-- The device names descriptors of the queue.
abbrev pub NamesHeads : List UsedElem → Type 0
NamesHeads used = (i : ℕ) (e : UsedElem) → get_elem? used i ≡ some e → e.id < 128

pub record LaneInv (q : VirtQueue) (pending : List (Option (ℕ × ℕ))) (fs : List ℕ) (own : ℕ → Owner)
    : Type 0 where
  pub books : Books q pending fs own
  pub slots : length pending ≡ 128
  pub size : q.num ≡ 128
  pub names : NamesHeads q.mem.used

abbrev pub IsSound : VirtQueue → List (Option (ℕ × ℕ)) → Type 0
IsSound q pending = (fs : List ℕ) × (own : ℕ → Owner) × LaneInv q pending fs own

-- The queue of a lane is there, and sound.
abbrev pub LaneSound : Lane → Type 0
LaneSound l = (q : VirtQueue) × (l.queue ≡ some q) × IsSound q l.pending
