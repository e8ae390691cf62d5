-- ===== src/Virtio/Queue.antt =====
-- virtio/common/src/queue.rs: a split virtqueue over memory that the driver shares with the
-- device. Only the device writes the used ring (`device_puts` in Rings); fences are not modelled.
pub mod FreeList
pub mod Setup
pub mod Layout
pub mod Rings
mod Tests
use glenda_drivers.Prelude.{
  ℕ, zero, suc, ◌+◌, ◌-◌, ◌*◌, ◌%◌, ◌^◌, ◌≡◌, bit_and, Bool, true, false, not, Option, none, some,
  List, [], ◌∷◌, ◌==◌, if◌then◌else◌, length, get_elem?, set, Outcome, done, fault, ◌>>=◌, or_fault,
}

pub record Descriptor : Type 0 where
  pub addr : ℕ
  pub len : ℕ
  pub flags : ℕ
  pub next : ℕ

abbrev pub desc_f_next : ℕ
desc_f_next = 1

abbrev pub desc_f_write : ℕ
desc_f_write = 2

pub record UsedElem : Type 0 where
  pub id : ℕ
  pub len : ℕ

-- What `desc_table`, `avail_ring` and `used_ring` give access to.
pub record QueueMemory : Type 0 where
  pub descs : List Descriptor
  pub avail_idx : ℕ
  pub avail : List ℕ
  pub used_idx : ℕ
  pub used : List UsedElem

pub record VirtQueue : Type 0 where
  pub index : ℕ
  pub num : ℕ
  pub paddr : ℕ
  pub last_used_idx : ℕ
  pub free_head : ℕ
  pub num_free : ℕ
  pub mem : QueueMemory

-- `queue_size_in_bytes`, and the offsets of `avail_ring` and `used_ring` (`& !3` on 64 bits).
unfoldable pub queue_size_in_bytes : ℕ → ℕ
queue_size_in_bytes num = 16 * num + (6 + 2 * num) + (6 + 8 * num)

unfoldable pub avail_offset : ℕ → ℕ
avail_offset num = 16 * num

unfoldable pub used_offset : ℕ → ℕ
used_offset num = bit_and (16 * num + 6 + 2 * num + 3) (2 ^ 64 - 4)

-- A write through the slice of the table, which panics out of range.
abbrev pub set_desc : List Descriptor → ℕ → (Descriptor → Descriptor) → Outcome (List Descriptor)
set_desc ds i f = do d ← or_fault (get_elem? ds i); done (set ds i (f d))

-- The loop of `new` over `i .. num - 1`; the first argument is the number of rounds left.
unfoldable pub link_from : ℕ → ℕ → List Descriptor → Outcome (List Descriptor)
link_from zero i ds = done ds
link_from (suc left) i ds = do
  ds' ← set_desc ds i (λ d. record d { next = i + 1; flags = desc_f_next })
  link_from left (i + 1) ds'

-- `num - 1` on `u16`, wrapped, for `num = 0`.
unfoldable pub new : ℕ → ℕ → ℕ → QueueMemory → Outcome VirtQueue
new index num paddr mem = do
  let last = (num + (2 ^ 16 - 1)) % 2 ^ 16
  linked ← link_from last 0 mem.descs
  descs ← set_desc linked last (λ d. record d { next = 0; flags = 0 })
  done (record {
    index = index;
    num = num;
    paddr = paddr;
    last_used_idx = 0;
    free_head = 0;
    num_free = num;
    mem = record mem { descs = descs };
  })

unfoldable pub alloc_desc : VirtQueue → Outcome (Option ℕ × VirtQueue)
alloc_desc q = if q.num_free == 0 then done (none, q) else (do
  d ← or_fault (get_elem? q.mem.descs q.free_head)
  done (some q.free_head, record q { free_head = d.next; num_free = q.num_free - 1 }))

unfoldable pub free_desc : VirtQueue → ℕ → Outcome VirtQueue
free_desc q id = do
  descs ← set_desc q.mem.descs id (λ d. record d { next = q.free_head; flags = desc_f_next })
  done (record q {
    mem = record (q.mem) { descs = descs };
    free_head = id;
    num_free = (q.num_free + 1) % 2 ^ 16;
  })

-- The source writes through a raw pointer: out of range is a fault here.
unfoldable pub write_desc : VirtQueue → ℕ → Descriptor → Outcome VirtQueue
write_desc q id desc = do
  descs ← set_desc q.mem.descs id (λ d. desc)
  done (record q { mem = record (q.mem) { descs = descs } })

-- `% self.num` panics at 0.
unfoldable pub submit : VirtQueue → ℕ → Outcome VirtQueue
submit q head =
    if q.num == 0
    then fault
    else done (record q {
      mem = record (q.mem) {
        avail = set q.mem.avail (q.mem.avail_idx % q.num) head;
        avail_idx = (q.mem.avail_idx + 1) % 2 ^ 16;
      };
    })

unfoldable pub can_pop : VirtQueue → Bool
can_pop q = not (q.last_used_idx == q.mem.used_idx)

unfoldable pub pop : VirtQueue → Outcome (Option (ℕ × ℕ) × VirtQueue)
unfolding can_pop
pop q = if not (can_pop q) then done (none, q) else if q.num == 0 then fault else (do
  elem ← or_fault (get_elem? q.mem.used (q.last_used_idx % q.num))
  done (some (elem.id, elem.len), record q { last_used_idx = (q.last_used_idx + 1) % 2 ^ 16 }))
