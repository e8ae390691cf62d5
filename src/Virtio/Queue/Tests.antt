-- ===== src/Virtio/Queue/Tests.antt =====
-- Runs of the queue at concrete inputs.
use glenda_drivers.Prelude.{
  ℕ, ◌+◌, ◌%◌, ◌≤◌, ◌≡◌, ◌≢◌, refl, [], ◌∷◌, some, arith, done, replicate, range_from,
}
use glenda_drivers.Virtio.Queue.{
  QueueMemory, VirtQueue, queue_size_in_bytes, avail_offset, used_offset, new, alloc_desc,
  free_desc, submit, pop,
}
use glenda_drivers.Virtio.Queue.FreeList.{
  FreeList, desc_at, no_desc, alloc_desc_pops, free_desc_pushes,
}
use glenda_drivers.Virtio.Queue.Setup.{new_lem}
use glenda_drivers.Virtio.Queue.Layout.{regions_apart, event_word_outside}
use glenda_drivers.Virtio.Queue.Rings.{
  UsedRing, AvailRing, device_puts, pop-some, device_puts-UsedRing, submit-AvailRing,
}

abbrev blank : QueueMemory
blank = record {
  descs = replicate 4 no_desc;
  avail_idx = 0;
  avail = replicate 4 0;
  used_idx = 0;
  used = replicate 4 (record { id = 0; len = 0 });
}

-- Entry 0 is in use; 2, 3 and 1 are free.
abbrev queue4 : VirtQueue
queue4 = record {
  index = 0;
  num = 4;
  paddr = 0x1000;
  last_used_idx = 0xffff;
  free_head = 2;
  num_free = 3;
  mem = record {
    descs =
        record { addr = 0x2000; len = 16; flags = 0; next = 0 }
        ∷ record { addr = 0; len = 0; flags = 1; next = 0 }
        ∷ record { addr = 0; len = 0; flags = 1; next = 3 }
        ∷ record { addr = 0; len = 0; flags = 1; next = 1 }
        ∷ [];
    avail_idx = 0xffff;
    avail = 0 ∷ 0 ∷ 2 ∷ 7 ∷ [];
    used_idx = 0;
    used =
        record { id = 0; len = 0 }
        ∷ record { id = 0; len = 0 }
        ∷ record { id = 0; len = 0 }
        ∷ record { id = 5; len = 512 }
        ∷ [];
  };
}

queue4-FreeList : FreeList queue4 (2 ∷ 3 ∷ 1 ∷ [])
queue4-FreeList = record {
  sized = refl;
  fits = omega arith;
  linked = (refl, omega arith, (refl, omega arith, (refl, omega arith, tt)));
  counted = refl;
  distinct = (((λ e. omega arith), ((λ e. omega arith), tt)), (((λ e. omega arith), tt), (tt, tt)));
}

alloc_desc_pops_example :
    (q' : VirtQueue) × (alloc_desc queue4 ≡ done (some 2, q'))
    × FreeList q' (3 ∷ 1 ∷ [])
    × (q'.mem ≡ queue4.mem)
alloc_desc_pops_example = alloc_desc_pops queue4 (2 ∷ 3 ∷ 1 ∷ []) queue4-FreeList

free_desc_pushes_example :
    (q' : VirtQueue) × (free_desc queue4 0 ≡ done q')
    × FreeList q' (0 ∷ 2 ∷ 3 ∷ 1 ∷ [])
    × ((j : ℕ) → 0 ≢ j → desc_at q'.mem.descs j ≡ desc_at queue4.mem.descs j)
free_desc_pushes_example =
    free_desc_pushes queue4 0 (2 ∷ 3 ∷ 1 ∷ []) queue4-FreeList (omega arith)
      ((λ e. omega arith), ((λ e. omega arith), ((λ e. omega arith), tt)))

new_lem_example :
    (q : VirtQueue) × (new 0 4 0x1000 blank ≡ done q)
    × FreeList q (range_from 0 4)
    × (q.num ≡ 4)
    × (q.last_used_idx ≡ 0)
    × (q.mem.used ≡ blank.used)
    × (q.mem.used_idx ≡ 0)
new_lem_example = new_lem 0 4 0x1000 blank (omega arith) (omega arith) refl

regions_apart_example :
    (avail_offset 128 ≡ 2048)
    × (avail_offset 128 + 6 + 256 ≤ used_offset 128)
    × (used_offset 128 % 4 ≡ 0)
    × (used_offset 128 + 4 + 1024 ≤ queue_size_in_bytes 128)
regions_apart_example = regions_apart 128 (omega arith)

event_word_outside_example : used_offset 128 + 6 + 1024 ≡ queue_size_in_bytes 128 + 2
event_word_outside_example = event_word_outside 64 (omega arith)

queue4-UsedRing : UsedRing queue4 0xffff (record { id = 5; len = 512 } ∷ [])
queue4-UsedRing = record {
  positive = omega arith;
  divides = refl;
  taken = refl;
  put = refl;
  room = omega arith;
  fits = omega arith;
  slots = omega arith;
  stored = (refl, tt);
}

-- The cursor wraps from 0xffff to 0.
pop-some_example :
    (q' : VirtQueue) × (pop queue4 ≡ done (some (5, 512), q')) × UsedRing q' 0x10000 []
pop-some_example = pop-some queue4 0xffff (record { id = 5; len = 512 }) [] queue4-UsedRing

device_puts-UsedRing_example :
    UsedRing
      (device_puts queue4 (record { id = 2; len = 1 }))
      0xffff
      (record { id = 5; len = 512 } ∷ record { id = 2; len = 1 } ∷ [])
device_puts-UsedRing_example =
    device_puts-UsedRing queue4 0xffff (record { id = 5; len = 512 } ∷ [])
      (record { id = 2; len = 1 }) queue4-UsedRing (omega arith)

queue4-AvailRing : AvailRing queue4 0xfffe (2 ∷ [])
queue4-AvailRing = record {
  positive = omega arith;
  divides = refl;
  put = refl;
  room = omega arith;
  slots = omega arith;
  stored = (refl, tt);
}

submit-AvailRing_example :
    (q' : VirtQueue) × (submit queue4 0 ≡ done q')
    × AvailRing q' 0xfffe (2 ∷ 0 ∷ [])
    × (q'.mem.descs ≡ queue4.mem.descs)
    × (q'.mem.used ≡ queue4.mem.used)
submit-AvailRing_example = submit-AvailRing queue4 0xfffe (2 ∷ []) 0 queue4-AvailRing (omega arith)
