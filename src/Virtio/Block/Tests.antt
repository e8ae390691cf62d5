-- ===== src/Virtio/Block/Tests.antt =====
-- Runs of the block driver at concrete inputs.
use glenda_drivers.Prelude.{
  ℕ, ◌+◌, ◌≡◌, ◌≢◌, refl, sym, ap, subst, ◌∙◌, done-injective, List, [], ◌∷◌, none, some, false,
  arith, done, length, replicate,
}
use glenda_drivers.Prelude.Handlers.{Result, ok, err}
use glenda_drivers.Glenda.{Error, Sqe, Opcodes, RingServer, out_of_memory}
use glenda_drivers.Mmio.{Bus}
use glenda_drivers.Virtio.Queue.{VirtQueue, QueueMemory}
use glenda_drivers.Virtio.Queue.FreeList.{FreeList, no_desc}
use glenda_drivers.Virtio.Queue.Setup.{new_lem}
use glenda_drivers.Virtio.Transport
use glenda_drivers.Virtio.Block.State.{VirtIoBlk, new, set_ring_server}
use glenda_drivers.Virtio.Block.Request.{queue_request, submit_virtio_request}
use glenda_drivers.Virtio.Block.Completion.{backlog, pop_completions}
use glenda_drivers.Virtio.Block.Driver.{
  init, started, read_blk_size, negotiated, handle_irq, handle_ring,
}
use glenda_drivers.Virtio.Block.Queueing.{queue_request_short}
use glenda_drivers.Virtio.Block.Invariant.{IsSound}
use glenda_drivers.Virtio.Block.Soundness.{submit_virtio_request_sound}
use glenda_drivers.Virtio.Block.Draining.{pop_completions_sound}
use glenda_drivers.Virtio.Block.Service.{Returns}
use glenda_drivers.Virtio.Block.Startup.{
  QueueRoom, Reach, start, later, connect, device, init_sound, reachable-Returns,
}

-- A device whose every register reads 1, with 2048 sectors.
abbrev plain_bus : Bus ℕ
plain_bus = record {
  read8 = λ a d. (0, d);
  write8 = λ a v d. d;
  read32 = λ a d. (1, d);
  write32 = λ a v d. d + 1;
  read64 = λ a d. (2048, d);
}

-- A ring server that holds its requests as a list.
abbrev list_server : RingServer (List Sqe)
list_server = record {
  next_request = λ s. elim s [ [] ↦ (none, []) | sqe ∷ rest ↦ (some sqe, rest) ];
  complete = λ s tag res. (ok tt, s);
}

abbrev opcodes : Opcodes
opcodes = record { op_read = 22; op_write = 23; op_sync = 3; op_fb_flush = 40 }

abbrev blank : QueueMemory
blank = record {
  descs = replicate 128 no_desc;
  avail_idx = 0;
  avail = replicate 128 0;
  used_idx = 0;
  used = replicate 128 (record { id = 0; len = 0 });
}

abbrev read_one : Sqe
read_one = record { opcode = 22; off = 5; addr = 0x9000; len = 512; user_data = 77 }

blank-QueueRoom : QueueRoom blank
blank-QueueRoom = record { descs = refl; used = omega arith; used_idx = omega arith }

abbrev powered_on : VirtIoBlk (List Sqe) ℕ
powered_on = new [] (replicate 64 0) 0

powered_on_blk_size : (negotiated plain_bus 0x1000 powered_on).blk_size ≡ 512
unfolding read_blk_size Transport.get_device_features new
powered_on_blk_size = refl

has_blocks : (negotiated plain_bus 0x1000 powered_on).blk_size ≢ 0
has_blocks e = omega (arith, powered_on_blk_size)

-- The queue that `init` makes.
abbrev fresh_queue : VirtQueue
fresh_queue = (new_lem 0 128 0xa000 blank (omega arith) (omega arith) refl).0

abbrev running : VirtIoBlk (List Sqe) ℕ
running =
    started plain_bus 0x1000 0x7000 0x8000 fresh_queue (negotiated plain_bus 0x1000 powered_on)

runs : init plain_bus 0x1000 0x7000 0x8000 blank powered_on ≡ done running
unfolding init
runs = rw ((new_lem 0 128 0xa000 blank (omega arith) (omega arith) refl).1, init) refl

abbrev init_run :
    (s : VirtIoBlk (List Sqe) ℕ) × (init plain_bus 0x1000 0x7000 0x8000 blank powered_on ≡ done s)
    × IsSound s
init_run =
    init_sound plain_bus 0x1000 0x7000 0x8000 blank [] (replicate 64 0) 0 blank-QueueRoom refl
      has_blocks

running-IsSound : IsSound running
running-IsSound = subst IsSound (done-injective (sym init_run.1 ∙ runs)) init_run.2

-- The client of the ring asks for one block.
abbrev asked : VirtIoBlk (List Sqe) ℕ
asked = set_ring_server (read_one ∷ []) running

-- The device puts an entry that no request waits for into the used ring.
abbrev answered : VirtIoBlk (List Sqe) ℕ
answered = record asked {
  queue = some (record fresh_queue {
    mem = record (fresh_queue.mem) {
      used = record { id = 9; len = 0 } ∷ replicate 127 (record { id = 0; len = 0 });
      used_idx = 1;
    };
  });
  status = replicate 64 1;
  device = 3;
}

answered-Reach : Reach list_server plain_bus 0x1000 opcodes running answered
unfolding set_ring_server new
answered-Reach = later (later start (connect (read_one ∷ []))) (
    device fresh_queue (record { id = 9; len = 0 } ∷ replicate 127 (record { id = 0; len = 0 })) 1
      (replicate 64 1) 3 refl
      (ap length (sym (new_lem 0 128 0xa000 blank (omega arith) (omega arith) refl).5))
      (omega arith) refl)

reachable-Returns_example :
    Returns list_server plain_bus 0x1000 opcodes
      (handle_irq list_server plain_bus 0x1000 opcodes)
      answered
    × Returns list_server plain_bus 0x1000 opcodes
        (handle_ring list_server plain_bus 0x1000 opcodes)
        answered
reachable-Returns_example =
    reachable-Returns list_server plain_bus 0x1000 opcodes 0x7000 0x8000 blank [] (replicate 64 0) 0
      blank-QueueRoom refl has_blocks running answered runs answered-Reach

submit_virtio_request_sound_example :
    (r : Result Error (Unit {0})) × (s' : VirtIoBlk (List Sqe) ℕ) × (submit_virtio_request plain_bus
        0x1000 opcodes read_one running
      ≡ done (r, s'))
    × IsSound s'
submit_virtio_request_sound_example =
    submit_virtio_request_sound plain_bus 0x1000 opcodes running read_one running-IsSound

pop_completions_sound_example :
    (s' : VirtIoBlk (List Sqe) ℕ) × (pop_completions list_server running ≡ done s')
    × IsSound s'
    × (backlog s'.queue ≡ 0)
pop_completions_sound_example = pop_completions_sound list_server running running-IsSound

-- Two descriptors are free.
abbrev queue2 : VirtQueue
queue2 = record {
  index = 0;
  num = 2;
  paddr = 0x1000;
  last_used_idx = 0;
  free_head = 1;
  num_free = 2;
  mem = record {
    descs =
        record { addr = 0; len = 0; flags = 1; next = 7 }
        ∷ record { addr = 0; len = 0; flags = 1; next = 0 }
        ∷ [];
    avail_idx = 0;
    avail = 0 ∷ 0 ∷ [];
    used_idx = 0;
    used = record { id = 0; len = 0 } ∷ record { id = 0; len = 0 } ∷ [];
  };
}

queue2-FreeList : FreeList queue2 (1 ∷ 0 ∷ [])
queue2-FreeList = record {
  sized = refl;
  fits = omega arith;
  linked = (refl, omega arith, (refl, omega arith, tt));
  counted = refl;
  distinct = (((λ e. omega arith), tt), (tt, tt));
}

queue_request_short_example :
    (q' : VirtQueue) × (queue_request 0x8000 0x9000 512 0x8400 false queue2
      ≡ done (err out_of_memory, q'))
    × FreeList q' []
    × (q'.mem ≡ queue2.mem)
    × (q'.num ≡ 2)
    × (q'.last_used_idx ≡ 0)
queue_request_short_example =
    queue_request_short 0x8000 0x9000 512 0x8400 false queue2 (1 ∷ 0 ∷ []) queue2-FreeList
      (omega arith)
