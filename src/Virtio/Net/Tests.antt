-- ===== src/Virtio/Net/Tests.antt =====
-- Runs of the network driver at concrete inputs.
use glenda_drivers.Prelude.{
  ℕ, zero, suc, ◌+◌, ◌≡◌, refl, sym, ap, List, [], ◌∷◌, none, some, arith, done, length, replicate,
  range_from, get_elem?-replicate,
}
use glenda_drivers.Prelude.Handlers.{ok, err}
use glenda_drivers.Glenda.{Sqe, Opcodes, RingServer}
use glenda_drivers.Mmio.{Bus}
use glenda_drivers.Virtio.Queue.{VirtQueue, QueueMemory, UsedElem}
use glenda_drivers.Virtio.Queue.FreeList.{FreeList, no_desc}
use glenda_drivers.Virtio.Queue.Setup.{new_lem}
use glenda_drivers.Virtio.Transport
use glenda_drivers.Virtio.Transport.{VirtIoError, invalid_header}
use glenda_drivers.Virtio.Block.Startup.{QueueRoom}
use glenda_drivers.Virtio.Net.State.{
  VirtIoNet, VirtIoNetHdr, default_hdr, fresh, set_ring_server, setup_shm,
}
use glenda_drivers.Virtio.Net.Lane.{receive, data_paddr}
use glenda_drivers.Virtio.Net.Lane.Invariant.{NamesHeads}
use glenda_drivers.Virtio.Net.Request.{lane_of, submit}
use glenda_drivers.Virtio.Net.Driver.{init, negotiated, started, handle_irq, handle_ring}
use glenda_drivers.Virtio.Net.Service.{Returns}
use glenda_drivers.Virtio.Net.Startup.{
  init_started, puts, written, Reach, start, later, connect, device, net_reachable-Returns,
}
use glenda_drivers.Virtio.Net.Refusing.{submit_outside_loses}

-- A device whose every register reads 8.
abbrev ready_bus : Bus ℕ
ready_bus = record {
  read8 = λ a d. (0x52, d);
  write8 = λ a v d. d;
  read32 = λ a d. (8, d);
  write32 = λ a v d. d + 1;
  read64 = λ a d. (0, d);
}

-- A ring server that holds its requests as a list.
abbrev list_server : RingServer (List Sqe)
list_server = record {
  next_request = λ s. elim s [ [] ↦ (none, []) | sqe ∷ rest ↦ (some sqe, rest) ];
  complete = λ s tag res. (ok tt, s);
}

abbrev opcodes : Opcodes
opcodes = record { op_read = 22; op_write = 23; op_sync = 3; op_fb_flush = 40 }

abbrev unused : List UsedElem
unused = replicate 128 (record { id = 0; len = 0 })

abbrev blank : QueueMemory
blank = record {
  descs = replicate 128 no_desc;
  avail_idx = 0;
  avail = replicate 128 0;
  used_idx = 0;
  used = unused;
}

blank-QueueRoom : QueueRoom blank
blank-QueueRoom = record { descs = refl; used = omega arith; used_idx = omega arith }

unused-NamesHeads : (n : ℕ) → NamesHeads (replicate n (record { id = 0; len = 0 }))
unused-NamesHeads n i e at =
    omega (
      arith,
      ap (λ (u : UsedElem). u.id) (get_elem?-replicate n (record { id = 0; len = 0 }) i e at),
    )

abbrev no_headers : ℕ → VirtIoNetHdr
no_headers x = default_hdr

abbrev rx_queue : VirtQueue
rx_queue = (new_lem 0 128 0xa000 blank (omega arith) (omega arith) refl).0

abbrev tx_queue : VirtQueue
tx_queue = (new_lem 1 128 0xb000 blank (omega arith) (omega arith) refl).0

abbrev running : VirtIoNet (List Sqe) ℕ
running =
    started ready_bus 0x1000 rx_queue tx_queue
      (negotiated ready_bus 0x1000
        (record (fresh no_headers 0) { dma_vaddr = 0x7000; dma_paddr = 0x8000 })).1

runs : init ready_bus 0x1000 0x7000 0x8000 blank blank (fresh no_headers 0) ≡ done (ok tt, running)
unfolding Transport.get_status Transport.get_device_features
runs =
    init_started ready_bus 0x1000 0x7000 0x8000 blank blank no_headers 0 rx_queue tx_queue refl
      (new_lem 0 128 0xa000 blank (omega arith) (omega arith) refl).1
      (new_lem 1 128 0xb000 blank (omega arith) (omega arith) refl).1

-- A client offers a buffer of 1514 bytes.
abbrev offer_buffer : Sqe
offer_buffer = record { opcode = 22; off = 0; addr = 0x9000; len = 1514; user_data = 77 }

abbrev asked : VirtIoNet (List Sqe) ℕ
asked = set_ring_server (offer_buffer ∷ []) running

-- The device puts an entry of 60 bytes into the used ring of what is received.
abbrev arrived : List UsedElem
arrived = record { id = 5; len = 60 } ∷ replicate 127 (record { id = 0; len = 0 })

arrived-NamesHeads : NamesHeads arrived
arrived-NamesHeads zero e at = ground arith
arrived-NamesHeads (suc i) e at = unused-NamesHeads 127 i e at

length-unused :
    (index paddr : ℕ)
    → length unused
      ≡ length (new_lem index 128 paddr blank (omega arith) (omega arith) refl).0.mem.used
length-unused index paddr =
    ap length (sym (new_lem index 128 paddr blank (omega arith) (omega arith) refl).5)

abbrev received : VirtIoNet (List Sqe) ℕ
received = record asked {
  rx = record (asked.rx) { queue = some (written rx_queue arrived 1) };
  tx = record (asked.tx) { queue = some (written tx_queue unused 0) };
  device = 3;
}

received-Reach : Reach list_server ready_bus 0x1000 opcodes running received
unfolding set_ring_server
received-Reach = later (later start (connect (offer_buffer ∷ []))) (
    device (record (asked.rx) { queue = some (written rx_queue arrived 1) })
      (record (asked.tx) { queue = some (written tx_queue unused 0) }) 3
      (puts rx_queue arrived 1 refl (length-unused 0 0xa000) (omega arith) arrived-NamesHeads)
      (puts tx_queue unused 0 refl (length-unused 1 0xb000) (omega arith) (unused-NamesHeads 128)))

net_reachable-Returns_example :
    Returns list_server ready_bus 0x1000 opcodes
      (handle_irq list_server ready_bus 0x1000 opcodes)
      received
    × Returns list_server ready_bus 0x1000 opcodes
        (handle_ring list_server ready_bus 0x1000 opcodes)
        received
net_reachable-Returns_example =
    net_reachable-Returns list_server ready_bus 0x1000 opcodes 0x7000 0x8000 blank blank no_headers
      0 blank-QueueRoom blank-QueueRoom (unused-NamesHeads 128) (unused-NamesHeads 128) running
      received runs received-Reach

-- A request below the shared memory.
abbrev stray : Sqe
stray = record { opcode = 22; off = 0; addr = 0x100; len = 1514; user_data = 78 }

abbrev guarded : VirtIoNet (List Sqe) ℕ
guarded = setup_shm 0x9000 0x20000 4096 running

stray_outside : data_paddr guarded.buffer stray ≡ err invalid_header
unfolding data_paddr setup_shm
stray_outside = refl

guarded_rx : (lane_of receive guarded).queue ≡ some rx_queue
unfolding setup_shm
guarded_rx = refl

submit_outside_loses_example :
    (s' : VirtIoNet (List Sqe) ℕ) × (q' : VirtQueue) × (submit ready_bus 0x1000 receive stray
        guarded
      ≡ done (err invalid_header, s'))
    × ((lane_of receive s').queue ≡ some q')
    × FreeList q' (range_from 2 126)
    × ((lane_of receive s').pending ≡ (lane_of receive guarded).pending)
    × (s'.buffer ≡ guarded.buffer)
submit_outside_loses_example =
    submit_outside_loses ready_bus 0x1000 stray guarded receive rx_queue 0 1 (range_from 2 126)
      invalid_header guarded_rx (new_lem 0 128 0xa000 blank (omega arith) (omega arith) refl).2
      stray_outside
