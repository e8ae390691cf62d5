-- ===== src/Services/Tests.antt =====
-- Runs of the services at concrete inputs: client 5 is connected, client 9 is not.
use glenda_drivers.Prelude.{
  ℕ, ◌+◌, ◌≡◌, refl, Option, none, some, List, [], ◌∷◌, ◌++◌, Outcome, done, fault, replicate, take,
  drop, length,
}
use glenda_drivers.Prelude.Handlers.{ok, err}
use glenda_drivers.Glenda.{Error, Sqe, Opcodes, RingServer}
use glenda_drivers.Mmio.{Bus}
use glenda_drivers.Virtio.Net.State.{VirtIoNet, fresh, default_hdr}
use glenda_drivers.Uart.State.{Ns16550a, RingBuffer, no_stats}
use glenda_drivers.Ramdisk.Driver.{new}
use glenda_drivers.Services.Kernel.{
  Utcb, Tag, request, success, failure, Ipc, Kernel, Uring, Protocols,
}
use glenda_drivers.Services.Calls
use glenda_drivers.Services.Run.{run, turn}
use glenda_drivers.Services.Block
use glenda_drivers.Services.Net
use glenda_drivers.Services.Uart
use glenda_drivers.Services.Ramdisk
use glenda_drivers.Services.Probe

-- A bus on which every register reads 1, over a count of the writes.
abbrev plain_bus : Bus ℕ
plain_bus = record {
  read8 = λ a d. (1, d);
  write8 = λ a v d. d + 1;
  read32 = λ a d. (1, d);
  write32 = λ a v d. d + 1;
  read64 = λ a d. (2048, d);
}

-- A ring server that holds its requests as a list.
abbrev list_server : RingServer (List Sqe)
list_server = record {
  next_request = λ s. elim s [ [] ↦ (none, []) | sqe ∷ rest ↦ (some sqe, rest) ];
  complete = λ s tag res. (ok tt, s);
}

abbrev byte_ring : RingBuffer (List ℕ)
byte_ring = record {
  init = λ p n. [];
  push_slice = λ r xs. (length xs, r ++ xs);
  pop_slice = λ r n. (take n r, drop n r);
  len = λ r. length r;
}

abbrev opcodes : Opcodes
opcodes = record { op_read = 22; op_write = 23; op_sync = 3; op_fb_flush = 40 }

abbrev code : Error → ℕ
code e = 7

-- A kernel that counts the slots it gave out.
abbrev kernel : Kernel ℕ
kernel = record {
  alloc_slot = λ k. (ok k, k + 1);
  transfer_self = λ a b k. (ok tt, k);
  alloc_page = λ slot k. (ok slot, k);
  dma_alloc = λ n slot k. (ok (0x9000, slot), k);
  map_page = λ f va n k. (ok tt, k);
  unmap = λ va n k. (ok tt, k);
  get_mmio = λ id slot k. (ok (slot, 0x1000, 0x1000), k);
  get_irq = λ id slot k. (ok slot, k);
  ack_irq = λ irq k. (ok tt, k);
  mint_self = λ a b n k. (ok tt, k);
  set_notification = λ a b k. (ok tt, k);
  register_logic = λ a k. (ok tt, k);
}

abbrev answered : Utcb → Utcb
answered u = record u { tag = success }

abbrev in_first : ℕ → Utcb → Utcb
in_first n u = record u { tag = success; mr = Calls.set_at u.mr 0 n }

abbrev with_cap : ℕ → Utcb → Utcb
with_cap n u = record u { tag = success; cap = some n }

abbrev ipc : Ipc
ipc = record {
  handle_call = λ r u. (elim r [ ok _ ↦ (ok tt, answered u) | err e ↦ (err e, u) ]);
  handle_value_call = λ r u. (elim r [ ok n ↦ (ok tt, in_first n u) | err e ↦ (err e, u) ]);
  handle_cap_call = λ r u. (elim r [ ok n ↦ (ok tt, with_cap n u) | err e ↦ (err e, u) ]);
  handle_notify = λ r u. (err Error.success, u);
  unmatched = Error.not_supported;
}

abbrev uring : Uring (List Sqe)
uring = record { new_server = λ va size sq cq. []; set_client_notify = λ ep s. s }

abbrev protocols : Protocols
protocols = record {
  kernel_proto = 1;
  notify = 10;
  device_proto = 2;
  get_mmio = 11;
  get_irq = 12;
  block_proto = 3;
  get_capacity = 13;
  get_block_size = 14;
  net_proto = 4;
  get_mac = 15;
  uart_proto = 5;
  write = 16;
  read = 17;
  set_baud_rate = 18;
  fb_proto = 6;
  get_info = 19;
  flush = 20;
  set_scanout = 21;
  setup_buffer = 22;
  setup_ring = 23;
  notify_cq = 1;
  notify_sq = 2;
}

abbrev message : ℕ → ℕ → ℕ → Utcb
message badge proto label = record {
  badge = badge;
  proto = proto;
  label = label;
  mr = λ i. 4;
  size = 0;
  buffer = [];
  tag = request;
  cap = none;
  recv_window = 30;
}

-- Client 5 sets up a ring, client 9 asks for the same, the kernel notifies, and client 9 tries again.
abbrev messages : ℕ → List Utcb
messages proto = message 5 proto 23 ∷ message 9 proto 23 ∷ message 4 1 10 ∷ message 9 proto 22 ∷ []

abbrev shown : List (Option Utcb) → List (Option Tag)
shown [] = []
shown (none ∷ us) = none ∷ shown us
shown (some u ∷ us) = some u.tag ∷ shown us

abbrev tags : {V : Type 0} → Outcome (List (Option Utcb) × V × ℕ) → List (Option Tag)
tags fault = []
tags (done (us, v, k)) = shown us

abbrev blk_layout : Block.Layout
blk_layout = record { ring_va = 0x5000; pgsize = 4096; irq_badge = 4 }

abbrev blk_service : Block.BlockService (List Sqe) ℕ
blk_service = record { blk = none; irq = none; recv = 8; connected_client = some 5 }

abbrev net_layout : Net.Layout
net_layout = record { ring_va = 0x5000; shm_va = 0x6000; pgsize = 4096 }

abbrev net_service : Net.NetService (List Sqe) ℕ
net_service = record {
  net = some (fresh (λ a. default_hdr) 0);
  recv = 8;
  connected_client = some 5;
}

abbrev uart_layout : Uart.Layout
uart_layout = record {
  ring_slot = 13;
  shm_slot = 14;
  ring_va = 0x5000;
  irq_cap = 11;
  irq_badge = 4;
  ipc_buffer_size = 8;
}

abbrev uart : Ns16550a (List ℕ) (List Sqe) ℕ
uart = record {
  base = 0;
  ring = none;
  shm = none;
  rx_ring = none;
  tx_ring = none;
  rx_buffer = record { head = 0; items = [] };
  pending_read = none;
  stats = no_stats;
  device = 0;
}

abbrev uart_service : Uart.UartService (List ℕ) (List Sqe) ℕ
uart_service = record { uart = some uart; recv = 8; connected_client = some 5 }

abbrev disk_layout : Ramdisk.Layout
disk_layout = record {
  mmio_slot = 10;
  buffer_slot = 11;
  notify_slot = 12;
  ring_slot = 13;
  endpoint_slot = 14;
  mmio_va = 0x4000;
  buffer_va = 0x6000;
  ring_va = 0x5000;
  pgsize = 4096;
}

abbrev disk_service : Ramdisk.RamdiskService (List Sqe)
disk_service = record {
  ramdisk = some (new (replicate 16 0) (λ a. a));
  recv = 8;
  connected_client = some 5;
}

-- The ring is made, the stranger is refused, a notification gets no answer, the stranger is refused again.
net_tags :
    tags (
      run code
        (Net.dispatch list_server plain_bus 0 opcodes kernel ipc uring protocols net_layout)
        (messages 4)
        net_service
        0)
    ≡ some success ∷ some failure ∷ none ∷ some failure ∷ []
unfolding run turn Calls.guarded Net.arms Calls.read_utcb Calls.wrap Net.on_setup_ring Calls.get_mr
    Calls.read_service Calls.ask Net.setup_ring Calls.change Net.on_notify Calls.drive
    glenda_drivers.Virtio.Net.Driver.handle_ring glenda_drivers.Virtio.Net.State.set_ring_server
    glenda_drivers.Virtio.Net.Driver.serve_all glenda_drivers.Virtio.Net.Driver.collect
net_tags = refl

identify_gpu : Probe.identify_device 16 ≡ some Probe.virtio_gpu
unfolding Probe.identify_device
identify_gpu = refl
