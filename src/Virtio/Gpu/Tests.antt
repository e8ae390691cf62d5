-- ===== src/Virtio/Gpu/Tests.antt =====
-- Runs of the GPU driver at concrete inputs, with a device that answers every command at its first look.
use glenda_drivers.Prelude.{
  ℕ, ◌+◌, ◌*◌, ◌%◌, ◌^◌, ◌≡◌, ◌++◌, refl, List, [], ◌∷◌, none, some, arith, done, replicate, set,
}
use glenda_drivers.Prelude.Handlers.{ok, err}
use glenda_drivers.Prelude.Int.{ℤ}
use glenda_drivers.Glenda.{io_error, Sqe, Opcodes, RingServer, RingLaws}
use glenda_drivers.Mmio.{Bus}
use glenda_drivers.Virtio.Queue.{QueueMemory, UsedElem}
use glenda_drivers.Virtio.Queue.FreeList.{no_desc}
use glenda_drivers.Virtio.Transport
use glenda_drivers.Virtio.Gpu.Protocol.{
  GpuDisplayInfo, header_of, cmd_code, resp_ok_no_data, resp_ok_display_info, default_display_info,
  GpuDisplayMode,
}
use glenda_drivers.Virtio.Gpu.State.{VirtIoGpu, GpuCommand, display_cmd, Work, new, set_ring_server}
use glenda_drivers.Virtio.Gpu.Driver.{rect_of, init}
use glenda_drivers.Virtio.Gpu.Exchange.{puts}
use glenda_drivers.Virtio.Gpu.Answering.{Ready}
use glenda_drivers.Virtio.Gpu.Scripts.{Honest}
use glenda_drivers.Virtio.Gpu.Startup.{Room, screen, init_readies}

-- A device whose registers read 8, which is FEATURES_OK, over a count of the writes.
abbrev plain_bus : Bus ℕ
plain_bus = record {
  read8 = λ a d. (8, d);
  write8 = λ a v d. d + 1;
  read32 = λ a d. (8, d);
  write32 = λ a v d. d + 1;
  read64 = λ a d. (8, d);
}

abbrev mode : GpuDisplayMode
mode = record { r = rect_of 0 0 800 600; enabled = 1; flags = 0 }

abbrev answer : GpuCommand → ℕ → GpuDisplayInfo × ℕ
answer (display_cmd _) d =
    (record { hdr = header_of (cmd_code resp_ok_display_info); pmodes = mode ∷ [] }, d)
answer _ d = (record { hdr = header_of (cmd_code resp_ok_no_data); pmodes = [] }, d)

abbrev entry : UsedElem
entry = record { id = 0; len = 24 }

abbrev work : Work ℕ
work mem cmd resp d = record {
  used_idx = (mem.used_idx + 1) % 2 ^ 16;
  used = set mem.used (mem.used_idx % 16) entry;
  response = (answer cmd d).0;
  device = (answer cmd d).1;
}

work-Honest : Honest work 1 answer
work-Honest = record { serves = λ mem cmd resp d. puts 0 resp d entry refl }

abbrev blank : QueueMemory
blank = record {
  descs = replicate 16 no_desc;
  avail_idx = 0;
  avail = replicate 16 0;
  used_idx = 0;
  used = replicate 16 (record { id = 0; len = 0 });
}

blank-Room : Room blank
blank-Room = record { descs = refl; used = omega arith; used_idx = refl }

abbrev powered_on : VirtIoGpu (List Sqe × List (ℕ × ℤ)) ℕ
powered_on = new 0x8000 (display_cmd (header_of 0)) default_display_info 0

-- A ring server that holds its requests and its answers as lists; it has two requests, one of them unknown.
abbrev list_server : RingServer (List Sqe × List (ℕ × ℤ))
list_server = record {
  next_request = λ s. elim s.0 [ [] ↦ (none, ([], s.1)) | sqe ∷ rest ↦ (some sqe, (rest, s.1)) ];
  complete = λ s tag res. (ok tt, (s.0, s.1 ++ (tag, res) ∷ []));
}

-- One that takes no answer.
abbrev full_server : RingServer (List Sqe × List (ℕ × ℤ))
full_server = record {
  next_request = λ s. elim s.0 [ [] ↦ (none, ([], s.1)) | sqe ∷ rest ↦ (some sqe, (rest, s.1)) ];
  complete = λ s tag res. (err io_error, s);
}

list_server-RingLaws : RingLaws list_server
list_server-RingLaws = record {
  requests = λ s. s.0;
  answers = λ s. s.1;
  next_none = λ s h. rw h refl;
  next_some = λ s r rs h. rw h (refl, refl, refl);
  complete_requests = λ s tag res. refl;
  complete_answers = λ s tag res. refl;
}

abbrev opcodes : Opcodes
opcodes = record { op_read = 22; op_write = 23; op_sync = 3; op_fb_flush = 40 }

abbrev flush_request : Sqe
flush_request = record {
  opcode = 40;
  off = 2 ^ 32 + 2;
  addr = 3 * 2 ^ 32 + 4;
  len = 0;
  user_data = 7;
}

abbrev other_request : Sqe
other_request = record { opcode = 22; off = 0; addr = 0; len = 0; user_data = 8 }

running :
    (s' : VirtIoGpu (List Sqe × List (ℕ × ℤ)) ℕ) × (init plain_bus 0 work 1 blank blank powered_on
      ≡ done (ok tt, s'))
    × Ready plain_bus 0 work 1 s'
    × ((s'.width, s'.height) ≡ screen s'.response)
unfolding Transport.get_status
running =
    init_readies plain_bus 0 work 1 answer work-Honest blank blank powered_on blank-Room blank-Room
      refl

-- The driver after `init`, and with a ring of the two requests.
abbrev up : VirtIoGpu (List Sqe × List (ℕ × ℤ)) ℕ
up = running.0

abbrev ring : List Sqe × List (ℕ × ℤ)
ring = (flush_request ∷ other_request ∷ [], [])

abbrev connected : VirtIoGpu (List Sqe × List (ℕ × ℤ)) ℕ
connected = set_ring_server ring up

abbrev unanswered : List Sqe × List (ℕ × ℤ)
unanswered = (other_request ∷ [], [])
