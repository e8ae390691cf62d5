-- ===== src/Virtio/Gpu/Command.antt =====
-- `send_cmd` of virtio/gpu/src/gpu.rs: one command to the device, and its response.
use glenda_drivers.Prelude.{
  ℕ, zero, suc, ◌+◌, ◌%◌, ◌^◌, Bool, true, false, Option, none, some, Outcome, done, fault, ◌>>=◌,
}
use glenda_drivers.Prelude.Handlers.{Result, ok, err}
use glenda_drivers.Glenda.{Error, out_of_memory, not_initialized}
use glenda_drivers.Mmio.{Bus}
use glenda_drivers.Virtio.Queue
use glenda_drivers.Virtio.Queue.{
  VirtQueue, Descriptor, desc_f_next, desc_f_write, alloc_desc, free_desc, write_desc, can_pop, pop,
}
use glenda_drivers.Virtio.Transport
use glenda_drivers.Virtio.Gpu.Protocol.{GpuDisplayInfo}
use glenda_drivers.Virtio.Gpu.State.{
  VirtIoGpu, GpuCommand, Expected, size_of, response_size, cleared, Progress, Work,
}

-- The descriptors of the command, at offset 8192, and of the response, at offset 12288, `pa` being the
-- address of the buffer.
abbrev pub cmd_desc : ℕ → GpuCommand → ℕ → Descriptor
cmd_desc pa cmd resp = record {
  addr = (pa + 8192) % 2 ^ 64;
  len = size_of cmd;
  flags = desc_f_next;
  next = resp;
}

abbrev pub resp_desc : ℕ → Expected → Descriptor
resp_desc pa ex = record {
  addr = (pa + 12288) % 2 ^ 64;
  len = response_size ex;
  flags = desc_f_write;
  next = 0;
}

-- The chain of a command, from the descriptors that were taken.
unfoldable pub offer : ℕ → GpuCommand → Expected → ℕ → ℕ → VirtQueue → Outcome VirtQueue
offer pa cmd ex head resp q = do
  q1 ← write_desc q head (cmd_desc pa cmd resp)
  q2 ← write_desc q1 resp (resp_desc pa ex)
  Queue.submit q2 head

-- What follows the wait.
unfoldable pub take_back : ℕ → ℕ → VirtQueue → Outcome VirtQueue
take_back head resp q = do popped ← pop q; q1 ← free_desc popped.1 head; free_desc q1 resp

abbrev pub with_progress : {D : Type 0} → Progress D → VirtQueue → VirtQueue
with_progress p q = record q { mem = record (q.mem) { used_idx = p.used_idx; used = p.used } }

-- The loop ends once there is an entry, and goes on with `again` otherwise.
abbrev pub choose :
    {D : Type 0}
    → Bool
    → (VirtQueue → GpuDisplayInfo → D → Outcome (VirtQueue × GpuDisplayInfo × D))
    → VirtQueue
    → GpuDisplayInfo
    → D
    → Outcome (VirtQueue × GpuDisplayInfo × D)
choose true again q resp d = done (q, resp, d)
choose false again q resp d = again q resp d

module _ {D : Type 0} where
  abbrev pub look :
      (VirtQueue → GpuDisplayInfo → D → Outcome (VirtQueue × GpuDisplayInfo × D))
      → VirtQueue
      → Progress D
      → Outcome (VirtQueue × GpuDisplayInfo × D)
  look again q p =
      choose (can_pop (with_progress p q)) again (with_progress p q) p.response p.device

-- `while !vq.can_pop()`; the fuel counts looks, and the device works before each.
module _ {D : Type 0} (work : Work D) where
  unfoldable pub wait :
      ℕ → GpuCommand → VirtQueue → GpuDisplayInfo → D → Outcome (VirtQueue × GpuDisplayInfo × D)
  wait zero cmd q resp d = fault
  wait (suc fuel) cmd q resp d = look (wait fuel cmd) q (work q.mem cmd resp d)

module _ {S D : Type 0} (bus : Bus D) (base : ℕ) (work : Work D) (fuel : ℕ) where
  -- From the chain on: it is offered, the device is told, and the answer is waited for.
  unfoldable pub exchange :
      GpuCommand
      → Expected
      → ℕ
      → ℕ
      → VirtQueue
      → VirtIoGpu S D
      → Outcome (Result Error GpuDisplayInfo × VirtIoGpu S D)
  exchange cmd ex head resp q s = do
    q1 ← offer s.cmd_buf_pa cmd ex head resp q
    let d = Transport.notify bus base 0 s.device
    answered ← wait work fuel s.command q1 s.response d
    q2 ← take_back head resp answered.0
    done (
      ok answered.1,
      record s { control_vq = some q2; response = answered.1; device = answered.2 },
    )

  -- `send_cmd` from the second descriptor on, from the first on, and from the queue on. `s` holds the command
  -- and the cleared response. A descriptor that was taken is not given back when the second is missing.
  abbrev pub on_second :
      GpuCommand
      → Expected
      → VirtIoGpu S D
      → ℕ
      → Outcome (Option ℕ × VirtQueue)
      → Outcome (Result Error GpuDisplayInfo × VirtIoGpu S D)
  on_second cmd ex s head fault = fault
  on_second cmd ex s head (done (none, q)) =
      done (err out_of_memory, record s { control_vq = some q })
  on_second cmd ex s head (done (some resp, q)) = exchange cmd ex head resp q s

  abbrev pub on_first :
      GpuCommand
      → Expected
      → VirtIoGpu S D
      → Outcome (Option ℕ × VirtQueue)
      → Outcome (Result Error GpuDisplayInfo × VirtIoGpu S D)
  on_first cmd ex s fault = fault
  on_first cmd ex s (done (none, q)) = done (err out_of_memory, record s { control_vq = some q })
  on_first cmd ex s (done (some head, q)) = on_second cmd ex s head (alloc_desc q)

  abbrev pub on_vq :
      GpuCommand
      → Expected
      → VirtIoGpu S D
      → Option VirtQueue
      → Outcome (Result Error GpuDisplayInfo × VirtIoGpu S D)
  on_vq cmd ex s none = done (err not_initialized, s)
  on_vq cmd ex s (some q) =
      on_first cmd ex (record s { command = cmd; response = cleared ex s.response }) (alloc_desc q)

  -- A caller that expects a header takes it from the response.
  unfoldable pub send_cmd :
      GpuCommand → Expected → VirtIoGpu S D → Outcome (Result Error GpuDisplayInfo × VirtIoGpu S D)
  send_cmd cmd ex s = on_vq cmd ex s s.control_vq
