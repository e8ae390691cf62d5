-- ===== src/Virtio/Gpu/Startup.antt =====
-- `init`: what it needs of the device and of the memory, and how it ends.
use glenda_drivers.Prelude.{
  ℕ, ◌+◌, ◌%◌, ◌^◌, ◌≤◌, ◌≡◌, refl, sym, ap, ◌∙◌, Bool, true, false, not, ◌==◌, bit_and, some,
  arith, length, get_or, range_from, done,
}
use glenda_drivers.Prelude.Handlers.{ok, err}
use glenda_drivers.Glenda.{not_supported}
use glenda_drivers.Mmio.{Bus}
use glenda_drivers.Virtio.Consts.{status_features_ok, status_driver_ok}
use glenda_drivers.Virtio.Queue
use glenda_drivers.Virtio.Queue.{VirtQueue, QueueMemory}
use glenda_drivers.Virtio.Queue.Setup.{new_lem}
use glenda_drivers.Virtio.Transport
use glenda_drivers.Virtio.Gpu.Protocol.{
  GpuDisplayInfo, header_of, cmd_code, get_display_info, resp_ok_display_info, default_display_mode,
}
use glenda_drivers.Virtio.Gpu.State.{VirtIoGpu, GpuCommand, display_cmd, all_modes, cleared, Work}
use glenda_drivers.Virtio.Gpu.Driver.{
  negotiated, resolution_if, add_queue, attach_queues, detect, init,
}
use glenda_drivers.Virtio.Gpu.Exchange.{IsReady}
use glenda_drivers.Virtio.Gpu.Answering.{Ready, answered, send_cmd_lem}
use glenda_drivers.Virtio.Gpu.Scripts.{Honest, asked}

-- Memory for a queue of 16 entries, with nothing in its used ring.
pub record Room (mem : QueueMemory) : Type 0 where
  pub descs : length mem.descs ≡ 16
  pub used : 16 ≤ length mem.used
  pub used_idx : mem.used_idx ≡ 0

new_queue-IsReady :
    (index pa : ℕ) (mem : QueueMemory)
    → Room mem
    → (q : VirtQueue) × (Queue.new index 16 pa mem ≡ done q) × (q.num ≡ 16) × IsReady q
new_queue-IsReady index pa mem room =
    let (q, e, free, num, last, used, used_idx) =
      new_lem index 16 pa mem (omega arith) (omega arith) room.descs in
    (
      q,
      e,
      num,
      record {
        head = 0;
        resp = 1;
        rest = range_from 2 14;
        taken = 0;
        free = free;
        ring = record {
          positive = omega (arith, num);
          divides = rw num refl;
          taken = last;
          put = used_idx ∙ room.used_idx;
          room = omega arith;
          fits = omega (arith, num);
          slots = rw (num, used) room.used;
          stored = tt;
        };
      },
    )

-- The size of the first mode, or 1280 by 720 where the device does not tell.
abbrev pub screen_if : Bool → GpuDisplayInfo → ℕ × ℕ
screen_if true info =
    let mode = get_or info.pmodes 0 default_display_mode in (mode.r.width, mode.r.height)
screen_if false info = (1280, 720)

abbrev pub screen : GpuDisplayInfo → ℕ × ℕ
screen info = screen_if (info.hdr.ty == cmd_code resp_ok_display_info) info

module _ {S D : Type 0} (bus : Bus D) (base : ℕ) (work : Work D) (fuel : ℕ) where
  add_queue_made :
      (index pa : ℕ) (mem : QueueMemory) (put : VirtQueue → VirtIoGpu S D → VirtIoGpu S D)
      (s : VirtIoGpu S D) (q : VirtQueue)
      → Queue.new index 16 pa mem ≡ done q
      → add_queue bus base work fuel index pa mem put s
        ≡ done (ok tt, put q (record s { device = Transport.setup_queue bus base q s.device }))
  unfolding add_queue
  add_queue_made index pa mem put s q e = rw (e, add_queue) refl

  -- The state with both queues, before the resolution is asked for.
  abbrev started : VirtQueue → VirtQueue → VirtIoGpu S D → VirtIoGpu S D
  started q0 q1 s = record s {
    control_vq = some q0;
    cursor_vq = some q1;
    device =
        Transport.add_status bus base status_driver_ok
          (Transport.setup_queue bus base q1 (Transport.setup_queue bus base q0 s.device));
  }

  attach_queues_made :
      (mem0 mem1 : QueueMemory) (s : VirtIoGpu S D) (q0 q1 : VirtQueue)
      → Queue.new 0 16 s.cmd_buf_pa mem0 ≡ done q0
      → Queue.new 1 16 ((s.cmd_buf_pa + 4096) % 2 ^ 64) mem1 ≡ done q1
      → attach_queues bus base work fuel mem0 mem1 s ≡ done (ok tt, started q0 q1 s)
  unfolding attach_queues
  attach_queues_made mem0 mem1 s q0 q1 e0 e1 =
      let s1 : VirtIoGpu S D = record s {
        control_vq = some q0;
        device = Transport.setup_queue bus base q0 s.device;
      } in
      rw
        (
          add_queue_made 0 s.cmd_buf_pa mem0 (λ q v. record v { control_vq = some q }) s q0 e0,
          add_queue_made 1 ((s.cmd_buf_pa + 4096) % 2 ^ 64) mem1
              (λ q v. record v { cursor_vq = some q }) s1 q1 e1,
        )
        refl

  -- A device that does not keep FEATURES_OK is not used: `init` fails, and the driver has no queue.
  pub init_refuses :
      (mem0 mem1 : QueueMemory) (s : VirtIoGpu S D)
      → not (bit_and (negotiated bus base work fuel s).0 status_features_ok == 0) ≡ false
      → init bus base work fuel mem0 mem1 s
        ≡ done (err not_supported, (negotiated bus base work fuel s).1)
  unfolding init
  init_refuses mem0 mem1 s refused = rw refused refl

  module _ (answer : GpuCommand → D → GpuDisplayInfo × D) (honest : Honest work fuel answer) where
    resolution-Ready :
        (b : Bool) (s : VirtIoGpu S D)
        → Ready bus base work fuel s
        → Ready bus base work fuel (resolution_if b s.response s)
          × (((resolution_if b s.response s).width, (resolution_if b s.response s).height)
              ≡ screen_if b s.response)
          × ((resolution_if b s.response s).response ≡ s.response)
    resolution-Ready true s v =
        (record { queue = v.queue; there = v.there; sized = v.sized; ready = v.ready }, refl, refl)
    resolution-Ready false s v =
        (record { queue = v.queue; there = v.there; sized = v.sized; ready = v.ready }, refl, refl)

    detect_readies :
        (s : VirtIoGpu S D)
        → Ready bus base work fuel s
        → (s' : VirtIoGpu S D) × (detect bus base work fuel s ≡ done (ok tt, s'))
          × Ready bus base work fuel s'
          × ((s'.width, s'.height) ≡ screen s'.response)
    unfolding detect
    detect_readies s v =
        let cmd = display_cmd (header_of (cmd_code get_display_info)) in
        let a = asked bus base answer cmd s.device in
        let (q, e, r) = send_cmd_lem bus base work fuel cmd all_modes s a v (λ mem.
          honest.serves mem cmd (cleared all_modes s.response)
            (Transport.notify bus base 0 s.device)) in
        let s1 = answered bus base work fuel cmd a q s in
        let shown = a.0.hdr.ty == cmd_code resp_ok_display_info in
        let (r', wide, same) = resolution-Ready shown s1 r in
        (resolution_if shown a.0 s1, rw e refl, r', wide ∙ ap screen (sym same))

    pub init_readies :
        (mem0 mem1 : QueueMemory) (s : VirtIoGpu S D)
        → Room mem0
        → Room mem1
        → not (bit_and (negotiated bus base work fuel s).0 status_features_ok == 0) ≡ true
        → (s' : VirtIoGpu S D) × (init bus base work fuel mem0 mem1 s ≡ done (ok tt, s'))
          × Ready bus base work fuel s'
          × ((s'.width, s'.height) ≡ screen s'.response)
    unfolding init
    init_readies mem0 mem1 s room0 room1 kept =
        let s0 = (negotiated bus base work fuel s).1 in
        let (q0, e0, n0, r0) = new_queue-IsReady 0 s0.cmd_buf_pa mem0 room0 in
        let (q1, e1, n1, r1) = new_queue-IsReady 1 ((s0.cmd_buf_pa + 4096) % 2 ^ 64) mem1 room1 in
        let (s', e, r, wide) =
          detect_readies (started q0 q1 s0)
            (record { queue = q0; there = refl; sized = n0; ready = r0 }) in
        (s', rw (kept, attach_queues_made mem0 mem1 s0 q0 q1 e0 e1, e) refl, r, wide)
