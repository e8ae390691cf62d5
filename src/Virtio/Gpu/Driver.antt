-- ===== src/Virtio/Gpu/Driver.antt =====
-- virtio/gpu/src/gpu.rs: the operations of the GPU driver.
use glenda_drivers.Prelude.{
  ℕ, zero, suc, ◌+◌, ◌*◌, ◌/◌, ◌%◌, ◌^◌, ◌==◌, not, bit_and, Bool, true, false, Option, none, some,
  get_or, Outcome, done, fault,
}
use glenda_drivers.Prelude.Handlers.{
  Result, ok, err, Handler, pure, get, modify, ensure, ◌>>=◌, ◌>>◌,
}
use glenda_drivers.Prelude.Int.{ℤ, pos, negsuc}
use glenda_drivers.Glenda.{Error, not_supported, io_error, Sqe, Opcodes, RingServer}
use glenda_drivers.Mmio.{Bus}
use glenda_drivers.Virtio.Consts.{
  status_acknowledge, status_driver, status_features_ok, status_driver_ok,
}
use glenda_drivers.Virtio.Queue
use glenda_drivers.Virtio.Queue.{VirtQueue, QueueMemory}
use glenda_drivers.Virtio.Transport
use glenda_drivers.Virtio.Gpu.Protocol.{
  header_of, cmd_code, get_display_info, resource_create2d, set_scanout, resource_flush,
  transfer_to_host2d, resource_attach_backing, resp_ok_no_data, resp_ok_display_info, format_code,
  b8g8r8a8_unorm, GpuRect, GpuDisplayInfo, default_display_mode,
}
use glenda_drivers.Virtio.Gpu.State.{
  VirtIoGpu, GpuCommand, display_cmd, create_cmd, attach_cmd, scanout_cmd, transfer_cmd, flush_cmd,
  header_only, all_modes, Work,
}
use glenda_drivers.Virtio.Gpu.Command.{send_cmd}

-- The commands; `r` is the rectangle, and the resource is always 1.
abbrev pub rect_of : ℕ → ℕ → ℕ → ℕ → GpuRect
rect_of x y w h = record { x = x % 2 ^ 32; y = y % 2 ^ 32; width = w % 2 ^ 32; height = h % 2 ^ 32 }

abbrev pub transfer : GpuRect → ℕ → GpuCommand
transfer r offset = transfer_cmd (record {
  hdr = header_of (cmd_code transfer_to_host2d);
  r = r;
  offset = offset;
  resource_id = 1;
  padding = 0;
})

abbrev pub flushing : GpuRect → GpuCommand
flushing r =
    flush_cmd
      (record { hdr = header_of (cmd_code resource_flush); r = r; resource_id = 1; padding = 0 })

abbrev pub create : ℕ → ℕ → GpuCommand
create w h = create_cmd (record {
  hdr = header_of (cmd_code resource_create2d);
  resource_id = 1;
  format = format_code b8g8r8a8_unorm;
  width = w % 2 ^ 32;
  height = h % 2 ^ 32;
})

abbrev pub attach : ℕ → ℕ → ℕ → GpuCommand
attach paddr w h =
    attach_cmd
      (record {
        hdr = header_of (cmd_code resource_attach_backing);
        resource_id = 1;
        nr_entries = 1;
      })
      (record { addr = paddr; length = w * h * 4 % 2 ^ 32; padding = 0 })

abbrev pub scanout : ℕ → ℕ → GpuCommand
scanout w h = scanout_cmd (record {
  hdr = header_of (cmd_code set_scanout);
  r = rect_of 0 0 w h;
  scanout_id = 0;
  resource_id = 1;
})

-- What a client is told of a flush: `if res.is_ok() { 0 } else { -1 }`.
abbrev pub code_of : Result Error (Unit {0}) → ℤ
code_of (ok _) = pos 0
code_of (err _) = negsuc 0

abbrev pub Action : Type 0 → Type 0 → Type 0 → Type 0
Action S D A = Handler (VirtIoGpu S D) Error A

module _ {S D : Type 0} where
  -- The first display mode, or 1280 by 720 where the device does not answer with its modes.
  abbrev pub resolution_if : Bool → GpuDisplayInfo → VirtIoGpu S D → VirtIoGpu S D
  resolution_if true info s =
      let mode = get_or info.pmodes 0 default_display_mode in
      record s { width = mode.r.width; height = mode.r.height }
  resolution_if false info s = record s { width = 1280; height = 720 }

  abbrev pub resolution : GpuDisplayInfo → VirtIoGpu S D → VirtIoGpu S D
  resolution info = resolution_if (info.hdr.ty == cmd_code resp_ok_display_info) info

  abbrev pub on_device : (D → D) → Action S D (Unit {0})
  on_device f = modify (λ s. record s { device = f s.device })

module _ {S D : Type 0} (bus : Bus D) (base : ℕ) (work : Work D) (fuel : ℕ) where
  -- The product and the sum wrap on 64 bits.
  unfoldable pub flush : ℕ → ℕ → ℕ → ℕ → Action S D (Unit {0})
  flush x y w h = do
    s ← get
    transferred ←
        send_cmd bus base work fuel (transfer (rect_of x y w h) ((y * s.width + x) * 4 % 2 ^ 64))
          header_only
    flushed ← send_cmd bus base work fuel (flushing (rect_of x y w h)) header_only
    pure tt

  -- A command whose response must be `RespOkNoData`.
  unfoldable pub require_ok : GpuCommand → Action S D (Unit {0})
  require_ok cmd = do
    resp ← send_cmd bus base work fuel cmd header_only
    ensure (resp.hdr.ty == cmd_code resp_ok_no_data) io_error

  unfoldable pub set_scanout_to : ℕ → Action S D (Unit {0})
  set_scanout_to paddr = do
    s ← get
    require_ok (create s.width s.height)
    require_ok (attach paddr s.width s.height)
    require_ok (scanout s.width s.height)
    transferred ←
        send_cmd bus base work fuel (transfer (rect_of 0 0 s.width s.height) 0) header_only
    flushed ← send_cmd bus base work fuel (flushing (rect_of 0 0 s.width s.height)) header_only
    pure tt

  -- A queue of 16 entries at `pa`, whose memory is `mem`.
  unfoldable pub add_queue :
      ℕ → ℕ → QueueMemory → (VirtQueue → VirtIoGpu S D → VirtIoGpu S D) → Action S D (Unit {0})
  add_queue index pa mem put s = elim (Queue.new index 16 pa mem) [
    | fault ↦ fault
    | done q ↦ done (ok tt, put q (record s { device = Transport.setup_queue bus base q s.device }))
  ]

  -- The features: `VIRTIO_F_VERSION_1` alone is accepted; the result is the status afterwards.
  abbrev pub negotiated : VirtIoGpu S D → ℕ × VirtIoGpu S D
  negotiated s =
      let d0 = Transport.set_status bus base 0 s.device in
      let d1 = Transport.add_status bus base status_acknowledge d0 in
      let d2 = Transport.add_status bus base status_driver d1 in
      let (features, d3) = Transport.get_device_features bus base d2 in
      let d4 = Transport.set_driver_features bus base (bit_and features (2 ^ 32)) d3 in
      let d5 = Transport.add_status bus base status_features_ok d4 in
      let (status, d6) = Transport.get_status bus base d5 in (status, record s { device = d6 })

  abbrev pub negotiate : Action S D ℕ
  negotiate s = let (status, s') = negotiated s in done (ok status, s')

  -- The control queue at the start of the buffer, the cursor queue behind it, and DRIVER_OK.
  unfoldable pub attach_queues : QueueMemory → QueueMemory → Action S D (Unit {0})
  attach_queues mem0 mem1 = do
    s ← get
    add_queue 0 s.cmd_buf_pa mem0 (λ q v. record v { control_vq = some q })
    add_queue 1 ((s.cmd_buf_pa + 4096) % 2 ^ 64) mem1 (λ q v. record v { cursor_vq = some q })
    on_device (Transport.add_status bus base status_driver_ok)

  unfoldable pub detect : Action S D (Unit {0})
  detect = do
    info ←
        send_cmd bus base work fuel (display_cmd (header_of (cmd_code get_display_info))) all_modes
    modify (resolution info)

  unfoldable pub init : QueueMemory → QueueMemory → Action S D (Unit {0})
  init mem0 mem1 = do
    status ← negotiate
    ensure (not (bit_and status status_features_ok == 0)) not_supported
    attach_queues mem0 mem1
    detect

  unfoldable pub ack_interrupt : VirtIoGpu S D → ℕ × VirtIoGpu S D
  ack_interrupt s =
      let (status, d) = Transport.ack_interrupt bus base s.device in
      (status, record s { device = d })

  module _ (io : RingServer S) (ops : Opcodes) where
    -- One request: its answer, before `complete`; the first argument says whether it is a flush.
    unfoldable pub answer_of : Bool → Sqe → VirtIoGpu S D → Outcome (ℤ × VirtIoGpu S D)
    answer_of true sqe s =
        elim (flush (sqe.off / 2 ^ 32) (sqe.off % 2 ^ 32) (sqe.addr / 2 ^ 32) (sqe.addr % 2 ^ 32)
          s) [ fault ↦ fault | done (r, s') ↦ done (code_of r, s') ]
    answer_of false sqe s = done (negsuc 0, s)

    -- `server.complete(…)?`: an answer that fails ends the loop, and the ring server is gone.
    abbrev pub on_completed :
        (S → Action S D (Unit {0}))
        → VirtIoGpu S D
        → Result Error (Unit {0}) × S
        → Outcome (Result Error (Unit {0}) × VirtIoGpu S D)
    on_completed again s (ok _, server) = again server s
    on_completed again s (err e, server) = done (err e, s)

    abbrev pub on_served :
        (S → Action S D (Unit {0}))
        → S
        → ℕ
        → Outcome (ℤ × VirtIoGpu S D)
        → Outcome (Result Error (Unit {0}) × VirtIoGpu S D)
    on_served again server tag fault = fault
    on_served again server tag (done (res, s)) = on_completed again s (io.complete server tag res)

    abbrev pub on_next :
        (S → Action S D (Unit {0}))
        → VirtIoGpu S D
        → Option Sqe × S
        → Outcome (Result Error (Unit {0}) × VirtIoGpu S D)
    on_next again s (none, server) = done (ok tt, record s { ring_server = some server })
    on_next again s (some sqe, server) =
        on_served again server sqe.user_data (answer_of (sqe.opcode == ops.op_fb_flush) sqe s)

    -- The loop over the requests, with the ring server that was taken out of the state.
    unfoldable pub ring_loop : ℕ → S → Action S D (Unit {0})
    ring_loop zero server s = fault
    ring_loop (suc rounds) server s = on_next (ring_loop rounds) s (io.next_request server)

    unfoldable pub handle_ring : ℕ → Action S D (Unit {0})
    handle_ring rounds s = elim s.ring_server [
      | none ↦ done (ok tt, s)
      | some server ↦ ring_loop rounds server (record s { ring_server = none })
    ]
