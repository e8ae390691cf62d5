-- ===== src/Virtio/Gpu/Answering.antt =====
-- `send_cmd` of virtio/gpu/src/gpu.rs, from its command to its answer.
use glenda_drivers.Prelude.{
  ℕ, ◌<◌, ◌≡◌, refl, sym, ap, ◌∙◌, some, List, [], ◌∷◌, arith, length, NotIn, done,
}
use glenda_drivers.Prelude.Handlers.{ok}
use glenda_drivers.Mmio.{Bus}
use glenda_drivers.Virtio.Queue.{VirtQueue, QueueMemory}
use glenda_drivers.Virtio.Queue.FreeList.{
  FreeList, popped, alloc_desc-popped, popped-FreeList, Chain-AllBelow,
}
use glenda_drivers.Virtio.Queue.Rings.{UsedRing, device_puts, device_puts-UsedRing}
use glenda_drivers.Virtio.Transport
use glenda_drivers.Virtio.Gpu.Protocol.{GpuDisplayInfo}
use glenda_drivers.Virtio.Gpu.State.{VirtIoGpu, GpuCommand, Expected, cleared, Work}
use glenda_drivers.Virtio.Gpu.Command.{exchange, on_second, on_first, on_vq, send_cmd}
use glenda_drivers.Virtio.Gpu.Exchange.{
  Serves, IsReady, wait_lem, given, released, offer-given, given-FreeList, given_size,
  given-UsedRing, popped-UsedRing, take_back-released, released-IsReady,
}

module _ {S D : Type 0} (bus : Bus D) (base : ℕ) (work : Work D) (fuel : ℕ) where
  -- What `send_cmd` leaves.
  abbrev pub answered : GpuCommand → GpuDisplayInfo × D → VirtQueue → VirtIoGpu S D → VirtIoGpu S D
  answered cmd answer q s = record s {
    control_vq = some q;
    command = cmd;
    response = answer.0;
    device = answer.1;
  }

  exchange_lem :
      (ex : Expected) (head resp : ℕ) (rest : List ℕ) (c : ℕ) (q : VirtQueue) (s : VirtIoGpu S D)
      (answer : GpuDisplayInfo × D)
      → FreeList q rest
      → UsedRing q c []
      → head < length q.mem.descs
      → resp < length q.mem.descs
      → NotIn head rest
      → NotIn resp (head ∷ rest)
      → ((mem : QueueMemory)
          → Serves work q.num mem s.command answer fuel s.response
              (Transport.notify bus base 0 s.device))
      → (q' : VirtQueue) × (exchange bus base work fuel s.command ex head resp q s
          ≡ done (ok answer.0, answered s.command answer q' s))
        × IsReady q'
        × (q'.num ≡ q.num)
  unfolding exchange device_puts
  exchange_lem ex head resp rest c q s answer f v h r nh nr serves =
      let g = given s.cmd_buf_pa s.command ex head resp q in
      let gv = given-UsedRing s.cmd_buf_pa s.command ex head resp q c v in
      let gf = given-FreeList s.cmd_buf_pa s.command ex head resp q rest f nh nr.1 in
      let size = given_size s.cmd_buf_pa s.command ex head resp q in
      let (e, w) =
        wait_lem work s.command g c answer gv fuel s.response (Transport.notify bus base 0 s.device)
          (serves g.mem) in
      let d = device_puts g e in
      let dv = device_puts-UsedRing g c [] e gv v.positive in
      let hd : head < length d.mem.descs = omega (arith, size) in
      let rd : resp < length d.mem.descs = omega (arith, size) in
      (
        released head resp d,
        rw
            (
              offer-given s.cmd_buf_pa s.command ex head resp q v.positive h r,
              w,
              take_back-released head resp d c e dv hd rd,
            )
            refl,
        released-IsReady head resp d c e dv rest
            (record {
              sized = gf.sized;
              fits = gf.fits;
              linked = gf.linked;
              counted = gf.counted;
              distinct = gf.distinct;
            })
            hd rd nh nr,
        refl,
      )

  -- The driver has a control queue, and it is ready.
  pub record Ready (s : VirtIoGpu S D) : Type 0 where
    pub queue : VirtQueue
    pub there : s.control_vq ≡ some queue
    pub sized : queue.num ≡ 16
    pub ready : IsReady queue

  pub send_cmd_lem :
      (cmd : GpuCommand) (ex : Expected) (s : VirtIoGpu S D) (answer : GpuDisplayInfo × D)
      (v : Ready s)
      → ((mem : QueueMemory)
          → Serves work 16 mem cmd answer fuel
              (cleared ex s.response)
              (Transport.notify bus base 0 s.device))
      → (q' : VirtQueue) × (send_cmd bus base work fuel cmd ex s
          ≡ done (ok answer.0, answered cmd answer q' s))
        × Ready (answered cmd answer q' s)
  unfolding send_cmd
  send_cmd_lem cmd ex s answer v serves =
      let q = v.queue in
      let r = v.ready in
      let below = Chain-AllBelow q.mem.descs q.free_head (r.head ∷ r.resp ∷ r.rest) r.free.linked in
      let f1 = popped-FreeList q r.head (r.resp ∷ r.rest) r.free in
      let f2 = popped-FreeList (popped q) r.resp r.rest f1 in
      let s1 : VirtIoGpu S D = record s { command = cmd; response = cleared ex s.response } in
      let (q', e, ready, same) =
        exchange_lem ex r.head r.resp r.rest r.taken (popped (popped q)) s1 answer f2
          (popped-UsedRing (popped q) r.taken (popped-UsedRing q r.taken r.ring)) below.0 below.1.0
          r.free.distinct.0.1 ((λ x. r.free.distinct.0.0 (sym x)), r.free.distinct.1.0)
          (λ mem. rw v.sized (serves mem)) in
      (
        q',
        ap (on_vq bus base work fuel cmd ex s) v.there
            ∙ ap (on_first bus base work fuel cmd ex s1)
                (alloc_desc-popped q r.head (r.resp ∷ r.rest) r.free)
            ∙ ap (on_second bus base work fuel cmd ex s1 r.head)
                (alloc_desc-popped (popped q) r.resp r.rest f1)
            ∙ e,
        record { queue = q'; there = refl; sized = same ∙ v.sized; ready = ready },
      )
