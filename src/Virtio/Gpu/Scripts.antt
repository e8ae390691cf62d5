-- ===== src/Virtio/Gpu/Scripts.antt =====
-- What the operations of the driver ask of the device: a list of commands, each told once, in order.
use glenda_drivers.Prelude.{
  ℕ, ◌+◌, ◌*◌, ◌%◌, ◌^◌, ◌≡◌, refl, ap, ◌∙◌, Bool, true, false, List, [], ◌∷◌, ◌==◌, done,
}
use glenda_drivers.Prelude.Handlers.{Result, ok, err, pure, ◌>>=◌, ◌>>◌}
use glenda_drivers.Glenda.{Error, io_error}
use glenda_drivers.Mmio.{Bus}
use glenda_drivers.Virtio.Queue.{QueueMemory}
use glenda_drivers.Virtio.Transport
use glenda_drivers.Virtio.Gpu.Protocol.{GpuDisplayInfo, cmd_code, resp_ok_no_data}
use glenda_drivers.Virtio.Gpu.State.{VirtIoGpu, GpuCommand, Expected, header_only, cleared, Work}
use glenda_drivers.Virtio.Gpu.Command.{send_cmd}
use glenda_drivers.Virtio.Gpu.Driver.{Action, rect_of, transfer, flushing, flush, require_ok}
use glenda_drivers.Virtio.Gpu.Exchange.{Serves}
use glenda_drivers.Virtio.Gpu.Answering.{Ready, answered, send_cmd_lem}

-- The device answers every command within `fuel` looks, as `answer` says.
pub record Honest {D : Type 0} (work : Work D) (fuel : ℕ)
    (answer : GpuCommand → D → GpuDisplayInfo × D) : Type 0 where
  pub serves :
      (mem : QueueMemory) (cmd : GpuCommand) (resp : GpuDisplayInfo) (d : D)
      → Serves work 16 mem cmd (answer cmd d) fuel resp d

-- How a command ends that is answered with `RespOkNoData`, or is not; `go_on` is what follows it.
abbrev pub verdict :
    {D : Type 0} → Bool → D → Result Error (Unit {0}) × D → Result Error (Unit {0}) × D
verdict true d go_on = go_on
verdict false d go_on = (err io_error, d)

module _ {D : Type 0} (bus : Bus D) (base : ℕ) (answer : GpuCommand → D → GpuDisplayInfo × D) where
  -- A command reaches the device with the notification of queue 0.
  abbrev pub asked : GpuCommand → D → GpuDisplayInfo × D
  asked cmd d = answer cmd (Transport.notify bus base 0 d)

  -- Commands whose answers are not looked at.
  abbrev pub told : List GpuCommand → D → D
  told [] d = d
  told (cmd ∷ cmds) d = told cmds (asked cmd d).1

  -- The first commands up to one whose answer is not `RespOkNoData`, and if there is none, the last ones.
  abbrev pub checked : List GpuCommand → List GpuCommand → D → Result Error (Unit {0}) × D
  checked [] last d = (ok tt, told last d)
  checked (cmd ∷ cmds) last d =
      verdict ((asked cmd d).0.hdr.ty == cmd_code resp_ok_no_data) (asked cmd d).1
        (checked cmds last (asked cmd d).1)

-- `s'` is `s` after an exchange that left the device in state `d`.
pub record Moved {S D : Type 0} (s s' : VirtIoGpu S D) (d : D) : Type 0 where
  pub device : s'.device ≡ d
  pub width : s'.width ≡ s.width
  pub height : s'.height ≡ s.height
  pub ring_server : s'.ring_server ≡ s.ring_server

module _ {S D : Type 0} (bus : Bus D) (base : ℕ) (work : Work D) (fuel : ℕ)
    (answer : GpuCommand → D → GpuDisplayInfo × D) (honest : Honest work fuel answer) where
  abbrev pub R : VirtIoGpu S D → Type 0
  R s = Ready bus base work fuel s

  -- A command to a ready driver gets the device's answer, and the driver is ready again.
  pub send_cmd_answers :
      (cmd : GpuCommand) (ex : Expected) (s : VirtIoGpu S D)
      → Ready bus base work fuel s
      → (s' : VirtIoGpu S D) × (send_cmd bus base work fuel cmd ex s
          ≡ done (ok (asked bus base answer cmd s.device).0, s'))
        × Ready bus base work fuel s'
        × Moved s s' (asked bus base answer cmd s.device).1
  send_cmd_answers cmd ex s v =
      let a = asked bus base answer cmd s.device in
      let (q', e, r) = send_cmd_lem bus base work fuel cmd ex s a v (λ mem.
        honest.serves mem cmd (cleared ex s.response) (Transport.notify bus base 0 s.device)) in
      (
        answered bus base work fuel cmd a q' s,
        e,
        r,
        record { device = refl; width = refl; height = refl; ring_server = refl },
      )

  Moved-trans :
      (s s1 s2 : VirtIoGpu S D) (d1 d2 : D) → Moved s s1 d1 → Moved s1 s2 d2 → Moved s s2 d2
  Moved-trans s s1 s2 d1 d2 m n = record {
    device = n.device;
    width = n.width ∙ m.width;
    height = n.height ∙ m.height;
    ring_server = n.ring_server ∙ m.ring_server;
  }

  -- Two commands whose answers are not looked at.
  abbrev pub two : GpuCommand → GpuCommand → Action S D (Unit {0})
  two first second = do
    transferred ← send_cmd bus base work fuel first header_only
    flushed ← send_cmd bus base work fuel second header_only
    pure tt

  two_tell :
      (first second : GpuCommand) (s : VirtIoGpu S D)
      → Ready bus base work fuel s
      → (s' : VirtIoGpu S D) × (two first second s ≡ done (ok tt, s'))
        × Ready bus base work fuel s'
        × Moved s s' (told bus base answer (first ∷ second ∷ []) s.device)
  two_tell first second s v =
      let (s1, e1, r1, m1) = send_cmd_answers first header_only s v in
      let (s2, e2, r2, m2) = send_cmd_answers second header_only s1 r1 in
      (
        s2,
        rw (e1, e2) refl,
        r2,
        record {
          device = m2.device ∙ ap (λ d. (asked bus base answer second d).1) m1.device;
          width = m2.width ∙ m1.width;
          height = m2.height ∙ m1.height;
          ring_server = m2.ring_server ∙ m1.ring_server;
        },
      )

  -- A flush of a ready driver succeeds, whatever the device answers, and tells the device to transfer and
  -- then to flush the rectangle.
  pub flush_tells :
      (x y w h : ℕ) (s : VirtIoGpu S D)
      → Ready bus base work fuel s
      → (s' : VirtIoGpu S D) × (flush bus base work fuel x y w h s ≡ done (ok tt, s'))
        × Ready bus base work fuel s'
        × Moved s s' (
            told bus base answer
              (transfer (rect_of x y w h) ((y * s.width + x) * 4 % 2 ^ 64)
                ∷ flushing (rect_of x y w h)
                ∷ [])
              s.device)
  unfolding flush
  flush_tells x y w h s v =
      two_tell (transfer (rect_of x y w h) ((y * s.width + x) * 4 % 2 ^ 64))
        (flushing (rect_of x y w h)) s v

  abbrev pub all_ok : List GpuCommand → Action S D (Unit {0}) → Action S D (Unit {0})
  all_ok [] last = last
  all_ok (cmd ∷ cmds) last = require_ok bus base work fuel cmd >> all_ok cmds last

  -- How `all_ok` and the two last commands end, from `s`.
  abbrev Ends : List GpuCommand → GpuCommand → GpuCommand → VirtIoGpu S D → Type 0
  Ends cmds first second s =
      (s' : VirtIoGpu S D) × (all_ok cmds (two first second) s
        ≡ done ((checked bus base answer cmds (first ∷ second ∷ []) s.device).0, s'))
      × Ready bus base work fuel s'
      × Moved s s' (checked bus base answer cmds (first ∷ second ∷ []) s.device).1
