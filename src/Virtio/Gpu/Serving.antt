-- ===== src/Virtio/Gpu/Serving.antt =====
-- The requests of a ring: how `handle_ring` answers them, and what becomes of the ring when it cannot.
use glenda_drivers.Prelude.{
  ℕ, ◌+◌, ◌*◌, ◌/◌, ◌%◌, ◌^◌, ◌≡◌, Bool, true, false, some, List, [], ◌∷◌, ◌++◌, ◌==◌,
}
use glenda_drivers.Prelude.Handlers.{ok}
use glenda_drivers.Prelude.Int.{ℤ, pos, negsuc}
use glenda_drivers.Glenda.{Sqe, Opcodes, RingServer, RingLaws}
use glenda_drivers.Mmio.{Bus}
use glenda_drivers.Virtio.Gpu.Protocol.{GpuDisplayInfo}
use glenda_drivers.Virtio.Gpu.State.{VirtIoGpu, GpuCommand, Work}
use glenda_drivers.Virtio.Gpu.Driver.{rect_of, transfer, flushing}
use glenda_drivers.Virtio.Gpu.Answering.{Ready}
use glenda_drivers.Virtio.Gpu.Scripts.{Honest, told}

-- What a client is told: 0 for a flush, -1 for anything else.
abbrev pub reply : Opcodes → Sqe → ℕ × ℤ
reply ops sqe =
    (sqe.user_data, elim (sqe.opcode == ops.op_fb_flush) [ true ↦ pos 0 | false ↦ negsuc 0 ])

abbrev pub replies : Opcodes → List Sqe → List (ℕ × ℤ)
replies ops [] = []
replies ops (sqe ∷ sqes) = reply ops sqe ∷ replies ops sqes

module _ {D : Type 0} (bus : Bus D) (base : ℕ) (answer : GpuCommand → D → GpuDisplayInfo × D)
    (width : ℕ) where
  -- The rectangle of a flush is packed into `off` and `addr`.
  abbrev pub drawn_if : Bool → Sqe → D → D
  drawn_if true sqe d =
      let x = sqe.off / 2 ^ 32 in
      let y = sqe.off % 2 ^ 32 in
      let r = rect_of x y (sqe.addr / 2 ^ 32) (sqe.addr % 2 ^ 32) in
      told bus base answer (transfer r ((y * width + x) * 4 % 2 ^ 64) ∷ flushing r ∷ []) d
  drawn_if false sqe d = d

  -- The device after the flushes among the requests.
  abbrev pub drawn : Opcodes → List Sqe → D → D
  drawn ops [] d = d
  drawn ops (sqe ∷ sqes) d = drawn ops sqes (drawn_if (sqe.opcode == ops.op_fb_flush) sqe d)

module _ {S D : Type 0} (bus : Bus D) (base : ℕ) (work : Work D) (fuel : ℕ)
    (answer : GpuCommand → D → GpuDisplayInfo × D) (honest : Honest work fuel answer)
    (io : RingServer S) (ops : Opcodes) where
  -- How `ring_loop` ends on the requests `sqes` that `server` holds, if every answer is taken.
  module _ (laws : RingLaws io)
      (taken : (sv : S) (tag : ℕ) (res : ℤ) → (io.complete sv tag res).0 ≡ ok tt) where
    pub record Served (server : S) (sqes : List Sqe) (s s' : VirtIoGpu S D) : Type 0 where
      pub left : S
      pub ring_server : s'.ring_server ≡ some left
      pub requests : laws.requests left ≡ []
      pub answers : laws.answers left ≡ laws.answers server ++ replies ops sqes
      pub ready : Ready bus base work fuel s'
      pub device : s'.device ≡ drawn bus base answer s.width ops sqes s.device
