-- ===== src/Services/Exclusive/Block.antt =====
-- virtio/block/src/server.rs: what its handlers do to the connected client.
use glenda_drivers.Prelude.{ℕ, ◌≡◌, some, Outcome, done}
use glenda_drivers.Prelude.Handlers.{ok, err}
use glenda_drivers.Glenda.{not_initialized, Opcodes, RingServer}
use glenda_drivers.Mmio.{Bus}
use glenda_drivers.Virtio.Block.State
use glenda_drivers.Virtio.Block.State.{VirtIoBlk}
use glenda_drivers.Services.Kernel.{Ipc, Kernel, Uring, Protocols}
use glenda_drivers.Services.Calls.{drive, query, change, alter_part, claimed}
use glenda_drivers.Services.Clients.{
  Keeps, keeps_rules, Keeps-drive, Keeps-query, Keeps-change, on_part-keeps, alter_part-keeps,
  ask_part-keeps,
}
use glenda_drivers.Services.Strangers.{claimed-some}
use glenda_drivers.Services.Block.{BlockService, Layout, on_blk, measure, setup_shm, with_blk}

module _ {S D K : Type 0} (io : RingServer S) (bus : Bus D) (base : ℕ) (ops : Opcodes)
    (kernel : Kernel K) (ipc : Ipc) (uring : Uring S) (p : Protocols) (layout : Layout)
    (c : ℕ) where
  Client : BlockService S D → Type 0
  Client v = v.connected_client ≡ some c

  drive-Client :
      (f : VirtIoBlk S D → Outcome (VirtIoBlk S D)) → Keeps {K = K} Client (drive (on_blk f))
  unfolding Client
  drive-Client f =
      Keeps-drive Client (on_blk f) (on_part-keeps Client (λ v. v.blk) with_blk (λ _ _ h. h) f)

  measure-Client :
      (f : VirtIoBlk S D → ℕ × VirtIoBlk S D) → Keeps {K = K} Client (query (measure f))
  unfolding Client
  measure-Client f = Keeps-query Client (measure f) (
      ask_part-keeps Client (λ v. v.blk) with_blk (λ _ _ h. h) (ok 0)
        (λ b. done (ok (f b).0, (f b).1)))

  setup_shm-Client :
      (vaddr paddr size : ℕ) → Keeps {K = K} Client (query (setup_shm vaddr paddr size))
  unfolding Client
  setup_shm-Client vaddr paddr size = Keeps-query Client (setup_shm vaddr paddr size) (
      ask_part-keeps Client (λ v. v.blk) with_blk (λ _ _ h. h) (err not_initialized)
        (State.setup_shm vaddr paddr size))

  connect-Client :
      (s : S)
      → Keeps {K = K} Client (change (alter_part (λ v. v.blk) with_blk (State.set_ring_server s)))
  unfolding Client
  connect-Client s =
      Keeps-change Client (alter_part (λ v. v.blk) with_blk (State.set_ring_server s))
        (alter_part-keeps Client (λ v. v.blk) with_blk (λ _ _ h. h) (State.set_ring_server s))

  claim-Client :
      (badge : ℕ)
      → Keeps {K = K} Client
          (change (λ v. record v { connected_client = claimed badge v.connected_client }))
  unfolding Client
  claim-Client badge = Keeps-change Client _ (λ v. claimed-some badge c v.connected_client)

  ruleset parts =
      (keeps_rules, drive-Client, measure-Client, setup_shm-Client, connect-Client, claim-Client)
