-- ===== src/Services/Exclusive/Net.antt =====
-- virtio/net/src/server.rs: what its handlers do to the connected client.
use glenda_drivers.Prelude.{ℕ, ◌≡◌, some, Outcome, done}
use glenda_drivers.Prelude.Handlers.{ok, err}
use glenda_drivers.Glenda.{not_initialized, Opcodes, RingServer}
use glenda_drivers.Services.Kernel.{Ipc, Kernel, Uring, Protocols}
use glenda_drivers.Services.Calls.{drive, query, change, alter_part, ask_part, claimed}
use glenda_drivers.Services.Clients.{
  Keeps, keeps_rules, Keeps-drive, Keeps-query, Keeps-change, on_part-keeps, alter_part-keeps,
  ask_part-keeps,
}
use glenda_drivers.Services.Strangers.{claimed-some}
use glenda_drivers.Mmio.{Bus}
use glenda_drivers.Virtio.Net.State
use glenda_drivers.Virtio.Net.State.{VirtIoNet}
use glenda_drivers.Services.Net.{NetService, Layout, net_of, with_net, on_net, share}

module _ {S D K : Type 0} (io : RingServer S) (bus : Bus D) (base : ℕ) (ops : Opcodes)
    (kernel : Kernel K) (ipc : Ipc) (uring : Uring S) (p : Protocols) (layout : Layout)
    (c : ℕ) where
  Client : NetService S D → Type 0
  Client v = v.connected_client ≡ some c

  drive-Client :
      (f : VirtIoNet S D → Outcome (VirtIoNet S D)) → Keeps {K = K} Client (drive (on_net f))
  unfolding Client
  drive-Client f =
      Keeps-drive Client (on_net f) (on_part-keeps Client net_of with_net (λ _ _ h. h) f)

  share-Client :
      (vaddr paddr size : ℕ)
      → Keeps {K = K} Client (
          query (
            ask_part net_of with_net
              (err not_initialized)
              (λ n. done (ok tt, share layout.shm_va vaddr paddr size n))))
  unfolding Client
  share-Client vaddr paddr size = Keeps-query Client _ (
      ask_part-keeps Client net_of with_net (λ _ _ h. h) (err not_initialized)
        (λ n. done (ok tt, share layout.shm_va vaddr paddr size n)))

  connect-Client :
      (s : S) → Keeps {K = K} Client (change (alter_part net_of with_net (State.set_ring_server s)))
  unfolding Client
  connect-Client s =
      Keeps-change Client (alter_part net_of with_net (State.set_ring_server s))
        (alter_part-keeps Client net_of with_net (λ _ _ h. h) (State.set_ring_server s))

  claim-Client :
      (badge : ℕ)
      → Keeps {K = K} Client
          (change (λ v. record v { connected_client = claimed badge v.connected_client }))
  unfolding Client
  claim-Client badge = Keeps-change Client _ (λ v. claimed-some badge c v.connected_client)

  ruleset parts = (keeps_rules, drive-Client, share-Client, connect-Client, claim-Client)
