-- ===== src/Services/Exclusive/Ramdisk.antt =====
-- sys/ramdisk/src/server.rs: what its handlers do to the connected client.
use glenda_drivers.Prelude.{ℕ, ◌≡◌, some, Outcome}
use glenda_drivers.Prelude.Handlers.{Result}
use glenda_drivers.Glenda.{Error, Opcodes, RingServer}
use glenda_drivers.Services.Kernel.{Ipc, Kernel, Uring, Protocols}
use glenda_drivers.Services.Calls.{query, change, alter_part, ask_part, claimed}
use glenda_drivers.Services.Clients.{
  Keeps, keeps_rules, Keeps-query, Keeps-change, alter_part-keeps, ask_part-keeps,
}
use glenda_drivers.Services.Strangers.{claimed-some}
use glenda_drivers.Ramdisk.Driver.{Ramdisk}
use glenda_drivers.Services.Ramdisk.{RamdiskService, Layout, disk_of, with_disk}

module _ {S K : Type 0} (io : RingServer S) (ops : Opcodes) (code : Error → ℕ) (rounds : ℕ)
    (kernel : Kernel K) (ipc : Ipc) (uring : Uring S) (p : Protocols) (layout : Layout)
    (c : ℕ) where
  Client : RamdiskService S → Type 0
  Client v = v.connected_client ≡ some c

  query-Client :
      {A : Type 0} (missing : Result Error A) (f : Ramdisk S → Outcome (Result Error A × Ramdisk S))
      → Keeps {K = K} Client (query (ask_part disk_of with_disk missing f))
  unfolding Client
  query-Client missing f =
      Keeps-query Client _ (ask_part-keeps Client disk_of with_disk (λ _ _ h. h) missing f)

  change-Client :
      (f : Ramdisk S → Ramdisk S) → Keeps {K = K} Client (change (alter_part disk_of with_disk f))
  unfolding Client
  change-Client f =
      Keeps-change Client (alter_part disk_of with_disk f)
        (alter_part-keeps Client disk_of with_disk (λ _ _ h. h) f)

  claim-Client :
      (badge : ℕ)
      → Keeps {K = K} Client
          (change (λ v. record v { connected_client = claimed badge v.connected_client }))
  unfolding Client
  claim-Client badge = Keeps-change Client _ (λ v. claimed-some badge c v.connected_client)

  ruleset parts = (keeps_rules, query-Client, change-Client, claim-Client)
