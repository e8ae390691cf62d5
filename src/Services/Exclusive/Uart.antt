-- ===== src/Services/Exclusive/Uart.antt =====
-- uart/ns16550a/src/driver/server.rs: what its handlers do to the connected client.
use glenda_drivers.Prelude.{ℕ, ◌≡◌, some, Outcome}
use glenda_drivers.Prelude.Handlers.{Result}
use glenda_drivers.Prelude.Int.{ℤ}
use glenda_drivers.Glenda.{Error, Opcodes, RingServer}
use glenda_drivers.Services.Kernel.{Ipc, Kernel, Uring, Protocols}
use glenda_drivers.Services.Calls.{drive, query, change, alter_part, ask_part, claimed}
use glenda_drivers.Services.Clients.{
  Keeps, keeps_rules, Keeps-drive, Keeps-query, Keeps-change, on_part-keeps, alter_part-keeps,
  ask_part-keeps,
}
use glenda_drivers.Services.Strangers.{claimed-some}
use glenda_drivers.Mmio.{Bus}
use glenda_drivers.Uart.State
use glenda_drivers.Uart.State.{Ns16550a, RingBuffer}
use glenda_drivers.Services.Uart.{UartService, Layout, uart_of, with_uart, on_uart}

module _ {R S D K : Type 0} (bus : Bus D) (rb : RingBuffer R) (io : RingServer S)
    (capacity fuel rounds : ℕ) (ops : Opcodes) (not_supported_res : ℤ) (kernel : Kernel K)
    (ipc : Ipc) (uring : Uring S) (p : Protocols) (layout : Layout) (c : ℕ) where
  Client : UartService R S D → Type 0
  Client v = v.connected_client ≡ some c

  drive-Client :
      (f : Ns16550a R S D → Outcome (Ns16550a R S D)) → Keeps {K = K} Client (drive (on_uart f))
  unfolding Client
  drive-Client f =
      Keeps-drive Client (on_uart f) (on_part-keeps Client uart_of with_uart (λ _ _ h. h) f)

  query-Client :
      {A : Type 0} (missing : Result Error A)
      (f : Ns16550a R S D → Outcome (Result Error A × Ns16550a R S D))
      → Keeps {K = K} Client (query (ask_part uart_of with_uart missing f))
  unfolding Client
  query-Client missing f =
      Keeps-query Client _ (ask_part-keeps Client uart_of with_uart (λ _ _ h. h) missing f)

  connect-Client :
      (s : S)
      → Keeps {K = K} Client (change (alter_part uart_of with_uart (State.set_ring_server s)))
  unfolding Client
  connect-Client s =
      Keeps-change Client (alter_part uart_of with_uart (State.set_ring_server s))
        (alter_part-keeps Client uart_of with_uart (λ _ _ h. h) (State.set_ring_server s))

  claim-Client :
      (badge : ℕ)
      → Keeps {K = K} Client
          (change (λ v. record v { connected_client = claimed badge v.connected_client }))
  unfolding Client
  claim-Client badge = Keeps-change Client _ (λ v. claimed-some badge c v.connected_client)

  ruleset parts = (keeps_rules, drive-Client, query-Client, connect-Client, claim-Client)
