-- ===== src/Glenda.antt =====
-- What the drivers use of the glenda crate, which is not part of this repository: its errors by
-- name, ring requests, shared memory, and the ring server as an interface.
use glenda_drivers.Prelude.{ℕ, ◌≡◌, Option, List, ◌++◌, [], ◌∷◌}
use glenda_drivers.Prelude.Handlers.{Result}
use glenda_drivers.Prelude.Int.{ℤ}

-- The variants of `glenda::error::Error` that the drivers name.
pub data Error : Type 0 where
  success invalid_args not_supported out_of_memory not_initialized permission_denied : Error
  not_found io_error generic : Error

-- `IoUringSqe`
pub record Sqe : Type 0 where
  pub opcode : ℕ
  pub off : ℕ
  pub addr : ℕ
  pub len : ℕ
  pub user_data : ℕ

-- The values of the `IOURING_OP_…` constants.
pub record Opcodes : Type 0 where
  pub op_read : ℕ
  pub op_write : ℕ
  pub op_sync : ℕ
  pub op_fb_flush : ℕ

-- `SharedMemory`, by what its accessors return.
pub record SharedMemory : Type 0 where
  pub vaddr : ℕ
  pub client_vaddr : ℕ
  pub paddr : ℕ
  pub size : ℕ

-- `IoUringServer`: `next_request` takes the next request, `complete` answers one.
pub record RingServer (S : Type 0) : Type 0 where
  pub next_request : S → Option Sqe × S
  pub complete : S → ℕ → ℤ → Result Error (Unit {0}) × S

-- What a ring server is documented to do: it hands out the requests that the client queued, in
-- order, and records each answer.
pub record RingLaws {S : Type 0} (io : RingServer S) : Type 0 where
  pub requests : S → List Sqe
  pub answers : S → List (ℕ × ℤ)
  pub next_none : (s : S) → requests s ≡ [] → io.next_request s ≡ (Option.none, s)
  pub next_some :
      (s : S) (r : Sqe) (rs : List Sqe)
      → requests s ≡ r ∷ rs
      → ((io.next_request s).0 ≡ Option.some r)
        × (requests (io.next_request s).1 ≡ rs)
        × (answers (io.next_request s).1 ≡ answers s)
  pub complete_requests :
      (s : S) (tag : ℕ) (res : ℤ) → requests (io.complete s tag res).1 ≡ requests s
  pub complete_answers :
      (s : S) (tag : ℕ) (res : ℤ) → answers (io.complete s tag res).1 ≡ answers s ++ (tag, res) ∷ []
