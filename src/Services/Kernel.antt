-- ===== src/Services/Kernel.antt =====
-- What the services use of the glenda crate and of the kernel, as parameters: messages, the wrappers of
-- `glenda::ipc::server`, capabilities, memory, and the constructor of a ring.
use glenda_drivers.Prelude.{ℕ, Option, List}
use glenda_drivers.Prelude.Handlers.{Result}
use glenda_drivers.Glenda.{Error}

pub data Tag : Type 0 where
  request success failure : Tag

-- `UTCB`: the badge, protocol and label of a message, its registers, its buffer, and a capability that
-- is passed. `recv_window` is where a received capability lands.
pub record Utcb : Type 0 where
  pub badge : ℕ
  pub proto : ℕ
  pub label : ℕ
  pub mr : ℕ → ℕ
  pub size : ℕ
  pub buffer : List ℕ
  pub tag : Tag
  pub cap : Option ℕ
  pub recv_window : ℕ

-- `handle_call`, `handle_cap_call` and `handle_notify`: each runs the function that it is given once,
-- on the message, and then puts the result into the message. What they return, and what is in the message
-- then, depends on the result and the message.
pub record Ipc : Type 0 where
  pub handle_call : Result Error (Unit {0}) → Utcb → Result Error (Unit {0}) × Utcb
  pub handle_value_call : Result Error ℕ → Utcb → Result Error (Unit {0}) × Utcb
  pub handle_cap_call : Result Error ℕ → Utcb → Result Error (Unit {0}) × Utcb
  pub handle_notify : Result Error (Unit {0}) → Utcb → Result Error (Unit {0}) × Utcb
  -- What `ipc_dispatch!` gives where no arm matches.
  pub unmatched : Error

-- The kernel, the device manager, and the managers of capabilities and memory, with their state `K`.
pub record Kernel (K : Type 0) : Type 0 where
  pub alloc_slot : K → Result Error ℕ × K
  pub transfer_self : ℕ → ℕ → K → Result Error (Unit {0}) × K
  pub alloc_page : ℕ → K → Result Error ℕ × K
  pub dma_alloc : ℕ → ℕ → K → Result Error (ℕ × ℕ) × K
  pub map_page : ℕ → ℕ → ℕ → K → Result Error (Unit {0}) × K
  pub unmap : ℕ → ℕ → K → Result Error (Unit {0}) × K
  pub get_mmio : ℕ → ℕ → K → Result Error (ℕ × ℕ × ℕ) × K
  pub get_irq : ℕ → ℕ → K → Result Error ℕ × K
  pub ack_irq : ℕ → K → Result Error (Unit {0}) × K
  pub mint_self : ℕ → ℕ → ℕ → K → Result Error (Unit {0}) × K
  pub set_notification : ℕ → ℕ → K → Result Error (Unit {0}) × K
  pub register_logic : ℕ → K → Result Error (Unit {0}) × K

-- `IoUringServer::new(IoUring::new(address, size, sq, cq))`, and `set_client_notify`.
pub record Uring (S : Type 0) : Type 0 where
  pub new_server : ℕ → ℕ → ℕ → ℕ → S
  pub set_client_notify : ℕ → S → S

-- The numbers of the protocols, their labels, and the bits of a notification.
pub record Protocols : Type 0 where
  pub kernel_proto : ℕ
  pub notify : ℕ
  pub device_proto : ℕ
  pub get_mmio : ℕ
  pub get_irq : ℕ
  pub block_proto : ℕ
  pub get_capacity : ℕ
  pub get_block_size : ℕ
  pub net_proto : ℕ
  pub get_mac : ℕ
  pub uart_proto : ℕ
  pub write : ℕ
  pub read : ℕ
  pub set_baud_rate : ℕ
  pub fb_proto : ℕ
  pub get_info : ℕ
  pub flush : ℕ
  pub set_scanout : ℕ
  pub setup_buffer : ℕ
  pub setup_ring : ℕ
  pub notify_cq : ℕ
  pub notify_sq : ℕ
