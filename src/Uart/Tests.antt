-- ===== src/Uart/Tests.antt =====
-- Runs of the serial driver at concrete inputs.
use glenda_drivers.Prelude.{ℕ, ◌-◌, min, true, none, some, List, [], ◌∷◌, ◌++◌, length, take, drop}
use glenda_drivers.Prelude.Handlers.{ok}
use glenda_drivers.Glenda.{RingServer, Sqe, Opcodes}
use glenda_drivers.Uart.State.{Ns16550a, RingBuffer, no_stats}
use glenda_drivers.Uart.Device.{Serial}

-- A ring of 2048 bytes as a list.
abbrev list_ring : RingBuffer (List ℕ)
list_ring = record {
  init = λ p n. [];
  push_slice = λ r xs. let n : ℕ = min (length xs) (2048 - length r) in (n, r ++ take n xs);
  pop_slice = λ r n. (take n r, drop n r);
  len = λ r. length r;
}

abbrev answers : RingServer (List ℕ)
answers = record { next_request = λ s. (none, s); complete = λ s tag res. (ok tt, tag ∷ s) }

-- Two bytes were received; the port says so once, then asks for bytes to send.
abbrev port : Serial
port = record {
  fifo = 104 ∷ 105 ∷ [];
  sent = 1 ∷ [];
  busy = 2;
  slow = 3;
  overrun = true;
  causes = 0x04 ∷ 0x02 ∷ [];
  line = 3;
  divisor_low = 3;
  divisor_high = 0;
  enabled = 5;
  fifo_control = 0;
  modem = 0;
}

abbrev uart : Ns16550a (List ℕ) (List ℕ) Serial
uart = record {
  base = 0x40000000;
  ring = some [];
  shm = none;
  rx_ring = some [];
  tx_ring = some (79 ∷ 75 ∷ []);
  rx_buffer = record { head = 4095; items = 120 ∷ 121 ∷ [] };
  pending_read = some 9;
  stats = no_stats;
  device = port;
}

abbrev opcodes : Opcodes
opcodes = record { op_read = 22; op_write = 23; op_sync = 3; op_fb_flush = 40 }

abbrev send : Sqe
send = record { opcode = 23; off = 0; addr = 0; len = 2; user_data = 5 }
