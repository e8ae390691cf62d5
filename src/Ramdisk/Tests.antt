-- ===== src/Ramdisk/Tests.antt =====
-- Runs of the RAM disk at concrete inputs: a disk of four blocks of two bytes, a client whose memory at
-- 100 is the driver's at 1000, and the numbers 1 to 3 for the requests.
use glenda_drivers.Prelude.{ℕ, ◌^◌, ◌-◌, ◌≡◌, refl, arith, [], ◌∷◌, done, fault, inr}
use glenda_drivers.Prelude.Int.{pos}
use glenda_drivers.Glenda.{Error, Sqe, Opcodes}
use glenda_drivers.Ramdisk.Driver.{
  Memory, read_bytes, Ramdisk, new, capacity, set_buffer, set_block_size, local_addr, process_sqe,
}
use glenda_drivers.Ramdisk.Transfers.{IsGood, write_read, process_sqe_wraps}

abbrev ops : Opcodes
ops = record { op_read = 1; op_write = 2; op_sync = 3; op_fb_flush = 4 }

abbrev code : Error → ℕ
code e = 7

-- The byte at an address is the address.
abbrev memory : Memory
memory = λ a. a

abbrev disk : Ramdisk ℕ
disk =
    set_buffer 1000 4096 100 16 0
      (set_block_size 2 (new (0 ∷ 1 ∷ 2 ∷ 3 ∷ 4 ∷ 5 ∷ 6 ∷ 7 ∷ []) memory))

abbrev write_two : Sqe
write_two = record { opcode = 2; off = 1; addr = 104; len = 4; user_data = 0 }

abbrev read_two : Sqe
read_two = record { opcode = 1; off = 1; addr = 110; len = 4; user_data = 0 }

abbrev read_odd : Sqe
read_odd = record { opcode = 1; off = 1; addr = 110; len = 3; user_data = 0 }

capacity_four : capacity disk ≡ done 4
unfolding capacity
capacity_four = refl

write_two-IsGood : IsGood disk write_two 1004
unfolding local_addr
write_two-IsGood = record {
  sized = omega arith;
  aligned = refl;
  reached = refl;
  on = omega arith;
  fits = omega arith;
}

read_two-IsGood : IsGood disk read_two 1010
unfolding local_addr
read_two-IsGood = record {
  sized = omega arith;
  aligned = refl;
  reached = refl;
  on = omega arith;
  fits = omega arith;
}

write_read_example :
    (s1 : Ramdisk ℕ) × (s2 : Ramdisk ℕ) × (process_sqe ops code write_two disk ≡ done (pos 4, s1))
    × (process_sqe ops code read_two s1 ≡ done (pos 4, s2))
    × (read_bytes s2.memory 1010 4 ≡ 1004 ∷ 1005 ∷ 1006 ∷ 1007 ∷ [])
write_read_example =
    write_read ops code write_two read_two 1004 1010 disk write_two-IsGood read_two-IsGood refl refl
      (omega arith) refl refl

-- The sum of the offset and the length wraps to 0, and the copy leaves the disk.
abbrev write_beyond : Sqe
write_beyond = record { opcode = 2; off = 2 ^ 63 - 2; addr = 104; len = 4; user_data = 0 }

process_sqe_wraps_example : process_sqe ops code write_beyond disk ≡ fault
unfolding local_addr
process_sqe_wraps_example =
    process_sqe_wraps ops code write_beyond 1004 disk (omega arith) refl refl (omega arith)
      (omega arith) (omega arith) (omega arith) (inr refl)
