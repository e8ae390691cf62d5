-- ===== src/Virtio/Queue/Layout.antt =====
-- Where the parts of a queue lie in its memory.
use glenda_drivers.Prelude.{ℕ, ◌+◌, ◌-◌, ◌*◌, ◌/◌, ◌%◌, ◌^◌, ◌≤◌, ◌<◌, ◌≡◌, arith, bit_and}
use glenda_drivers.Prelude.Bits.{and_mask, and_shifted}
use glenda_drivers.Virtio.Queue.{queue_size_in_bytes, avail_offset, used_offset}

-- `x & !3` on 64 bits rounds down to a multiple of 4.
pub align_down4 : (x : ℕ) → x < 2 ^ 64 → bit_and x (2 ^ 64 - 4) ≡ x - x % 4
align_down4 x h = omega (arith, and_shifted 2 x (2 ^ 62 - 1), and_mask 62 (x / 4))

-- For every queue size that fits `u16`: the descriptor table (16 bytes an entry) ends where the
-- available ring begins; that ring, of 6 + 2 bytes an entry, ends at or before the used ring, which
-- is aligned to 4; and the used ring without its trailing event word, 4 + 8 bytes an entry, ends
-- within `queue_size_in_bytes`.
pub regions_apart :
    (num : ℕ)
    → num < 2 ^ 16
    → (avail_offset num ≡ 16 * num)
      × (avail_offset num + 6 + 2 * num ≤ used_offset num)
      × (used_offset num % 4 ≡ 0)
      × (used_offset num + 4 + 8 * num ≤ queue_size_in_bytes num)
unfolding avail_offset used_offset queue_size_in_bytes
regions_apart num h = omega (arith, align_down4 (16 * num + 6 + 2 * num + 3) (omega arith))

-- With the event word, a queue of even size is two bytes longer than `queue_size_in_bytes`.
pub event_word_outside :
    (n : ℕ)
    → 2 * n < 2 ^ 16
    → used_offset (2 * n) + 6 + 8 * (2 * n) ≡ queue_size_in_bytes (2 * n) + 2
unfolding used_offset queue_size_in_bytes
event_word_outside n h =
    omega (arith, align_down4 (16 * (2 * n) + 6 + 2 * (2 * n) + 3) (omega arith))
