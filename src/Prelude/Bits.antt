-- ===== src/Prelude/Bits.antt =====
-- Laws of `&` and `|` on native numbers, as arithmetic: masks, single bits, disjoint fields.
use Prim.Native.Nat.{
  ℕ, zero, suc, ◌+◌, ◌-◌, ◌*◌, ◌/◌, ◌%◌, ◌^◌, ◌≤◌, ◌<◌, min, max, bit_and, bit_or, digits,
  bit_and-bitwise, bit_or-bitwise,
}
use mathlib.Core.Path.{◌≡◌, refl, ap}
use native.Mathlib.Nat.{pow-suc, one-le-pow, mul_comm, div-add-mod, div-div-eq-div-mul}
use native.Mathlib.Omega.{arith}

-- The digit recursion does not depend on its fuel, once that covers the first argument.
module _ (rest : ℕ → ℕ) (join : ℕ → ℕ → ℕ) where
  enough_fuel : (f g a b : ℕ) → a ≤ f → a ≤ g → digits rest join f a b ≡ digits rest join g a b
  enough_fuel f g zero b p q = at_zero f g
    where
      at_zero : (f g : ℕ) → digits rest join f zero b ≡ digits rest join g zero b
      at_zero zero zero = refl
      at_zero zero (suc g) = refl
      at_zero (suc f) zero = refl
      at_zero (suc f) (suc g) = refl
  enough_fuel zero g (suc a) b p q = absurd (omega arith)
  enough_fuel (suc f) zero (suc a) b p q = absurd (omega arith)
  enough_fuel (suc f) (suc g) (suc a) b p q =
      rw (enough_fuel f g (suc a / 2) (b / 2) (omega arith) (omega arith))

-- The lowest digit of `&` and of `|`.
pub bit_and_digit : (a b : ℕ) → bit_and a b ≡ bit_and (a / 2) (b / 2) * 2 + min (a % 2) (b % 2)
bit_and_digit zero b = simp bit_and-bitwise (omega arith)
bit_and_digit (suc a) b = simp bit_and-bitwise (
    omega (
      arith,
      enough_fuel (λ y. 0) min a (suc a / 2) (suc a / 2) (b / 2) (omega arith) (omega arith),
    ))

pub bit_or_digit : (a b : ℕ) → bit_or a b ≡ bit_or (a / 2) (b / 2) * 2 + max (a % 2) (b % 2)
bit_or_digit zero b = simp bit_or-bitwise (omega arith)
bit_or_digit (suc a) b = simp bit_or-bitwise (
    omega (
      arith,
      enough_fuel (λ y. y) max a (suc a / 2) (suc a / 2) (b / 2) (omega arith) (omega arith),
    ))

-- Laws by halving: `n` bounds the first argument.
and_nothing : (n a : ℕ) → a ≤ n → bit_and a 0 ≡ 0
and_nothing n zero h = refl
and_nothing zero (suc a) h = absurd (omega arith)
and_nothing (suc n) (suc a) h =
    omega (arith, bit_and_digit (suc a) 0, and_nothing n (suc a / 2) (omega arith))

or_nothing : (n a : ℕ) → a ≤ n → bit_or a 0 ≡ a
or_nothing n zero h = refl
or_nothing zero (suc a) h = absurd (omega arith)
or_nothing (suc n) (suc a) h =
    omega (arith, bit_or_digit (suc a) 0, or_nothing n (suc a / 2) (omega arith))

pub bit_and-zero : (a : ℕ) → bit_and a 0 ≡ 0
bit_and-zero a = and_nothing a a (omega arith)

pub bit_or-zero : (a : ℕ) → bit_or a 0 ≡ a
bit_or-zero a = or_nothing a a (omega arith)

or_swapped : (n a b : ℕ) → a + b ≤ n → bit_or a b ≡ bit_or b a
or_swapped n zero zero h = refl
or_swapped zero zero (suc b) h = absurd (omega arith)
or_swapped zero (suc a) b h = absurd (omega arith)
or_swapped (suc n) zero (suc b) h = omega (
  arith,
  bit_or_digit 0 (suc b),
  bit_or_digit (suc b) 0,
  or_swapped n 0 (suc b / 2) (omega arith),
)
or_swapped (suc n) (suc a) b h = omega (
  arith,
  bit_or_digit (suc a) b,
  bit_or_digit b (suc a),
  or_swapped n (suc a / 2) (b / 2) (omega arith),
)

pub bit_or_comm : (a b : ℕ) → bit_or a b ≡ bit_or b a
bit_or_comm a b = or_swapped (a + b) a b (omega arith)

twice_pow : (q k : ℕ) → q * 2 ^ suc k ≡ 2 * (q * 2 ^ k)
twice_pow q k = omega (arith, ap (λ (t : ℕ). q * t) (pow-suc 2 k))

pub div_twice : (k a : ℕ) → a / 2 ^ suc k ≡ a / 2 / 2 ^ k
div_twice k a = rw (pow-suc 2 k, mul_comm (2 ^ k) 2, ← div-div-eq-div-mul)

mod_twice : (k a : ℕ) → a % 2 ^ suc k ≡ (a / 2) % 2 ^ k * 2 + a % 2
mod_twice k a = omega (
  arith,
  div-add-mod a (2 ^ suc k),
  div-add-mod (a / 2) (2 ^ k),
  div_twice k a,
  twice_pow (a / 2 / 2 ^ k) k,
  ap (λ (t : ℕ). t * 2 ^ suc k) (div_twice k a),
)

-- A mask of low ones is a remainder.
pub and_mask : (k a : ℕ) → bit_and a (2 ^ k - 1) ≡ a % 2 ^ k
and_mask zero a = ground (arith, bit_and-zero a)
and_mask (suc k) a = ground (
  arith,
  bit_and_digit a (2 ^ suc k - 1),
  pow-suc 2 k,
  one-le-pow k 2,
  mod_twice k a,
  and_mask k (a / 2),
)

-- A mask of ones above place `k` acts on what stands above it.
pub and_shifted : (k a m : ℕ) → bit_and a (m * 2 ^ k) ≡ bit_and (a / 2 ^ k) m * 2 ^ k
and_shifted zero a m = ground arith
and_shifted (suc k) a m = ground (
  arith,
  bit_and_digit a (m * 2 ^ suc k),
  twice_pow m k,
  div_twice k a,
  twice_pow (bit_and (a / 2 ^ suc k) m) k,
  and_shifted k (a / 2) m,
)

-- `|` of disjoint fields is a sum.
pub or_fields : (k q r : ℕ) → r < 2 ^ k → bit_or (q * 2 ^ k) r ≡ q * 2 ^ k + r
or_fields zero q r h = ground (arith, bit_or-zero q)
or_fields (suc k) q r h =
    ground
      (arith, bit_or_digit (q * 2 ^ suc k) r, twice_pow q k, pow-suc 2 k, or_fields k q (r / 2))

-- A single bit, as the drivers test it.
pub and_bit : (k a : ℕ) → bit_and a (2 ^ k) ≡ a / 2 ^ k % 2 * 2 ^ k
and_bit k a = ground (arith, and_shifted k a 1, and_mask 1 (a / 2 ^ k))
