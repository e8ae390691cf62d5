-- ===== src/Prelude/Digits.antt =====
-- The binary digits of a number under `&`, `|` and `!`.
use Prim.Native.Nat.{ℕ, zero, suc, ◌-◌, ◌*◌, ◌/◌, ◌%◌, ◌^◌, ◌<◌, min, max, bit_and, bit_or}
use mathlib.Core.Path.{◌≡◌, refl, ap, ◌∙◌}
use mathlib.Core.Bool.{Bool, true, false}
use native.Mathlib.Nat.{pow-suc, one-le-pow}
use native.Mathlib.Omega.{arith}
use glenda_drivers.Prelude.Tests.{◌==◌, if◌then◌else◌}
use glenda_drivers.Prelude.Bits.{bit_and_digit, bit_or_digit, div_twice}

abbrev pub digit : ℕ → ℕ → ℕ
digit j a = a / 2 ^ j % 2

digit-suc : (j a : ℕ) → digit (suc j) a ≡ digit j (a / 2)
digit-suc j a = ap (λ (x : ℕ). x % 2) (div_twice j a)

pub digit-bit_and : (j a b : ℕ) → digit j (bit_and a b) ≡ min (digit j a) (digit j b)
digit-bit_and zero a b = ground (arith, bit_and_digit a b)
digit-bit_and (suc j) a b =
    let half : bit_and a b / 2 ≡ bit_and (a / 2) (b / 2) = ground (arith, bit_and_digit a b) in
    digit-suc j (bit_and a b)
    ∙ ap (digit j) half
    ∙ digit-bit_and j (a / 2) (b / 2)
    ∙ simp (digit-suc j a, digit-suc j b)

pub digit-bit_or : (j a b : ℕ) → digit j (bit_or a b) ≡ max (digit j a) (digit j b)
digit-bit_or zero a b = ground (arith, bit_or_digit a b)
digit-bit_or (suc j) a b =
    let half : bit_or a b / 2 ≡ bit_or (a / 2) (b / 2) = ground (arith, bit_or_digit a b) in
    digit-suc j (bit_or a b)
    ∙ ap (digit j) half
    ∙ digit-bit_or j (a / 2) (b / 2)
    ∙ simp (digit-suc j a, digit-suc j b)

digit-zero : (j : ℕ) → digit j 0 ≡ 0
digit-zero zero = refl
digit-zero (suc j) = digit-suc j 0 ∙ digit-zero j

pub digit_pow : (j k : ℕ) → digit j (2 ^ k) ≡ (if j == k then 1 else 0)
digit_pow zero zero = refl
digit_pow zero (suc k) = ground (arith, pow-suc 2 k)
digit_pow (suc j) zero = digit-suc j 1 ∙ digit-zero j ∙ ground arith
digit_pow (suc j) (suc k) =
    let half : 2 ^ suc k / 2 ≡ 2 ^ k = ground (arith, pow-suc 2 k) in
    digit-suc j (2 ^ suc k) ∙ ap (digit j) half ∙ digit_pow j k ∙ ground arith

-- `!a` on `n` bits.
digit_not : (n j a : ℕ) → j < n → a < 2 ^ n → digit j (2 ^ n - 1 - a) ≡ 1 - digit j a
digit_not zero j a h small = absurd (omega arith)
digit_not (suc n) zero a h small = ground (arith, pow-suc 2 n)
digit_not (suc n) (suc j) a h small =
    let twice : 2 ^ suc n ≡ 2 * 2 ^ n = omega (arith, pow-suc 2 n) in
    let half : (2 ^ suc n - 1 - a) / 2 ≡ 2 ^ n - 1 - a / 2 = omega (arith, twice) in
    digit-suc j (2 ^ suc n - 1 - a)
    ∙ ap (digit j) half
    ∙ digit_not n j (a / 2) (omega arith) (omega (arith, twice))
    ∙ simp (digit-suc j a)

pow_lt : (k n : ℕ) → k < n → 2 ^ k < 2 ^ n
pow_lt k zero h = absurd (omega arith)
pow_lt zero (suc n) h = omega (arith, pow-suc 2 n, one-le-pow n 2 (omega arith))
pow_lt (suc k) (suc n) h = omega (arith, pow-suc 2 n, pow-suc 2 k, pow_lt k n (omega arith))

pub digit-not_pow :
    (n j k : ℕ) → j < n → k < n → digit j (2 ^ n - 1 - 2 ^ k) ≡ (if j == k then 0 else 1)
digit-not_pow n j k hj hk =
    digit_not n j (2 ^ k) hj (pow_lt k n hk) ∙ ap (λ (x : ℕ). 1 - x) (digit_pow j k) ∙ flip (j == k)
  where
    flip : (b : Bool) → 1 - (if b then 1 else 0) ≡ (if b then 0 else 1)
    flip true = refl
    flip false = refl
