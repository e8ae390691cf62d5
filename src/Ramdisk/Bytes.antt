-- ===== src/Ramdisk/Bytes.antt =====
-- Bytes that are written are read back.
use glenda_drivers.Prelude.{
  ℕ, zero, suc, ◌+◌, ◌≤◌, ◌≡◌, refl, subst, ap, ap₂, ◌∙◌, arith, List, [], ◌∷◌, ◌++◌, length, take,
  drop,
}
use glenda_drivers.Ramdisk.Driver.{Memory, read_bytes, write_bytes}

pub length-read_bytes : (m : Memory) (a n : ℕ) → length (read_bytes m a n) ≡ n
length-read_bytes m a zero = refl
length-read_bytes m a (suc n) = ap suc (length-read_bytes m (a + 1) n)

-- What is read depends on the bytes from `a` on only.
read_bytes_same :
    (m m' : Memory) (a n : ℕ)
    → ((x : ℕ) → a ≤ x → m x ≡ m' x)
    → read_bytes m a n ≡ read_bytes m' a n
read_bytes_same m m' a zero h = refl
read_bytes_same m m' a (suc n) h =
    ap₂ (λ (x : ℕ) xs. x ∷ xs) (h a (omega arith))
      (read_bytes_same m m' (a + 1) n (λ x le. h x (omega arith)))

write_bytes_later :
    (m : Memory) (a b : ℕ) (bs : List ℕ) (x : ℕ)
    → a + 1 ≤ x
    → write_bytes m a (b ∷ bs) x ≡ write_bytes m (a + 1) bs x
write_bytes_later m a b bs x h = ground arith

pub read_bytes-write_bytes :
    (m : Memory) (a : ℕ) (bs : List ℕ) → read_bytes (write_bytes m a bs) a (length bs) ≡ bs
read_bytes-write_bytes m a [] = refl
read_bytes-write_bytes m a (b ∷ bs) =
    ap₂ (λ (x : ℕ) xs. x ∷ xs) (ground arith)
      (read_bytes_same (write_bytes m a (b ∷ bs)) (write_bytes m (a + 1) bs) (a + 1) (length bs)
          (λ x le. write_bytes_later m a b bs x le)
        ∙ read_bytes-write_bytes m (a + 1) bs)

module _ {A : Type 0} where
  pub take-append : (xs ys : List A) → take (length xs) (xs ++ ys) ≡ xs
  take-append [] ys = refl
  take-append (x ∷ xs) ys = ap (λ t. x ∷ t) (take-append xs ys)

  pub drop-append : (xs ys : List A) → drop (length xs) (xs ++ ys) ≡ ys
  drop-append [] ys = refl
  drop-append (x ∷ xs) ys = drop-append xs ys

  pub take_at : (n : ℕ) (xs ys : List A) → length xs ≡ n → take n (xs ++ ys) ≡ xs
  take_at n xs ys e = subst (λ (t : ℕ). take t (xs ++ ys) ≡ xs) e (take-append xs ys)

  pub drop_at : (n : ℕ) (xs ys : List A) → length xs ≡ n → drop n (xs ++ ys) ≡ ys
  drop_at n xs ys e = subst (λ (t : ℕ). drop t (xs ++ ys) ≡ ys) e (drop-append xs ys)
