-- ===== src/Virtio/Chains/Giving.antt =====
-- Giving a chain back: `free_chain` returns every descriptor of a chain, however long, and stops.
use glenda_drivers.Prelude.{
  ℕ, zero, suc, ◌≤◌, ◌≡◌, refl, sym, ◌∙◌, List, [], ◌∷◌, true, false, arith, length, set, bit_and,
  ◌==◌, length-set, get_or-set_ne, get_elem?-eq-get_or, NotIn, Distinct, AllBelow, done,
}
use glenda_drivers.Virtio.Queue.{VirtQueue, Descriptor, desc_f_next}
use glenda_drivers.Virtio.Queue.FreeList.{
  desc_at, no_desc, FreeList, pushed, freed_desc, free_desc-pushed, pushed-FreeList,
}
use glenda_drivers.Virtio.Chains.{free_chain}

-- `xs` is a chain from its first entry: each entry has the flag and names the next one, and the
-- last one lacks the flag.
abbrev pub UsedChain : List Descriptor → List ℕ → Type 0
UsedChain ds [] = ⊥
UsedChain ds (x ∷ []) = (bit_and (desc_at ds x).flags desc_f_next == 0) ≡ true
UsedChain ds (x ∷ y ∷ xs) =
    ((bit_and (desc_at ds x).flags desc_f_next == 0) ≡ false)
    × ((desc_at ds x).next ≡ y)
    × UsedChain ds (y ∷ xs)

-- A change of another descriptor keeps a chain.
pub UsedChain-set :
    (ds : List Descriptor) (i : ℕ) (d : Descriptor) (xs : List ℕ)
    → NotIn i xs
    → UsedChain ds xs
    → UsedChain (set ds i d) xs
UsedChain-set ds i d [] n u = u
UsedChain-set ds i d (x ∷ []) n u = rw (get_or-set_ne ds i x d no_desc n.0) u
UsedChain-set ds i d (x ∷ y ∷ xs) n u =
    rw (get_or-set_ne ds i x d no_desc n.0) (u.0, u.1, UsedChain-set ds i d (y ∷ xs) n.1 u.2)

pub AllBelow-mono : (m n : ℕ) (xs : List ℕ) → m ≤ n → AllBelow m xs → AllBelow n xs
AllBelow-mono m n [] h b = tt
AllBelow-mono m n (x ∷ xs) h b = (omega arith, AllBelow-mono m n xs h b.1)

-- The queue after `xs` are freed in order, and what then stands in front of the free list.
unfoldable pub push_all : VirtQueue → List ℕ → VirtQueue
push_all q [] = q
push_all q (x ∷ xs) = push_all (pushed q x) xs

abbrev pub onto : List ℕ → List ℕ → List ℕ
onto [] fs = fs
onto (x ∷ xs) fs = onto xs (x ∷ fs)

-- No entry of the one list is in the other.
abbrev pub Apart : List ℕ → List ℕ → Type 0
Apart [] fs = Unit
Apart (x ∷ xs) fs = NotIn x fs × Apart xs fs

Apart-cons : (x : ℕ) (xs fs : List ℕ) → NotIn x xs → Apart xs fs → Apart xs (x ∷ fs)
Apart-cons x [] fs n a = tt
Apart-cons x (y ∷ xs) fs n a = ((λ e. n.0 (sym e), a.0), Apart-cons x xs fs n.1 a.1)

pub push_all-FreeList :
    (q : VirtQueue) (xs fs : List ℕ)
    → FreeList q fs
    → AllBelow (length q.mem.descs) xs
    → Distinct xs
    → Apart xs fs
    → FreeList (push_all q xs) (onto xs fs)
unfolding push_all
push_all-FreeList q [] fs v b d a = v
push_all-FreeList q (x ∷ xs) fs v b d a =
    push_all-FreeList (pushed q x) xs (x ∷ fs) (pushed-FreeList q x fs v b.0 a.0)
      (AllBelow-mono _ _ xs (omega (arith, length-set q.mem.descs x (freed_desc q x))) b.1) d.1
      (Apart-cons x xs fs d.0 a.1)

-- The descriptors outside the chain are as before, and so are the size and the rings.
pub push_all_frame :
    (q : VirtQueue) (xs : List ℕ) (j : ℕ)
    → NotIn j xs
    → desc_at (push_all q xs).mem.descs j ≡ desc_at q.mem.descs j
unfolding push_all
push_all_frame q [] j n = refl
push_all_frame q (x ∷ xs) j n =
    push_all_frame (pushed q x) xs j n.1
    ∙ get_or-set_ne q.mem.descs x j (freed_desc q x) no_desc (λ e. n.0 (sym e))

-- What freeing leaves alone.
pub record SameRings (p q : VirtQueue) : Type 0 where
  pub num : p.num ≡ q.num
  pub last_used_idx : p.last_used_idx ≡ q.last_used_idx
  pub size : length p.mem.descs ≡ length q.mem.descs
  pub avail : p.mem.avail ≡ q.mem.avail
  pub avail_idx : p.mem.avail_idx ≡ q.mem.avail_idx
  pub used : p.mem.used ≡ q.mem.used
  pub used_idx : p.mem.used_idx ≡ q.mem.used_idx

pub push_all-SameRings : (q : VirtQueue) (xs : List ℕ) → SameRings (push_all q xs) q
unfolding push_all
push_all-SameRings q [] = record {
  num = refl;
  last_used_idx = refl;
  size = refl;
  avail = refl;
  avail_idx = refl;
  used = refl;
  used_idx = refl;
}
push_all-SameRings q (x ∷ xs) =
    let s = push_all-SameRings (pushed q x) xs in
    record {
      num = s.num;
      last_used_idx = s.last_used_idx;
      size = s.size ∙ length-set q.mem.descs x (freed_desc q x);
      avail = s.avail;
      avail_idx = s.avail_idx;
      used = s.used;
      used_idx = s.used_idx;
    }

-- With fuel for its length, `free_chain` frees exactly the chain.
pub free_chain-push_all :
    (fuel : ℕ) (q : VirtQueue) (x : ℕ) (xs : List ℕ)
    → length (x ∷ xs) ≤ fuel
    → UsedChain q.mem.descs (x ∷ xs)
    → AllBelow (length q.mem.descs) (x ∷ xs)
    → Distinct (x ∷ xs)
    → free_chain fuel q x ≡ done (push_all q (x ∷ xs))
unfolding free_chain push_all
free_chain-push_all zero q x xs h u b d = absurd (omega arith)
free_chain-push_all (suc fuel) q x [] h u b d =
    rw (get_elem?-eq-get_or q.mem.descs x no_desc b.0, free_desc-pushed q x b.0, u)
free_chain-push_all (suc fuel) q x (y ∷ xs) h u b d =
    rw (get_elem?-eq-get_or q.mem.descs x no_desc b.0, free_desc-pushed q x b.0, u.0, u.1)
      (free_chain-push_all fuel (pushed q x) y xs (omega arith)
        (UsedChain-set q.mem.descs x (freed_desc q x) (y ∷ xs) d.0 u.2)
        (AllBelow-mono _ _ (y ∷ xs) (omega (arith, length-set q.mem.descs x (freed_desc q x))) b.1)
        d.1)
