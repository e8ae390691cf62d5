-- ===== src/Virtio/Chains/Ownership.antt =====
-- Who holds each descriptor of a queue: the free list, a request in flight, or nobody any more. As
-- an owner is a function of the descriptor, what different owners hold is apart.
use glenda_drivers.Prelude.{
  ℕ, ◌≡◌, ◌≢◌, sym, ap, ◌∙◌, List, [], ◌∷◌, arith, length, set, length-set, NotIn, Distinct,
  AllBelow, ◌==◌, if◌then◌else◌,
}
use glenda_drivers.Virtio.Queue.{VirtQueue, Descriptor}
use glenda_drivers.Virtio.Queue.FreeList.{pushed, freed_desc}
use glenda_drivers.Virtio.Chains.Giving.{
  UsedChain, push_all, onto, UsedChain-set, Apart, AllBelow-mono,
}

pub data Owner : Type 0 where
  free : Owner
  slot : ℕ → Owner
  lost : Owner

pub free_ne_slot : (p : ℕ) → free ≢ slot p
free_ne_slot p e = cc

pub slot_ne_slot : (p r : ℕ) → p ≢ r → slot p ≢ slot r
slot_ne_slot p r n e = n (cc)

abbrev pub Owned : (ℕ → Owner) → Owner → List ℕ → Type 0
Owned own o [] = Unit
Owned own o (x ∷ xs) = (own x ≡ o) × Owned own o xs

-- The request of slot `p` holds the chain `xs`.
pub record Flight (ds : List Descriptor) (own : ℕ → Owner) (p : ℕ) (xs : List ℕ) : Type 0 where
  pub chain : UsedChain ds xs
  pub below : AllBelow (length ds) xs
  pub distinct : Distinct xs
  pub owned : Owned own (slot p) xs

pub NotIn-of_owner :
    (own : ℕ → Owner) (o : Owner) (x : ℕ) (xs : List ℕ) → Owned own o xs → own x ≢ o → NotIn x xs
NotIn-of_owner own o x [] h n = tt
NotIn-of_owner own o x (y ∷ xs) h n = ((λ e. n (ap own e ∙ h.0)), NotIn-of_owner own o x xs h.1 n)

pub Apart-of_owners :
    (own : ℕ → Owner) (o r : Owner) (xs ys : List ℕ)
    → o ≢ r
    → Owned own o xs
    → Owned own r ys
    → Apart xs ys
Apart-of_owners own o r [] ys n h k = tt
Apart-of_owners own o r (x ∷ xs) ys n h k =
    (NotIn-of_owner own r x ys k (λ e. n (sym h.0 ∙ e)), Apart-of_owners own o r xs ys n h.1 k)

-- `own` with `x` given to `o`, and with all of a list given to `o`.
abbrev pub give : (ℕ → Owner) → ℕ → Owner → ℕ → Owner
give own x o y = if y == x then o else own y

abbrev pub give_all : (ℕ → Owner) → List ℕ → Owner → ℕ → Owner
give_all own [] o = own
give_all own (x ∷ xs) o = give_all (give own x o) xs o

pub Owned-give :
    (own : ℕ → Owner) (x : ℕ) (o r : Owner) (xs : List ℕ)
    → NotIn x xs
    → Owned own r xs
    → Owned (give own x o) r xs
Owned-give own x o r [] n h = tt
Owned-give own x o r (y ∷ xs) n h = (ground arith, Owned-give own x o r xs n.1 h.1)

pub Owned-give_all :
    (own : ℕ → Owner) (ys : List ℕ) (o r : Owner) (xs : List ℕ)
    → Apart ys xs
    → Owned own r xs
    → Owned (give_all own ys o) r xs
Owned-give_all own [] o r xs a h = h
Owned-give_all own (y ∷ ys) o r xs a h =
    Owned-give_all (give own y o) ys o r xs a.1 (Owned-give own y o r xs a.0 h)

-- A change of a descriptor that the request does not hold leaves its chain in flight.
pub Flight-set :
    (ds : List Descriptor) (own : ℕ → Owner) (p i : ℕ) (d : Descriptor) (xs : List ℕ)
    → NotIn i xs
    → Flight ds own p xs
    → Flight (set ds i d) own p xs
Flight-set ds own p i d xs n v = record {
  chain = UsedChain-set ds i d xs n v.chain;
  below = AllBelow-mono _ _ xs (omega (arith, length-set ds i d)) v.below;
  distinct = v.distinct;
  owned = v.owned;
}

pub Flight-give_all :
    (ds : List Descriptor) (own : ℕ → Owner) (p : ℕ) (ys : List ℕ) (o : Owner) (xs : List ℕ)
    → Apart ys xs
    → Flight ds own p xs
    → Flight ds (give_all own ys o) p xs
Flight-give_all ds own p ys o xs a v = record {
  chain = v.chain;
  below = v.below;
  distinct = v.distinct;
  owned = Owned-give_all own ys o (slot p) xs a v.owned;
}

Owned_given_rest :
    (own : ℕ → Owner) (ys : List ℕ) (o : Owner) (x : ℕ)
    → NotIn x ys
    → own x ≡ o
    → give_all own ys o x ≡ o
Owned_given_rest own [] o x n h = h
Owned_given_rest own (y ∷ ys) o x n h = Owned_given_rest (give own y o) ys o x n.1 (ground arith)

pub Owned-given :
    (own : ℕ → Owner) (xs : List ℕ) (o : Owner) → Distinct xs → Owned (give_all own xs o) o xs
Owned-given own [] o d = tt
Owned-given own (x ∷ xs) o d =
    (Owned_given_rest (give own x o) xs o x d.0 (ground arith), Owned-given (give own x o) xs o d.1)

pub Owned-onto :
    (own : ℕ → Owner) (o : Owner) (xs fs : List ℕ)
    → Owned own o xs
    → Owned own o fs
    → Owned own o (onto xs fs)
Owned-onto own o [] fs h k = k
Owned-onto own o (x ∷ xs) fs h k = Owned-onto own o xs (x ∷ fs) h.1 (h.0, k)

-- Freeing other descriptors leaves a chain in flight.
pub Flight-push_all :
    (q : VirtQueue) (own : ℕ → Owner) (p : ℕ) (ys xs : List ℕ)
    → Apart ys xs
    → Flight q.mem.descs own p xs
    → Flight (push_all q ys).mem.descs own p xs
unfolding push_all
Flight-push_all q own p [] xs a f = f
Flight-push_all q own p (y ∷ ys) xs a f =
    Flight-push_all (pushed q y) own p ys xs a.1
      (Flight-set q.mem.descs own p y (freed_desc q y) xs a.0 f)
