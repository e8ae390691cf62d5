-- ===== src/Virtio/Queue/FreeList.antt =====
-- The free descriptors of a virtqueue, linked through `next`, are a stack: `alloc_desc` pops it
-- and `free_desc` pushes it.
use mathlib.Core.List.{head?, tail}
use glenda_drivers.Prelude.{
  ◌≢◌, ℕ, ◌+◌, ◌-◌, ◌%◌, ◌^◌, ◌<◌, ◌≡◌, refl, List, [], ◌∷◌, none, some, arith, length, get_or, set,
  length-set, get_or-set_self, get_or-set_ne, get_elem?-eq-get_or, NotIn, Distinct, AllBelow,
  length-le_of_Distinct, done,
}
use glenda_drivers.Virtio.Queue.{
  VirtQueue, Descriptor, set_desc, alloc_desc, free_desc, write_desc, desc_f_next,
}

abbrev pub no_desc : Descriptor
no_desc = record { addr = 0; len = 0; flags = 0; next = 0 }

abbrev pub desc_at : List Descriptor → ℕ → Descriptor
desc_at ds i = get_or ds i no_desc

-- `xs` is the chain that `next` links from `head` on. What follows its last entry is open.
abbrev pub Chain : List Descriptor → ℕ → List ℕ → Type 0
Chain ds head [] = Unit
Chain ds head (x ∷ xs) = (head ≡ x) × (x < length ds) × Chain ds (desc_at ds x).next xs

pub record FreeList (q : VirtQueue) (fs : List ℕ) : Type 0 where
  pub sized : length q.mem.descs ≡ q.num
  pub fits : q.num < 2 ^ 16
  pub linked : Chain q.mem.descs q.free_head fs
  pub counted : q.num_free ≡ length fs
  pub distinct : Distinct fs

-- A write in range, and what it leaves.
pub set_desc_lem :
    (ds : List Descriptor) (i : ℕ) (f : Descriptor → Descriptor)
    → i < length ds
    → set_desc ds i f ≡ done (set ds i (f (desc_at ds i)))
set_desc_lem ds i f h = rw (get_elem?-eq-get_or ds i no_desc h)

pub Chain-set :
    (ds : List Descriptor) (i : ℕ) (d : Descriptor) (h : ℕ) (xs : List ℕ)
    → NotIn i xs
    → Chain ds h xs
    → Chain (set ds i d) h xs
Chain-set ds i d h [] n c = tt
Chain-set ds i d h (x ∷ xs) n c = (
  c.0,
  omega (arith, c.1, length-set ds i d),
  rw (get_or-set_ne ds i x d no_desc n.0) (Chain-set ds i d (desc_at ds x).next xs n.1 c.2),
)

pub Chain-AllBelow :
    (ds : List Descriptor) (h : ℕ) (xs : List ℕ) → Chain ds h xs → AllBelow (length ds) xs
Chain-AllBelow ds h [] c = tt
Chain-AllBelow ds h (x ∷ xs) c = (c.1, Chain-AllBelow ds (desc_at ds x).next xs c.2)

-- The states that the operations lead to.
abbrev pub popped : VirtQueue → VirtQueue
popped q = record q {
  free_head = (desc_at q.mem.descs q.free_head).next;
  num_free = q.num_free - 1;
}

abbrev pub changed : VirtQueue → ℕ → Descriptor → VirtQueue
changed q id d = record q { mem = record (q.mem) { descs = set q.mem.descs id d } }

abbrev pub freed_desc : VirtQueue → ℕ → Descriptor
freed_desc q id = record (desc_at q.mem.descs id) { next = q.free_head; flags = desc_f_next }

abbrev pub pushed : VirtQueue → ℕ → VirtQueue
pushed q id = record q {
  mem = record (q.mem) { descs = set q.mem.descs id (freed_desc q id) };
  free_head = id;
  num_free = (q.num_free + 1) % 2 ^ 16;
}

pub alloc_desc-popped :
    (q : VirtQueue) (f : ℕ) (fs : List ℕ)
    → FreeList q (f ∷ fs)
    → alloc_desc q ≡ done (some f, popped q)
unfolding alloc_desc
alloc_desc-popped q f fs v = ground (arith, get_elem?-eq-get_or q.mem.descs q.free_head no_desc)

pub popped-FreeList :
    (q : VirtQueue) (f : ℕ) (fs : List ℕ) → FreeList q (f ∷ fs) → FreeList (popped q) fs
popped-FreeList q f fs v = record {
  sized = v.sized;
  fits = v.fits;
  linked = rw v.linked.0 v.linked.2;
  counted = omega (arith, v.counted);
  distinct = v.distinct.1;
}

pub alloc_desc_empty : (q : VirtQueue) → FreeList q [] → alloc_desc q ≡ done (none, q)
unfolding alloc_desc
alloc_desc_empty q v = ground (arith, v.counted)

-- `alloc_desc` takes the head of the free list, or gives `none` and changes nothing when the list
-- is empty. It leaves the descriptor table as it was.
pub alloc_desc_pops :
    (q : VirtQueue) (fs : List ℕ)
    → FreeList q fs
    → (q' : VirtQueue) × (alloc_desc q ≡ done (head? fs, q'))
      × FreeList q' (tail fs)
      × (q'.mem ≡ q.mem)
alloc_desc_pops q [] v = (q, alloc_desc_empty q v, v, refl)
alloc_desc_pops q (f ∷ fs) v =
    (popped q, alloc_desc-popped q f fs v, popped-FreeList q f fs v, refl)

pub free_desc-pushed :
    (q : VirtQueue) (id : ℕ) → id < length q.mem.descs → free_desc q id ≡ done (pushed q id)
unfolding free_desc
free_desc-pushed q id h = rw (set_desc_lem q.mem.descs id _ h)

pub pushed-FreeList :
    (q : VirtQueue) (id : ℕ) (fs : List ℕ)
    → FreeList q fs
    → id < length q.mem.descs
    → NotIn id fs
    → FreeList (pushed q id) (id ∷ fs)
pushed-FreeList q id fs v h n = record {
  sized = omega (arith, v.sized, length-set q.mem.descs id (freed_desc q id));
  fits = v.fits;
  linked = (
    refl,
    omega (arith, length-set q.mem.descs id (freed_desc q id)),
    rw (get_or-set_self q.mem.descs id (freed_desc q id) no_desc h)
        (Chain-set q.mem.descs id (freed_desc q id) q.free_head fs n v.linked),
  );
  counted = omega (
    arith,
    v.counted,
    v.fits,
    v.sized,
    length-le_of_Distinct (length q.mem.descs) (id ∷ fs)
        (h, Chain-AllBelow q.mem.descs q.free_head fs v.linked) (n, v.distinct),
  );
  distinct = (n, v.distinct);
}

-- `free_desc` puts a descriptor that is not free in front of the free list, and changes no other
-- descriptor.
pub free_desc_pushes :
    (q : VirtQueue) (id : ℕ) (fs : List ℕ)
    → FreeList q fs
    → id < q.num
    → NotIn id fs
    → (q' : VirtQueue) × (free_desc q id ≡ done q')
      × FreeList q' (id ∷ fs)
      × ((j : ℕ) → id ≢ j → desc_at q'.mem.descs j ≡ desc_at q.mem.descs j)
free_desc_pushes q id fs v h n = (
  pushed q id,
  free_desc-pushed q id (omega (arith, v.sized)),
  pushed-FreeList q id fs v (omega (arith, v.sized)) n,
  (λ j ne. get_or-set_ne q.mem.descs id j (freed_desc q id) no_desc ne),
)

pub write_desc-changed :
    (q : VirtQueue) (id : ℕ) (d : Descriptor)
    → id < length q.mem.descs
    → write_desc q id d ≡ done (changed q id d)
unfolding write_desc
write_desc-changed q id d h = rw (set_desc_lem q.mem.descs id (λ _. d) h)

-- Filling a descriptor that is in use leaves the free list alone.
pub changed-FreeList :
    (q : VirtQueue) (id : ℕ) (d : Descriptor) (fs : List ℕ)
    → FreeList q fs
    → NotIn id fs
    → FreeList (changed q id d) fs
changed-FreeList q id d fs v n = record {
  sized = omega (arith, v.sized, length-set q.mem.descs id d);
  fits = v.fits;
  linked = Chain-set q.mem.descs id d q.free_head fs n v.linked;
  counted = v.counted;
  distinct = v.distinct;
}
