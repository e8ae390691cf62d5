-- ===== src/Virtio/Queue/Rings.antt =====
-- The two rings of a queue as first-in first-out queues. Their 16-bit indices wrap, so a ring is
-- described by the number `c` of entries that its consumer has taken so far.
use native.Mathlib.Nat.{
  mod-mod_of_dvd, dvd_of_mod-eq-zero, mod-add-mod, mod-eq_of_lt, mod-eq-sub-mod, add-zero,
}
use glenda_drivers.Prelude.{
  ℕ, suc, ◌+◌, ◌-◌, ◌%◌, ◌^◌, ◌≤◌, ◌<◌, ◌≡◌, refl, ap, subst, ◌∙◌, ◌≢◌, List, [], ◌∷◌, ◌++◌, none,
  some, arith, length, get_elem?, set, length-set, get_elem?-set_self, get_elem?-set_ne,
  length-append, done, dec_lt,
}
use glenda_drivers.Virtio.Queue.{VirtQueue, UsedElem, submit, can_pop, pop}

module _ {ℓ} {A : Type ℓ} where
  -- The slots from the `c`-th entry on hold `es`.
  abbrev pub Stored : List A → ℕ → ℕ → List A → Type ℓ
  Stored slots num c [] = Unit
  Stored slots num c (e ∷ es) = (get_elem? slots (c % num) ≡ some e) × Stored slots num (c + 1) es

-- Two positions less than a round apart are different slots.
slots_differ : (num a d : ℕ) → 0 < d → d < num → (a + d) % num ≢ a % num
slots_differ num a d pos less e = elim (dec_lt (a % num + d) num) [
  | yes h ↦ omega (arith, mod-add-mod a num d, mod-eq_of_lt h)
  | no h ↦ omega (
    arith,
    mod-add-mod a num d,
    mod-eq-sub-mod {n = a % num + d} {m = num} (omega arith),
    mod-eq_of_lt {n = a % num + d - num} {m = num} (omega arith),
  )
]

module _ {ℓ} {A : Type ℓ} where
  -- A write just past the stored entries adds one at the end.
  pub Stored-push :
      (slots : List A) (num c : ℕ) (es : List A) (v : A)
      → num ≤ length slots
      → length es < num
      → Stored slots num c es
      → Stored (set slots ((c + length es) % num) v) num c (es ++ v ∷ [])
  Stored-push slots num c [] v h r s =
      (rw add-zero (get_elem?-set_self slots (c % num) v (omega arith)), tt)
  Stored-push slots num c (e ∷ es) v h r s = (
    get_elem?-set_ne slots _ _ v (slots_differ num c (length (e ∷ es)) (omega arith) r) ∙ s.0,
    let shift : c + 1 + length es ≡ c + suc (length es) = omega arith in
        subst (λ (t : ℕ). Stored (set slots (t % num) v) num (c + 1) (es ++ v ∷ [])) shift
          (Stored-push slots num (c + 1) es v h (omega arith) s.1),
  )

-- `c` entries of the used ring were taken by the driver, and the device has put `es` after them.
pub record UsedRing (q : VirtQueue) (c : ℕ) (es : List UsedElem) : Type 0 where
  pub positive : 0 < q.num
  pub divides : 2 ^ 16 % q.num ≡ 0
  pub taken : q.last_used_idx ≡ c % 2 ^ 16
  pub put : q.mem.used_idx ≡ (c + length es) % 2 ^ 16
  pub room : length es ≤ q.num
  pub fits : q.num < 2 ^ 16
  pub slots : q.num ≤ length q.mem.used
  pub stored : Stored q.mem.used q.num c es

-- What the device does to complete a request: it writes the next slot and moves its index.
unfoldable pub device_puts : VirtQueue → UsedElem → VirtQueue
device_puts q e = record q {
  mem = record (q.mem) {
    used = set q.mem.used (q.mem.used_idx % q.num) e;
    used_idx = (q.mem.used_idx + 1) % 2 ^ 16;
  };
}

wrapped_slot : (num c : ℕ) → 2 ^ 16 % num ≡ 0 → c % 2 ^ 16 % num ≡ c % num
wrapped_slot num c h = mod-mod_of_dvd num {b = 2 ^ 16} c (dvd_of_mod-eq-zero num {n = 2 ^ 16} h)

-- Nothing put: `pop` gives nothing and changes nothing.
pub pop-none : (q : VirtQueue) (c : ℕ) → UsedRing q c [] → pop q ≡ done (none, q)
unfolding pop can_pop
pop-none q c v = ground arith

abbrev pub advanced : VirtQueue → VirtQueue
advanced q = record q { last_used_idx = (q.last_used_idx + 1) % 2 ^ 16 }

pub pop-advanced :
    (q : VirtQueue) (c : ℕ) (e : UsedElem) (es : List UsedElem)
    → UsedRing q c (e ∷ es)
    → pop q ≡ done (some (e.id, e.len), advanced q)
unfolding pop can_pop
pop-advanced q c e es v = ground (arith, wrapped_slot q.num c v.divides, v.stored)

pub advanced-UsedRing :
    (q : VirtQueue) (c : ℕ) (e : UsedElem) (es : List UsedElem)
    → UsedRing q c (e ∷ es)
    → UsedRing (advanced q) (c + 1) es
advanced-UsedRing q c e es v = record {
  positive = v.positive;
  divides = v.divides;
  taken = omega (arith, v.taken);
  put = v.put ∙ ap (λ (t : ℕ). t % 2 ^ 16) (omega arith);
  room = omega (arith, v.room);
  fits = v.fits;
  slots = v.slots;
  stored = v.stored.1;
}

-- Otherwise `pop` gives the oldest entry, once.
pub pop-some :
    (q : VirtQueue) (c : ℕ) (e : UsedElem) (es : List UsedElem)
    → UsedRing q c (e ∷ es)
    → (q' : VirtQueue) × (pop q ≡ done (some (e.id, e.len), q')) × UsedRing q' (c + 1) es
pop-some q c e es v = (advanced q, pop-advanced q c e es v, advanced-UsedRing q c e es v)

-- What the device puts comes after what it put before.
pub device_puts-UsedRing :
    (q : VirtQueue) (c : ℕ) (es : List UsedElem) (e : UsedElem)
    → UsedRing q c es
    → length es < q.num
    → UsedRing (device_puts q e) c (es ++ e ∷ [])
unfolding device_puts
device_puts-UsedRing q c es e v h = record {
  positive = v.positive;
  divides = v.divides;
  taken = v.taken;
  put = omega (arith, v.put, length-append es (e ∷ []));
  room = omega (arith, length-append es (e ∷ []));
  fits = v.fits;
  slots = omega (arith, v.slots, length-set q.mem.used (q.mem.used_idx % q.num) e);
  stored =
      rw (v.put, wrapped_slot q.num (c + length es) v.divides)
        (Stored-push q.mem.used q.num c es e v.slots h v.stored);
}

-- `c` entries of the available ring were taken by the device, and the driver has put `hs` after.
pub record AvailRing (q : VirtQueue) (c : ℕ) (hs : List ℕ) : Type 0 where
  pub positive : 0 < q.num
  pub divides : 2 ^ 16 % q.num ≡ 0
  pub put : q.mem.avail_idx ≡ (c + length hs) % 2 ^ 16
  pub room : length hs ≤ q.num
  pub slots : q.num ≤ length q.mem.avail
  pub stored : Stored q.mem.avail q.num c hs

-- `submit` adds a chain at the end of what the device has not taken yet, and leaves the
-- descriptors and the used ring alone.
pub submit-AvailRing :
    (q : VirtQueue) (c : ℕ) (hs : List ℕ) (head : ℕ)
    → AvailRing q c hs
    → length hs < q.num
    → (q' : VirtQueue) × (submit q head ≡ done q')
      × AvailRing q' c (hs ++ head ∷ [])
      × (q'.mem.descs ≡ q.mem.descs)
      × (q'.mem.used ≡ q.mem.used)
unfolding submit
submit-AvailRing q c hs head v h = (
  record q {
    mem = record (q.mem) {
      avail = set q.mem.avail (q.mem.avail_idx % q.num) head;
      avail_idx = (q.mem.avail_idx + 1) % 2 ^ 16;
    };
  },
  ground (arith, v.positive),
  record {
    positive = v.positive;
    divides = v.divides;
    put = omega (arith, v.put, length-append hs (head ∷ []));
    room = omega (arith, length-append hs (head ∷ []));
    slots = omega (arith, v.slots, length-set q.mem.avail (q.mem.avail_idx % q.num) head);
    stored =
        rw (v.put, wrapped_slot q.num (c + length hs) v.divides)
          (Stored-push q.mem.avail q.num c hs head v.slots h v.stored);
  },
  refl,
  refl,
)
