-- ===== src/Virtio/Queue/Setup.antt =====
-- `VirtQueue::new`: a new queue has all its descriptors free.
use glenda_drivers.Prelude.{
  ℕ, zero, suc, ◌+◌, ◌-◌, ◌%◌, ◌^◌, ◌≤◌, ◌<◌, ◌≡◌, refl, sym, ap, subst, ◌∙◌, ℕ_discrete, List,
  arith, length, set, length-set, get_or-set_self, get_or-set_ne, range_from, length-range_from,
  Distinct-range_from, done,
}
use glenda_drivers.Virtio.Queue.{VirtQueue, Descriptor, QueueMemory, link_from, new, desc_f_next}
use glenda_drivers.Virtio.Queue.FreeList.{no_desc, desc_at, Chain, FreeList, set_desc_lem}

-- The loop of `new`: it links each entry that it visits to the one after it.
link_from_lem :
    (left i : ℕ) (ds : List Descriptor)
    → i + left ≤ length ds
    → (ds' : List Descriptor) × (link_from left i ds ≡ done ds')
      × (length ds' ≡ length ds)
      × ((j : ℕ) → i ≤ j → j < i + left → (desc_at ds' j).next ≡ j + 1)
      × ((j : ℕ) → j < i → desc_at ds' j ≡ desc_at ds j)
unfolding link_from
link_from_lem zero i ds h = (ds, refl, refl, λ j p q. absurd (omega arith), λ j p. refl)
link_from_lem (suc left) i ds h =
    let d : Descriptor = record (desc_at ds i) { next = i + 1; flags = desc_f_next } in
    let (ds', e, len, inside, before) =
      link_from_lem left (i + 1) (set ds i d) (omega (arith, length-set ds i d)) in
    (
      ds',
      rw (set_desc_lem ds i (λ d. record d { next = i + 1; flags = desc_f_next }) (omega arith)) e,
      len ∙ length-set ds i d,
      (λ j p q. elim (ℕ_discrete i j) [
        | yes e ↦
            subst (λ t. (desc_at ds' t).next ≡ t + 1) e
              (ap (λ (x : Descriptor). x.next)
                (before i (omega arith) ∙ get_or-set_self ds i d no_desc (omega arith)))
        | no ne ↦ inside j (omega arith) (omega arith)
      ]),
      (λ j p. before j (omega arith) ∙ get_or-set_ne ds i j d no_desc (omega arith)),
    )

Chain-range_from :
    (ds : List Descriptor) (i k : ℕ)
    → i + k ≤ length ds
    → ((j : ℕ) → i ≤ j → j + 1 < i + k → (desc_at ds j).next ≡ j + 1)
    → Chain ds i (range_from i k)
Chain-range_from ds i zero h s = tt
Chain-range_from ds i (suc zero) h s = (refl, omega arith, tt)
Chain-range_from ds i (suc (suc k)) h s = (
  refl,
  omega arith,
  rw (s i (omega arith) (omega arith)) (
      Chain-range_from ds (i + 1) (suc k) (omega arith) (λ j p q. s j (omega arith) (omega arith))),
)

-- A new queue over memory of its size has every descriptor free, 0 first; its cursor is at 0, and
-- the used ring is left as it is.
pub new_lem :
    (index num paddr : ℕ) (mem : QueueMemory)
    → 0 < num
    → num < 2 ^ 16
    → length mem.descs ≡ num
    → (q : VirtQueue) × (new index num paddr mem ≡ done q)
      × FreeList q (range_from 0 num)
      × (q.num ≡ num)
      × (q.last_used_idx ≡ 0)
      × (q.mem.used ≡ mem.used)
      × (q.mem.used_idx ≡ mem.used_idx)
unfolding new
new_lem index num paddr mem pos small sized =
    let (ds, e, len, inside, before) = link_from_lem (num - 1) 0 mem.descs (omega arith) in
    let last : (num + (2 ^ 16 - 1)) % 2 ^ 16 ≡ num - 1 = omega arith in
    let d : Descriptor = record (desc_at ds (num - 1)) { next = 0; flags = 0 } in
    (
      record {
        index = index;
        num = num;
        paddr = paddr;
        last_used_idx = 0;
        free_head = 0;
        num_free = num;
        mem = record mem { descs = set ds (num - 1) d };
      },
      rw (last, e, set_desc_lem ds (num - 1) (λ d. record d { next = 0; flags = 0 }) (omega arith)),
      record {
        sized = omega (arith, length-set ds (num - 1) d);
        fits = small;
        linked =
            Chain-range_from (set ds (num - 1) d) 0 num (omega (arith, length-set ds (num - 1) d))
              (λ j p q.
                rw (get_or-set_ne ds (num - 1) j d no_desc (omega arith))
                  (inside j p (omega arith)));
        counted = sym (length-range_from 0 num);
        distinct = Distinct-range_from 0 num;
      },
      refl,
      refl,
      refl,
      refl,
    )
