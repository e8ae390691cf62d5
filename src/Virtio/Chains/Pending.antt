-- ===== src/Virtio/Chains/Pending.antt =====
-- A driver's list of pending requests beside its queue: what the end of a request, a new request and a
-- failed one do to who holds which descriptor.
use glenda_drivers.Prelude.{
  ℕ, ◌^◌, ◌≤◌, ◌<◌, ◌≡◌, sym, ap, ◌∙◌, subst, List, ◌∷◌, Option, none, some, arith, length, set,
  get_elem?, done, ℕ_discrete, get_elem?-set_self, get_elem?-set_ne, get_elem?_lt,
  length-le_of_Distinct, Distinct, AllBelow,
}
use glenda_drivers.Virtio.Queue.{VirtQueue}
use glenda_drivers.Virtio.Queue.FreeList.{FreeList}
use glenda_drivers.Virtio.Chains.{free_chain}
use glenda_drivers.Virtio.Chains.Giving.{
  UsedChain, Apart, push_all, onto, push_all-SameRings, push_all-FreeList, free_chain-push_all,
}
use glenda_drivers.Virtio.Chains.Ownership.{
  free_ne_slot, slot_ne_slot, Owner, free, slot, lost, Owned, Flight, give_all, Apart-of_owners,
  Owned-give_all, Owned-given, Owned-onto, Flight-push_all, Flight-give_all,
}

-- The driver's cursor and the device's index are `u16`, and the rings have room for the queue.
pub record RingBounds (q : VirtQueue) : Type 0 where
  pub positive : 0 < q.num
  pub cursor : q.last_used_idx < 2 ^ 16
  pub index : q.mem.used_idx < 2 ^ 16
  pub used_room : q.num ≤ length q.mem.used

-- A pending request of slot `p`, its user data and its head, holds a chain.
abbrev pub Flights : VirtQueue → List (Option (ℕ × ℕ)) → (ℕ → Owner) → Type 0
Flights q pending own =
    (p user_data head : ℕ)
    → get_elem? pending p ≡ some (some (user_data, head))
    → (xs : List ℕ) × Flight q.mem.descs own p (head ∷ xs)

pub record Books (q : VirtQueue) (pending : List (Option (ℕ × ℕ))) (fs : List ℕ) (own : ℕ → Owner)
    : Type 0 where
  pub rings : RingBounds q
  pub free_list : FreeList q fs
  pub free_owned : Owned own free fs
  pub flights : Flights q pending own

-- The pending request of slot `i` is over: its whole chain goes back to the free list.
module _ (q : VirtQueue) (pending : List (Option (ℕ × ℕ))) (fs : List ℕ) (own : ℕ → Owner)
    (v : Books q pending fs own) (i user_data head : ℕ) (xs : List ℕ)
    (here : get_elem? pending i ≡ some (some (user_data, head)))
    (f : Flight q.mem.descs own i (head ∷ xs)) where
  abbrev freed : VirtQueue
  freed = push_all q (head ∷ xs)

  abbrev freed_own : ℕ → Owner
  freed_own = give_all own (head ∷ xs) free

  slot_free-Apart : Apart (head ∷ xs) fs
  slot_free-Apart =
      Apart-of_owners own (slot i) free (head ∷ xs) fs (λ e. free_ne_slot i (sym e)) f.owned
        v.free_owned

  pub free_chain-freed : free_chain q.num q head ≡ done freed
  free_chain-freed =
      free_chain-push_all q.num q head xs
        (omega (
          arith,
          v.free_list.sized,
          length-le_of_Distinct (length q.mem.descs) (head ∷ xs) f.below f.distinct,
        ))
        f.chain f.below f.distinct

  freed-Flights : Flights freed (set pending i none) freed_own
  freed-Flights p ud h e = elim (ℕ_discrete i p) [
    | yes ip ↦
        let gone : get_elem? (set pending i none) i ≡ some none =
          get_elem?-set_self pending i none (get_elem?_lt pending i here) in
        let there : get_elem? (set pending i none) i ≡ some (some (ud, h)) =
          subst (λ t. get_elem? (set pending i none) t ≡ some (some (ud, h))) (sym ip) e in
        cc
    | no ne ↦
        let (ys, g) = v.flights p ud h (sym (get_elem?-set_ne pending i p none ne) ∙ e) in
        let apart =
          Apart-of_owners own (slot i) (slot p) (head ∷ xs) (h ∷ ys) (slot_ne_slot i p ne) f.owned
            g.owned in
        (
          ys,
          Flight-give_all freed.mem.descs own p (head ∷ xs) free (h ∷ ys) apart
              (Flight-push_all q own p (head ∷ xs) (h ∷ ys) apart g),
        )
  ]

  pub freed-Books : Books freed (set pending i none) (onto (head ∷ xs) fs) freed_own
  freed-Books =
      let same = push_all-SameRings q (head ∷ xs) in
      record {
        rings = record {
          positive = omega (arith, same.num, v.rings.positive);
          cursor = omega (arith, same.last_used_idx, v.rings.cursor);
          index = omega (arith, same.used_idx, v.rings.index);
          used_room = omega (arith, same.num, ap length same.used, v.rings.used_room);
        };
        free_list =
            push_all-FreeList q (head ∷ xs) fs v.free_list f.below f.distinct slot_free-Apart;
        free_owned =
            Owned-onto freed_own free (head ∷ xs) fs (Owned-given own (head ∷ xs) free f.distinct)
              (Owned-give_all own (head ∷ xs) free free fs slot_free-Apart v.free_owned);
        flights = freed-Flights;
      }

-- Descriptors `a ∷ xs` that were free leave the free list, and the rest `fs` of it stays.
module _ (q q' : VirtQueue) (pending : List (Option (ℕ × ℕ))) (fs' fs : List ℕ) (own : ℕ → Owner)
    (v : Books q pending fs' own) (xs : List ℕ) (apart : Apart xs fs) (taken : Owned own free xs)
    (rest : Owned own free fs) (free_list : FreeList q' fs) (rings : RingBounds q')
    (kept : (p : ℕ) (ys : List ℕ)
      → Apart xs ys
      → Flight q.mem.descs own p ys
      → Flight q'.mem.descs own p ys) where
  still :
      (o : Owner) (p : ℕ) (ys : List ℕ)
      → Flight q.mem.descs own p ys
      → Flight q'.mem.descs (give_all own xs o) p ys
  still o p ys f =
      let away = Apart-of_owners own free (slot p) xs ys (free_ne_slot p) taken f.owned in
      Flight-give_all q'.mem.descs own p xs o ys away (kept p ys away f)

  -- They are lost.
  pub lost-Books : Books q' pending fs (give_all own xs lost)
  lost-Books = record {
    rings = rings;
    free_list = free_list;
    free_owned = Owned-give_all own xs lost free fs apart rest;
    flights = λ p ud h e. let (ys, f) = v.flights p ud h e in (ys, still lost p (h ∷ ys) f);
  }

  -- They are the chain of a new request in slot `i`.
  module _ (i user_data a : ℕ) (ys : List ℕ) (shape : xs ≡ a ∷ ys) (small : i < length pending)
      (chain : UsedChain q'.mem.descs xs) (below : AllBelow (length q'.mem.descs) xs)
      (distinct : Distinct xs) where
    new-Flight : Flight q'.mem.descs (give_all own xs (slot i)) i xs
    new-Flight = record {
      chain = chain;
      below = below;
      distinct = distinct;
      owned = Owned-given own xs (slot i) distinct;
    }

    after-Flights : Flights q' (set pending i (some (user_data, a))) (give_all own xs (slot i))
    after-Flights p ud h e = elim (ℕ_discrete i p) [
      | yes ip ↦
          let here : get_elem? (set pending i (some (user_data, a))) i
              ≡ some (some (user_data, a)) =
            get_elem?-set_self pending i (some (user_data, a)) small in
          let there : get_elem? (set pending i (some (user_data, a))) i ≡ some (some (ud, h)) =
            subst (λ t. get_elem? (set pending i (some (user_data, a))) t ≡ some (some (ud, h)))
              (sym ip) e in
          let same : a ≡ h = cc in
          (
            ys,
            subst (λ t. Flight q'.mem.descs (give_all own xs (slot i)) t (h ∷ ys)) ip
                (subst (λ t. Flight q'.mem.descs (give_all own xs (slot i)) i t)
                  (shape ∙ ap (λ (t : ℕ). t ∷ ys) same) new-Flight),
          )
      | no ne ↦
          let (zs, f) = v.flights p ud h (sym (get_elem?-set_ne pending i p _ ne) ∙ e) in
          (zs, still (slot i) p (h ∷ zs) f)
    ]

    pub accepted-Books :
        Books q' (set pending i (some (user_data, a))) fs (give_all own xs (slot i))
    accepted-Books = record {
      rings = rings;
      free_list = free_list;
      free_owned = Owned-give_all own xs (slot i) free fs apart rest;
      flights = after-Flights;
    }
