-- ===== src/Virtio/Net/Lane/Filling.antt =====
-- The two descriptors that `submit` takes and fills, by the state of the free list.
use glenda_drivers.Prelude.{
  ℕ, ◌<◌, ◌≡◌, refl, sym, ap, ◌∙◌, subst, List, [], ◌∷◌, Option, some, true, false, arith, length,
  set, get_elem?, bit_and, ◌==◌, length-set, get_or-set_self, get_or-set_ne, Distinct, AllBelow,
  done, ◌⊎◌, inl, inr, ltb,
}
use glenda_drivers.Prelude.Handlers.{ok, err}
use glenda_drivers.Virtio.Queue.{VirtQueue, UsedElem, Descriptor, QueueMemory, desc_f_next}
use glenda_drivers.Virtio.Queue.FreeList.{
  FreeList, desc_at, no_desc, popped, popped-FreeList, changed, changed-FreeList, Chain-AllBelow,
}
use glenda_drivers.Virtio.Transport.{VirtIoError, oom}
use glenda_drivers.Virtio.Chains.{offer}
use glenda_drivers.Virtio.Chains.Taking.{
  offered, take_desc-popped, take_desc_empty, put_desc-changed, offer-offered,
}
use glenda_drivers.Virtio.Chains.Giving.{UsedChain, Apart, AllBelow-mono}
use glenda_drivers.Virtio.Chains.Ownership.{
  Owner, free, slot, lost, Owned, Flight, Flight-set, give_all,
}
use glenda_drivers.Virtio.Chains.Pending.{lost-Books, accepted-Books}
use glenda_drivers.Virtio.Net.State.{net_hdr_size}
use glenda_drivers.Virtio.Net.Lane.{
  Side, receive, transmit, header_flags, payload_flags, take_two, fill_two, set_pending,
}
use glenda_drivers.Virtio.Net.Lane.Invariant.{LaneInv, IsSound}

header_flag : (side : Side) → (bit_and (header_flags side) desc_f_next == 0) ≡ false
header_flag receive = refl
header_flag transmit = refl

payload_flag : (side : Side) → (bit_and (payload_flags side) desc_f_next == 0) ≡ true
payload_flag receive = refl
payload_flag transmit = refl

take_two_none : (q : VirtQueue) → FreeList q [] → take_two q ≡ done (err oom, q)
unfolding take_two
take_two_none q v = rw (take_desc_empty oom q v)

take_two_one : (q : VirtQueue) (a : ℕ) → FreeList q (a ∷ []) → take_two q ≡ done (err oom, popped q)
unfolding take_two
take_two_one q a v =
    rw (take_desc-popped oom q a [] v, take_desc_empty oom (popped q) (popped-FreeList q a [] v))

pub take_two_both :
    (q : VirtQueue) (a b : ℕ) (fs : List ℕ)
    → FreeList q (a ∷ b ∷ fs)
    → take_two q ≡ done (ok (a, b), popped (popped q))
unfolding take_two
take_two_both q a b fs v = rw (
  take_desc-popped oom q a (b ∷ fs) v,
  take_desc-popped oom (popped q) b fs (popped-FreeList q a (b ∷ fs) v),
)

-- What is left when `xs` are taken and lost.
lost-IsSound :
    (q q' : VirtQueue) (pending : List (Option (ℕ × ℕ))) (fs' fs xs : List ℕ) (own : ℕ → Owner)
    → LaneInv q pending fs' own
    → Apart xs fs
    → Owned own free xs
    → Owned own free fs
    → FreeList q' fs
    → q'.mem ≡ q.mem
    → q'.num ≡ q.num
    → q'.last_used_idx ≡ q.last_used_idx
    → IsSound q' pending
lost-IsSound q q' pending fs' fs xs own v apart taken rest free_list m n l = (
  fs,
  give_all own xs lost,
  record {
    books =
        lost-Books q q' pending fs' fs own v.books xs apart taken rest free_list
          (record {
            positive = omega (arith, v.books.rings.positive);
            cursor = omega (arith, v.books.rings.cursor);
            index = omega (arith, v.books.rings.index, ap (λ (t : QueueMemory). t.used_idx) m);
            used_room =
                omega (arith, v.books.rings.used_room, ap (λ (t : QueueMemory). length t.used) m);
          })
          (λ p ys away f. subst (λ (t : QueueMemory). Flight t.descs own p ys) (sym m) f);
    slots = v.slots;
    size = n ∙ v.size;
    names =
        subst
          (λ (t : QueueMemory). (i : ℕ) (e : UsedElem) → get_elem? t.used i ≡ some e → e.id < 128)
          (sym m) v.names;
  },
)

-- `take_two` fails, and the queue is sound, or it gives two descriptors.
module _ (q : VirtQueue) (pending : List (Option (ℕ × ℕ))) where
  pub take_two_cases :
      (fs : List ℕ) (own : ℕ → Owner)
      → LaneInv q pending fs own
      → ((q' : VirtQueue) × (take_two q ≡ done (err oom, q')) × IsSound q' pending)
        ⊎ ((a : ℕ) × (b : ℕ) × (gs : List ℕ) × (fs ≡ a ∷ b ∷ gs)
            × (take_two q ≡ done (ok (a, b), popped (popped q))))
  take_two_cases [] own v = inl (q, take_two_none q v.books.free_list, ([], own, v))
  take_two_cases (a ∷ []) own v =
      let p = popped-FreeList q a [] v.books.free_list in
      inl (
        popped q,
        take_two_one q a v.books.free_list,
        lost-IsSound q (popped q) pending (a ∷ []) [] (a ∷ []) own v (tt, tt)
            (v.books.free_owned.0, tt) tt p refl refl refl,
      )
  take_two_cases (a ∷ b ∷ gs) own v = inr (a, b, gs, refl, take_two_both q a b gs v.books.free_list)

module _ (q : VirtQueue) (pending : List (Option (ℕ × ℕ))) (a b : ℕ) (fs : List ℕ) (own : ℕ → Owner)
    (v : LaneInv q pending (a ∷ b ∷ fs) own) where
  abbrev two : VirtQueue
  two = popped (popped q)

  two-FreeList : FreeList two fs
  two-FreeList = popped-FreeList _ b fs (popped-FreeList q a (b ∷ fs) v.books.free_list)

  apart2 : Apart (a ∷ b ∷ []) fs
  apart2 = let d = v.books.free_list.distinct in (d.0.1, (d.1.0, tt))

  owned2 : Owned own free (a ∷ b ∷ [])
  owned2 = (v.books.free_owned.0, (v.books.free_owned.1.0, tt))

  below2 : AllBelow (length q.mem.descs) (a ∷ b ∷ [])
  below2 =
      let below = Chain-AllBelow q.mem.descs q.free_head (a ∷ b ∷ fs) v.books.free_list.linked in
      (below.0, (below.1.0, tt))

  -- A request that fails after it has taken two descriptors loses them.
  pub two-IsSound : IsSound two pending
  two-IsSound =
      lost-IsSound q two pending (a ∷ b ∷ fs) fs (a ∷ b ∷ []) own v apart2 owned2
        v.books.free_owned.1.1 two-FreeList refl refl refl

  module _ (side : Side) (hp dp len : ℕ) where
    abbrev header_desc : Descriptor
    header_desc = record { addr = hp; len = net_hdr_size; flags = header_flags side; next = b }

    abbrev payload_desc : Descriptor
    payload_desc = record { addr = dp; len = len; flags = payload_flags side; next = 0 }

    abbrev pub filled : VirtQueue
    filled = changed (changed two a header_desc) b payload_desc

    pub fill_two-filled : fill_two side hp dp len a b two ≡ done (ok tt, filled)
    unfolding fill_two
    fill_two-filled = rw (
      put_desc-changed VirtIoError two a header_desc below2.0,
      put_desc-changed VirtIoError (changed two a header_desc) b payload_desc
          (omega (arith, below2.1.0, length-set q.mem.descs a header_desc)),
    )

    pub offer-filled : offer {E = VirtIoError} a filled ≡ done (ok tt, offered filled a)
    offer-filled = offer-offered VirtIoError filled a (omega (arith, v.books.rings.positive))

    apart-Distinct : Distinct (a ∷ b ∷ [])
    apart-Distinct = let d = v.books.free_list.distinct in ((d.0.0, tt), (tt, tt))

    filled-FreeList : FreeList (offered filled a) fs
    filled-FreeList =
        let u =
          changed-FreeList _ b payload_desc fs
            (changed-FreeList two a header_desc fs two-FreeList apart2.0) apart2.1.0 in
        record {
          sized = u.sized;
          fits = u.fits;
          linked = u.linked;
          counted = u.counted;
          distinct = u.distinct;
        }

    filled-UsedChain : UsedChain (offered filled a).mem.descs (a ∷ b ∷ [])
    filled-UsedChain =
        let ds : List Descriptor = set q.mem.descs a header_desc in
        let first : desc_at (set ds b payload_desc) a ≡ header_desc =
          get_or-set_ne ds b a payload_desc no_desc (λ e. v.books.free_list.distinct.0.0 (sym e))
          ∙ get_or-set_self q.mem.descs a header_desc no_desc below2.0 in
        let second : desc_at (set ds b payload_desc) b ≡ payload_desc =
          get_or-set_self ds b payload_desc no_desc
            (omega (arith, below2.1.0, length-set q.mem.descs a header_desc)) in
        rw (first, second) (header_flag side, refl, payload_flag side)

    pub set_pending-filled :
        (user_data : ℕ)
        → set_pending a (some (user_data, a)) pending ≡ done (set pending a (some (user_data, a)))
    unfolding set_pending
    set_pending-filled user_data =
        let small : ltb a (length pending) ≡ true =
          ground (arith, below2.0, v.slots, v.size, v.books.free_list.sized) in
        rw small

    -- The request is in flight, in the slot of its head.
    pub filled-IsSound :
        (user_data : ℕ) → IsSound (offered filled a) (set pending a (some (user_data, a)))
    filled-IsSound user_data = (
      fs,
      give_all own (a ∷ b ∷ []) (slot a),
      record {
        books =
            accepted-Books q (offered filled a) pending (a ∷ b ∷ fs) fs own v.books (a ∷ b ∷ [])
              apart2 owned2 v.books.free_owned.1.1 filled-FreeList
              (record {
                positive = v.books.rings.positive;
                cursor = v.books.rings.cursor;
                index = v.books.rings.index;
                used_room = v.books.rings.used_room;
              })
              (λ p ys away f.
                Flight-set _ own p b _ ys away.1.0 (Flight-set _ own p a _ ys away.0 f))
              a user_data a (b ∷ []) refl
              (omega (arith, below2.0, v.slots, v.size, v.books.free_list.sized)) filled-UsedChain
              (AllBelow-mono _ _ (a ∷ b ∷ [])
                (omega (arith, filled-FreeList.sized, v.books.free_list.sized)) below2)
              apart-Distinct;
        slots = length-set pending a (some (user_data, a)) ∙ v.slots;
        size = v.size;
        names = v.names;
      },
    )
