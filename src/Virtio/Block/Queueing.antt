-- ===== src/Virtio/Block/Queueing.antt =====
-- `queue_request`: the descriptors that a request takes, by the state of the free list.
use glenda_drivers.Prelude.{
  ℕ, ◌<◌, ◌≡◌, ◌≢◌, refl, sym, ◌∙◌, List, [], ◌∷◌, Bool, true, false, arith, length, set, bit_or,
  bit_and, ◌==◌, if◌then◌else◌, length-set, get_or-set_self, get_or-set_ne, AllBelow, done,
}
use glenda_drivers.Prelude.Handlers.{ok, err}
use glenda_drivers.Glenda.{Error, out_of_memory}
use glenda_drivers.Virtio.Queue.{VirtQueue, Descriptor, desc_f_next, desc_f_write}
use glenda_drivers.Virtio.Queue.FreeList.{
  FreeList, desc_at, no_desc, popped, popped-FreeList, changed, changed-FreeList, Chain-AllBelow,
}
use glenda_drivers.Virtio.Chains.Taking.{
  offered, take_desc-popped, take_desc_empty, put_desc-changed, offer-offered,
}
use glenda_drivers.Virtio.Chains.Giving.{UsedChain}
use glenda_drivers.Virtio.Block.State.{blk_req_size}
use glenda_drivers.Virtio.Block.Request.{queue_request}

-- Three entries written at different places.
module _ (ds : List Descriptor) (a b c : ℕ) (x y z : Descriptor) where
  abbrev written : List Descriptor
  written = set (set (set ds a x) b y) c z

  written_third : c < length ds → desc_at written c ≡ z
  written_third h =
      get_or-set_self (set (set ds a x) b y) c z no_desc
        (omega (arith, length-set (set ds a x) b y, length-set ds a x))

  written_second : c ≢ b → b < length ds → desc_at written b ≡ y
  written_second n h =
      get_or-set_ne (set (set ds a x) b y) c b z no_desc n
      ∙ get_or-set_self (set ds a x) b y no_desc (omega (arith, length-set ds a x))

  written_first : c ≢ a → b ≢ a → a < length ds → desc_at written a ≡ x
  written_first n m h =
      get_or-set_ne (set (set ds a x) b y) c a z no_desc n
      ∙ get_or-set_ne (set ds a x) b a y no_desc m
      ∙ get_or-set_self ds a x no_desc h

  length-written : length written ≡ length ds
  length-written =
      omega (
        arith,
        length-set (set (set ds a x) b y) c z,
        length-set (set ds a x) b y,
        length-set ds a x,
      )

-- Both directions chain the data descriptor to the next one.
data_flag :
    (w : Bool)
    → (bit_and (if w then desc_f_next else bit_or desc_f_next desc_f_write) desc_f_next == 0)
      ≡ false
data_flag true = refl
data_flag false = refl

module _ (rp dp len sp : ℕ) (w : Bool) where
  abbrev header_desc : ℕ → Descriptor
  header_desc b = record { addr = rp; len = blk_req_size; flags = desc_f_next; next = b }

  abbrev pub data_desc : ℕ → Descriptor
  data_desc c = record {
    addr = dp;
    len = len;
    flags = if w then desc_f_next else bit_or desc_f_next desc_f_write;
    next = c;
  }

  abbrev status_desc : Descriptor
  status_desc = record { addr = sp; len = 1; flags = desc_f_write; next = 0 }

  abbrev pub filled : VirtQueue → ℕ → ℕ → ℕ → VirtQueue
  filled q a b c =
      changed (changed (changed (popped (popped (popped q))) a (header_desc b)) b (data_desc c)) c
        status_desc

  abbrev pub queued : VirtQueue → ℕ → ℕ → ℕ → VirtQueue
  queued q a b c = offered (filled q a b c) a

  module _ (q : VirtQueue) (a b c : ℕ) (fs : List ℕ) (v : FreeList q (a ∷ b ∷ c ∷ fs)) where
    chain_below : AllBelow (length q.mem.descs) (a ∷ b ∷ c ∷ fs)
    chain_below = Chain-AllBelow q.mem.descs q.free_head (a ∷ b ∷ c ∷ fs) v.linked

    three_popped : FreeList (popped (popped (popped q))) fs
    three_popped =
        popped-FreeList _ c fs (popped-FreeList _ b (c ∷ fs) (popped-FreeList q a (b ∷ c ∷ fs) v))

    pub queued-FreeList : FreeList (queued q a b c) fs
    queued-FreeList =
        let u =
          changed-FreeList _ c status_desc fs
            (changed-FreeList _ b (data_desc c) fs
              (changed-FreeList _ a (header_desc b) fs three_popped v.distinct.0.1.1)
              v.distinct.1.0.1)
            v.distinct.1.1.0 in
        record {
          sized = u.sized;
          fits = u.fits;
          linked = u.linked;
          counted = u.counted;
          distinct = u.distinct;
        }

    pub queued-UsedChain : UsedChain (queued q a b c).mem.descs (a ∷ b ∷ c ∷ [])
    queued-UsedChain =
        let first =
          written_first q.mem.descs a b c (header_desc b) (data_desc c) status_desc
            (λ e. v.distinct.0.1.0 (sym e)) (λ e. v.distinct.0.0 (sym e)) chain_below.0 in
        let second =
          written_second q.mem.descs a b c (header_desc b) (data_desc c) status_desc
            (λ e. v.distinct.1.0.0 (sym e)) chain_below.1.0 in
        let third =
          written_third q.mem.descs a b c (header_desc b) (data_desc c) status_desc
            chain_below.1.1.0 in
        rw (first, second, third) (refl, refl, (data_flag w, refl, refl))

    pub queue_request-queued : queue_request rp dp len sp w q ≡ done (ok a, queued q a b c)
    unfolding queue_request
    queue_request-queued =
        let p1 = popped-FreeList q a (b ∷ c ∷ fs) v in
        let p2 = popped-FreeList (popped q) b (c ∷ fs) p1 in
        rw (
          take_desc-popped out_of_memory q a (b ∷ c ∷ fs) v,
          take_desc-popped out_of_memory (popped q) b (c ∷ fs) p1,
          take_desc-popped out_of_memory (popped (popped q)) c fs p2,
          put_desc-changed Error (popped (popped (popped q))) a (header_desc b) chain_below.0,
          put_desc-changed Error (changed (popped (popped (popped q))) a (header_desc b)) b
              (data_desc c)
              (omega (arith, chain_below.1.0, length-set q.mem.descs a (header_desc b))),
          put_desc-changed Error
              (changed (changed (popped (popped (popped q))) a (header_desc b)) b (data_desc c)) c
              status_desc
              (omega (
                arith,
                chain_below.1.1.0,
                length-set q.mem.descs a (header_desc b),
                length-set (set q.mem.descs a (header_desc b)) b (data_desc c),
              )),
          offer-offered Error (filled q a b c) a (omega (arith, chain_below.0, v.sized)),
        )

  pub queue_request_short :
      (q : VirtQueue) (fs : List ℕ)
      → FreeList q fs
      → length fs < 3
      → (q' : VirtQueue) × (queue_request rp dp len sp w q ≡ done (err out_of_memory, q'))
        × FreeList q' []
        × (q'.mem ≡ q.mem)
        × (q'.num ≡ q.num)
        × (q'.last_used_idx ≡ q.last_used_idx)
  unfolding queue_request
  queue_request_short q [] v h = (q, rw (take_desc_empty out_of_memory q v), v, refl, refl, refl)
  queue_request_short q (a ∷ []) v h = (
    popped q,
    rw (
      take_desc-popped out_of_memory q a [] v,
      take_desc_empty out_of_memory (popped q) (popped-FreeList q a [] v),
    ),
    popped-FreeList q a [] v,
    refl,
    refl,
    refl,
  )
  queue_request_short q (a ∷ b ∷ []) v h =
      let p1 = popped-FreeList q a (b ∷ []) v in
      let p2 = popped-FreeList (popped q) b [] p1 in
      (
        popped (popped q),
        rw (
          take_desc-popped out_of_memory q a (b ∷ []) v,
          take_desc-popped out_of_memory (popped q) b [] p1,
          take_desc_empty out_of_memory (popped (popped q)) p2,
        ),
        p2,
        refl,
        refl,
        refl,
      )
  queue_request_short q (a ∷ b ∷ c ∷ fs) v h = absurd (omega arith)
