-- ===== src/Virtio/Net/Lane/Emptying.antt =====
-- The loops of `handle_irq` over a used ring.
use glenda_drivers.Prelude.{
  ℕ, zero, suc, ◌<◌, ◌≡◌, refl, sym, ◌∙◌, subst, List, ◌∷◌, Option, none, some, arith, set,
  get_elem?, done, inl, inr, length-set, get_or, get_elem?-eq-get_or,
}
use glenda_drivers.Glenda.{RingServer}
use glenda_drivers.Virtio.Queue.{VirtQueue, pop}
use glenda_drivers.Virtio.Chains.{free_chain}
use glenda_drivers.Virtio.Chains.Giving.{push_all, push_all-SameRings}
use glenda_drivers.Virtio.Chains.Pending.{free_chain-freed, freed-Books}
use glenda_drivers.Virtio.Block.Freeing.{stepped, pop_bounds}
use glenda_drivers.Virtio.Net.Lane.{Side, result_of, backlog, finish_one, drain_loop, drain}
use glenda_drivers.Virtio.Net.Lane.Invariant.{IsSound, NamesHeads}

module _ {S : Type 0} (io : RingServer S) (side : Side) where
  abbrev Found : Type 0
  Found = VirtQueue × List (Option (ℕ × ℕ)) × S

  finish_one_empty :
      (id len : ℕ) (q : VirtQueue) (pending : List (Option (ℕ × ℕ))) (server : S)
      → get_elem? pending id ≡ some none
      → finish_one io side id len q pending server ≡ done (q, pending, server)
  unfolding finish_one
  finish_one_empty id len q pending server e = rw (e, finish_one)

  finish_one_held :
      (id len : ℕ) (q q' : VirtQueue) (pending : List (Option (ℕ × ℕ))) (server : S)
      (user_data head : ℕ)
      → get_elem? pending id ≡ some (some (user_data, head))
      → free_chain q.num q head ≡ done q'
      → finish_one io side id len q pending server
        ≡ done (q', set pending id none, (io.complete server user_data (result_of side len)).1)
  unfolding finish_one
  finish_one_held id len q q' pending server ud head e run = rw (e, finish_one, run)

  -- An entry is handled, and the indices of the used ring stay.
  finish_one_sound :
      (id len : ℕ) (q : VirtQueue) (pending : List (Option (ℕ × ℕ))) (server : S)
      → id < 128
      → IsSound q pending
      → (q' : VirtQueue) × (p' : List (Option (ℕ × ℕ))) × (server' : S) × (finish_one io side id len
            q pending server
          ≡ done (q', p', server'))
        × IsSound q' p'
        × (backlog q' ≡ backlog q)
  finish_one_sound id len q pending server small (fs, own, v) =
      by_slot (get_or pending id none)
        (get_elem?-eq-get_or pending id none (omega (arith, v.slots)))
    where
      by_slot :
          (x : Option (ℕ × ℕ))
          → get_elem? pending id ≡ some x
          → (q' : VirtQueue) × (p' : List (Option (ℕ × ℕ))) × (server' : S) × (finish_one io side id
                len q pending server
              ≡ done (q', p', server'))
            × IsSound q' p'
            × (backlog q' ≡ backlog q)
      by_slot none at =
          (q, pending, server, finish_one_empty id len q pending server at, (fs, own, v), refl)
      by_slot (some (ud, head)) at =
          let (xs, f) = v.books.flights id ud head at in
          let same = push_all-SameRings q (head ∷ xs) in
          (
            push_all q (head ∷ xs),
            set pending id none,
            (io.complete server ud (result_of side len)).1,
            finish_one_held id len q _ pending server ud head at
                (free_chain-freed q pending fs own v.books id ud head xs at f),
            (
              _,
              _,
              record {
                books = freed-Books q pending fs own v.books id ud head xs at f;
                slots = length-set pending id none ∙ v.slots;
                size = same.num ∙ v.size;
                names = subst NamesHeads (sym same.used) v.names;
              },
            ),
            simp (same.last_used_idx, same.used_idx),
          )

  drain_loop_dry :
      (fuel : ℕ) (q : VirtQueue) (pending : List (Option (ℕ × ℕ))) (server : S)
      → pop q ≡ done (none, q)
      → drain_loop io side (suc fuel) q pending server ≡ done (q, pending, server)
  unfolding drain_loop
  drain_loop_dry fuel q pending server e = rw (e, drain_loop)

  drain_loop_next :
      (fuel id len : ℕ) (q q' q'' : VirtQueue) (pending p' : List (Option (ℕ × ℕ)))
      (server server' : S)
      → pop q ≡ done (some (id, len), q')
      → finish_one io side id len q' pending server ≡ done (q'', p', server')
      → drain_loop io side (suc fuel) q pending server ≡ drain_loop io side fuel q'' p' server'
  unfolding drain_loop
  drain_loop_next fuel id len q q' q'' pending p' server server' e run = rw (e, drain_loop, run)

  stepped-IsSound :
      (q : VirtQueue) (pending : List (Option (ℕ × ℕ)))
      → IsSound q pending
      → IsSound (stepped q) pending
  stepped-IsSound q pending (fs, own, v) = (
    fs,
    own,
    record {
      books = record {
        rings = record {
          positive = v.books.rings.positive;
          cursor = omega arith;
          index = v.books.rings.index;
          used_room = v.books.rings.used_room;
        };
        free_list = record {
          sized = v.books.free_list.sized;
          fits = v.books.free_list.fits;
          linked = v.books.free_list.linked;
          counted = v.books.free_list.counted;
          distinct = v.books.free_list.distinct;
        };
        free_owned = v.books.free_owned;
        flights = v.books.flights;
      };
      slots = v.slots;
      size = v.size;
      names = v.names;
    },
  )

  drain_loop_sound :
      (fuel : ℕ) (q : VirtQueue) (pending : List (Option (ℕ × ℕ))) (server : S)
      → IsSound q pending
      → backlog q < fuel
      → (q' : VirtQueue) × (p' : List (Option (ℕ × ℕ))) × (server' : S) × (drain_loop io side fuel q
            pending server
          ≡ done (q', p', server'))
        × IsSound q' p'
        × (backlog q' ≡ 0)
  drain_loop_sound zero q pending server v h = absurd (omega arith)
  drain_loop_sound (suc fuel) q pending server v h = elim (pop_bounds q v.2.books.rings) [
    | inl (dry, e) ↦ (q, pending, server, drain_loop_dry fuel q pending server e, v, dry)
    | inr (x, at, e, less) ↦
        let (q1, p1, server1, run, v1, same) =
          finish_one_sound x.id x.len (stepped q) pending server (v.2.names _ x at)
            (stepped-IsSound q pending v) in
        let (q2, p2, server2, rest, v2, dry) =
          drain_loop_sound fuel q1 p1 server1 v1 (omega (arith, less, h, same)) in
        (
          q2,
          p2,
          server2,
          drain_loop_next fuel x.id x.len q (stepped q) q1 pending p1 server server1 e run ∙ rest,
          v2,
          dry,
        )
  ]

  -- As long as the device names descriptors of the queue, all used entries are taken, and the queue is
  -- sound.
  pub drain_sound :
      (q : VirtQueue) (pending : List (Option (ℕ × ℕ))) (server : S)
      → IsSound q pending
      → (q' : VirtQueue) × (p' : List (Option (ℕ × ℕ))) × (server' : S) × (drain io side q pending
            server
          ≡ done (q', p', server'))
        × IsSound q' p'
        × (backlog q' ≡ 0)
  unfolding drain
  drain_sound q pending server v =
      drain_loop_sound (suc (backlog q)) q pending server v (omega arith)
