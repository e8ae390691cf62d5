-- ===== src/Uart/Pushing.antt =====
-- `process_rx_ring` moves bytes from the software buffer to the RX ring, in order.
use mathlib.Core.List.{append_assoc}
use glenda_drivers.Prelude.{
  ℕ, zero, suc, ◌+◌, ◌%◌, ◌≤◌, ◌<◌, ◌≡◌, refl, sym, ap, ap₂, subst, ◌∙◌, true, false, Option, none,
  some, List, [], ◌∷◌, ◌++◌, length, take, drop, arith, done, ltb, Bool-cases, Option-cases, inl,
  inr, ◌==◌, length-drop, length-take, either,
}
use glenda_drivers.Glenda.{RingServer}
use glenda_drivers.Prelude.Int.{as_i32}
use glenda_drivers.Uart.State.{Ns16550a, RingBuffer, Deque, front_len, pop_fronts}
use glenda_drivers.Uart.Device.{Serial}
use glenda_drivers.Uart.Receive.{is_empty, count_full, push_loop, notify_reader, process_rx_ring}
use glenda_drivers.Uart.Streams.{RingLaws, in_ring, IsReady, Ready, Kept}

pub take-drop : {A : Type 0} (n : ℕ) (xs : List A) → take n xs ++ drop n xs ≡ xs
take-drop zero xs = refl
take-drop (suc n) [] = refl
take-drop (suc n) (x ∷ xs) = ap (λ t. x ∷ t) (take-drop n xs)

pub take-take : {A : Type 0} (m n : ℕ) (xs : List A) → m ≤ n → take m (take n xs) ≡ take m xs
take-take zero n xs h = refl
take-take (suc m) zero xs h = absurd (omega arith)
take-take (suc m) (suc n) [] h = refl
take-take (suc m) (suc n) (x ∷ xs) h = ap (λ t. x ∷ t) (take-take m n xs (omega arith))

drop-nil : {A : Type 0} (n : ℕ) → drop {A = A} n [] ≡ []
drop-nil zero = refl
drop-nil (suc n) = refl

pop_fronts-drop :
    (capacity n hd : ℕ) (xs : List ℕ)
    → (pop_fronts capacity n (record { head = hd; items = xs })).items ≡ drop n xs
pop_fronts-drop capacity zero hd xs = refl
pop_fronts-drop capacity (suc n) hd [] = pop_fronts-drop capacity n hd [] ∙ drop-nil n
pop_fronts-drop capacity (suc n) hd (x ∷ xs) = pop_fronts-drop capacity n ((hd + 1) % capacity) xs

pop_fronts-head :
    (capacity n hd : ℕ) (xs : List ℕ)
    → hd < capacity
    → (pop_fronts capacity n (record { head = hd; items = xs })).head < capacity
pop_fronts-head capacity zero hd xs h = h
pop_fronts-head capacity (suc n) hd [] h = pop_fronts-head capacity n hd [] h
pop_fronts-head capacity (suc n) hd (x ∷ xs) h =
    pop_fronts-head capacity n ((hd + 1) % capacity) xs (omega arith)

is_empty-length : (xs : List ℕ) → is_empty xs ≡ false → 0 < length xs
is_empty-length [] e = absurd (ground arith)
is_empty-length (x ∷ xs) e = omega arith

module _ {R : Type 0} {rb : RingBuffer R} (laws : RingLaws rb) (capacity : ℕ) where
  -- One push of the front slice: how much was taken, the ring after it, and the buffer after it.
  abbrev taken : R → Deque → ℕ
  taken r q = (rb.push_slice r (take (front_len capacity q) q.items)).0

  abbrev ring_after : R → Deque → R
  ring_after r q = (rb.push_slice r (take (front_len capacity q) q.items)).1

  abbrev buffer_after : R → Deque → Deque
  buffer_after r q = pop_fronts capacity (taken r q) q

  push_moves :
      (r : R) (q : Deque)
      → laws.bytes (ring_after r q) ++ (buffer_after r q).items ≡ laws.bytes r ++ q.items
  push_moves r q =
      let n : ℕ = front_len capacity q in
      let small : taken r q ≤ n =
        omega (arith, laws.push_count r (take n q.items), length-take n q.items) in
      ap₂ (λ xs ys. xs ++ ys) (laws.push_bytes r (take n q.items))
        (pop_fronts-drop capacity (taken r q) q.head q.items)
      ∙ append_assoc (laws.bytes r) (take (taken r q) (take n q.items)) (drop (taken r q) q.items)
      ∙ ap (λ t. laws.bytes r ++ t)
          (ap (λ t. t ++ drop (taken r q) q.items) (take-take (taken r q) n q.items small)
            ∙ take-drop (taken r q) q.items)

module _ {R S D : Type 0} {rb : RingBuffer R} (laws : RingLaws rb) (io : RingServer S)
    (capacity : ℕ) where
  -- What the loop leaves alone, and what it moves.
  abbrev Moves : R → Ns16550a R S D → R → Ns16550a R S D → Type 0
  Moves r s r' s' =
      (laws.bytes r' ++ s'.rx_buffer.items ≡ laws.bytes r ++ s.rx_buffer.items)
      × (length s'.rx_buffer.items ≤ length s.rx_buffer.items)
      × (s'.rx_buffer.head < capacity)
      × (s'.base ≡ s.base)
      × (s'.tx_ring ≡ s.tx_ring)
      × (s'.device ≡ s.device)

  abbrev popped : R → Ns16550a R S D → Ns16550a R S D
  popped r s = record s { rx_buffer = buffer_after laws capacity r s.rx_buffer }

  popped-Moves :
      (r : R) (s : Ns16550a R S D)
      → s.rx_buffer.head < capacity
      → Moves r s (ring_after laws capacity r s.rx_buffer) (popped r s)
  popped-Moves r s hd = (
    push_moves laws capacity r s.rx_buffer,
    omega (
      arith,
      length-drop (taken laws capacity r s.rx_buffer) s.rx_buffer.items,
      ap length (
          pop_fronts-drop capacity (taken laws capacity r s.rx_buffer) s.rx_buffer.head
            s.rx_buffer.items),
    ),
    pop_fronts-head capacity (taken laws capacity r s.rx_buffer) s.rx_buffer.head s.rx_buffer.items
        hd,
    refl,
    refl,
    refl,
  )

  -- The rounds of the loop.
  push_loop-empty :
      (rounds : ℕ) (r : R) (total : ℕ) (s : Ns16550a R S D)
      → is_empty s.rx_buffer.items ≡ true
      → push_loop rb io capacity (suc rounds) r total s ≡ done (total, r, s)
  unfolding push_loop
  push_loop-empty rounds r total s e = simp (push_loop, e)

  module _ (rounds : ℕ) (r : R) (total : ℕ) (s : Ns16550a R S D)
      (some_left : is_empty s.rx_buffer.items ≡ false)
      (front : (front_len capacity s.rx_buffer == 0) ≡ false) where
    push_loop-none :
        (taken laws capacity r s.rx_buffer == 0) ≡ true
        → push_loop rb io capacity (suc rounds) r total s
          ≡ done (total, ring_after laws capacity r s.rx_buffer, count_full rb io capacity s)
    unfolding push_loop
    push_loop-none none_taken = simp (push_loop, some_left, front, none_taken)

    push_loop-some :
        (taken laws capacity r s.rx_buffer == 0) ≡ false
        → ltb (taken laws capacity r s.rx_buffer) (front_len capacity s.rx_buffer) ≡ true
        → push_loop rb io capacity (suc rounds) r total s
          ≡ done (
            total + taken laws capacity r s.rx_buffer,
            ring_after laws capacity r s.rx_buffer,
            count_full rb io capacity (popped r s),
          )
    unfolding push_loop
    push_loop-some a b = simp (push_loop, some_left, front, a, b)

    push_loop-all :
        (taken laws capacity r s.rx_buffer == 0) ≡ false
        → ltb (taken laws capacity r s.rx_buffer) (front_len capacity s.rx_buffer) ≡ false
        → push_loop rb io capacity (suc rounds) r total s
          ≡ push_loop rb io capacity rounds
              (ring_after laws capacity r s.rx_buffer)
              (total + taken laws capacity r s.rx_buffer)
              (popped r s)
    unfolding push_loop
    push_loop-all a b = simp (push_loop, some_left, front, a, b)

  none_taken :
      (r : R) (s : Ns16550a R S D)
      → (taken laws capacity r s.rx_buffer == 0) ≡ true
      → s.rx_buffer.head < capacity
      → Moves r s (ring_after laws capacity r s.rx_buffer) (count_full rb io capacity s)
  none_taken r s a hd =
      let zero_taken : taken laws capacity r s.rx_buffer ≡ 0 = ground arith in
      (
        ap
              (λ n.
                laws.bytes (ring_after laws capacity r s.rx_buffer)
                ++ (pop_fronts capacity n s.rx_buffer).items)
              (sym zero_taken)
            ∙ push_moves laws capacity r s.rx_buffer,
        omega arith,
        hd,
        refl,
        refl,
        refl,
      )

  shorter :
      (r : R) (s : Ns16550a R S D)
      → (taken laws capacity r s.rx_buffer == 0) ≡ false
      → is_empty s.rx_buffer.items ≡ false
      → length (popped r s).rx_buffer.items < length s.rx_buffer.items
  shorter r s a e =
      let pos : 0 < taken laws capacity r s.rx_buffer = ground arith in
      omega (
        arith,
        pos,
        is_empty-length s.rx_buffer.items e,
        length-drop (taken laws capacity r s.rx_buffer) s.rx_buffer.items,
        ap length (
            pop_fronts-drop capacity (taken laws capacity r s.rx_buffer) s.rx_buffer.head
              s.rx_buffer.items),
      )

  push_loop-Moves :
      (rounds : ℕ) (r : R) (total : ℕ) (s : Ns16550a R S D)
      → s.rx_buffer.head < capacity
      → length s.rx_buffer.items < rounds
      → (total' : ℕ) × (r' : R) × (s' : Ns16550a R S D) × (push_loop rb io capacity rounds r total s
          ≡ done (total', r', s'))
        × Moves r s r' s'
  push_loop-Moves zero r total s hd h = absurd (omega arith)
  push_loop-Moves (suc rounds) r total s hd h = elim (Bool-cases (is_empty s.rx_buffer.items)) [
    | inl e ↦
        (total, r, s, push_loop-empty rounds r total s e, (refl, omega arith, hd, refl, refl, refl))
    | inr e ↦
        let front : (front_len capacity s.rx_buffer == 0) ≡ false =
          ground (arith, is_empty-length s.rx_buffer.items e, hd) in
        let q = s.rx_buffer in
        elim (Bool-cases (taken laws capacity r q == 0)) [
          | inl a ↦ (
            total,
            ring_after laws capacity r q,
            count_full rb io capacity s,
            push_loop-none rounds r total s e front a,
            none_taken r s a hd,
          )
          | inr a ↦ elim (Bool-cases (ltb (taken laws capacity r q) (front_len capacity q))) [
            | inl b ↦ (
              total + taken laws capacity r q,
              ring_after laws capacity r q,
              count_full rb io capacity (popped r s),
              push_loop-some rounds r total s e front a b,
              popped-Moves r s hd,
            )
            | inr b ↦
                let m = popped-Moves r s hd in
                let (total', r', s', run, m') =
                  push_loop-Moves rounds (ring_after laws capacity r q)
                    (total + taken laws capacity r q) (popped r s) m.2
                    (omega (arith, h, shorter r s a e)) in
                (
                  total',
                  r',
                  s',
                  push_loop-all rounds r total s e front a b ∙ run,
                  (m'.0 ∙ m.0, omega (arith, m'.1, m.1), m'.2, m'.3, m'.4, m'.5),
                )
          ]
        ]
  ]

module _ {R S : Type 0} {rb : RingBuffer R} (laws : RingLaws rb) (io : RingServer S)
    (base capacity fuel : ℕ) where
  abbrev Keeps : Ns16550a R S Serial → Ns16550a R S Serial → Type 0
  Keeps s s' = Kept laws base capacity fuel s s'

  -- A pending read that is answered changes nothing but the ring server.
  notify_reader-Kept :
      (total : ℕ) (s t : Ns16550a R S Serial)
      → Keeps s t
      → Keeps s (notify_reader rb io capacity total t)
  unfolding notify_reader
  notify_reader-Kept total s t k = either (ltb 0 total) (Keeps s) _ t (told t.pending_read t.ring) k
    where
      told :
          (p : Option ℕ) (o : Option S)
          → Keeps s (elim p [
            | none ↦ t
            | some ud ↦ elim o [
              | none ↦ t
              | some server ↦ record t { ring = some (io.complete server ud (as_i32 total)).1 }
            ]
          ])
      told none o = k
      told (some ud) none = k
      told (some ud) (some server) = k

  Moves-Kept :
      (r r' : R) (s s' : Ns16550a R S Serial)
      → s.rx_ring ≡ some r
      → Ready laws base capacity fuel s
      → Moves laws io capacity r s r' s'
      → Keeps s (record s' { rx_ring = some r' })
  Moves-Kept r r' s s' e v m = (
    ap₂ (λ xs (d : Serial). xs ++ d.fifo) m.0 m.5
        ∙ ap (λ o. in_ring laws o ++ s.rx_buffer.items ++ s.device.fifo) (sym e),
    ap₂ (λ (d : Serial) o. d.sent ++ in_ring laws o) m.5 m.4,
    subst (λ d. IsReady base capacity fuel s'.base s'.rx_buffer d) (sym m.5)
        (record {
          at_base = m.3 ∙ v.at_base;
          room = omega (arith, m.1, v.room);
          slots = v.slots;
          head = m.2;
          fuel_rx = v.fuel_rx;
          fuel_tx = v.fuel_tx;
          busy = v.busy;
          closed = v.closed;
        }),
  )

  pub process_rx_ring-Kept :
      (s : Ns16550a R S Serial)
      → Ready laws base capacity fuel s
      → (s' : Ns16550a R S Serial) × (process_rx_ring rb io capacity s ≡ done s') × Keeps s s'
  unfolding process_rx_ring
  process_rx_ring-Kept s v = elim (Option-cases s.rx_ring) [
    | inl e ↦ (s, simp (process_rx_ring, e), (refl, refl, v))
    | inr (r, e) ↦
        let (total, r', s', run, m) =
          push_loop-Moves laws io capacity (suc (length s.rx_buffer.items)) r 0 s v.head
            (omega arith) in
        let t : Ns16550a R S Serial = record s' { rx_ring = some r' } in
        (
          notify_reader rb io capacity total t,
          simp (process_rx_ring, e, run),
          notify_reader-Kept total s t (Moves-Kept r r' s s' e v m),
        )
  ]
