-- ===== src/Services/Strangers.antt =====
-- Messages of strangers: what a service does once a client is connected.
use glenda_drivers.Prelude.{
  ℕ, ◌≡◌, refl, Bool, true, false, Option, some, Outcome, done, fault, List, [], ◌∷◌, if◌then◌else◌,
  arith, not, ◌&&◌, ◌||◌, ◌==◌, ap, sym, ◌∙◌, subst, done-injective,
}
use glenda_drivers.Prelude.Handlers.{Result, err, Handler}
use glenda_drivers.Glenda.{Error, permission_denied}
use glenda_drivers.Services.Kernel.{Utcb}
use glenda_drivers.Services.Calls.{Call, claimed, guarded, stranger}
use glenda_drivers.Services.Run.{failed, joined, proceed, concluded, turn, run}
use glenda_drivers.Services.Clients.{Keeps, kept}

pub claimed-some : (badge c : ℕ) (o : Option ℕ) → o ≡ some c → claimed badge o ≡ some c
claimed-some badge c o h = rw h refl

-- A message that the client `c` may rely on being served: its own, the kernel's, or one without a badge.
abbrev pub admitted : ℕ → ℕ → Utcb → Bool
admitted kp c u = u.badge == 0 || (u.badge == c || u.proto == kp)

bools_lem : (a b c : Bool) → (not a && (not b && not c)) ≡ not (a || (b || c))
bools_lem true b c = refl
bools_lem false true c = refl
bools_lem false false c = refl

==_comm : (a b : ℕ) → (a == b) ≡ (b == a)
==_comm a b = ground arith

stranger_lem : (kp c : ℕ) (u : Utcb) → stranger kp (some c) u ≡ not (admitted kp c u)
stranger_lem kp c u =
    ap (λ b. not (u.badge == 0) && (not b && not (u.proto == kp))) (==_comm c u.badge)
    ∙ bools_lem (u.badge == 0) (u.badge == c) (u.proto == kp)

-- The messages that are admitted.
abbrev pub own : ℕ → ℕ → List Utcb → List Utcb
own kp c [] = []
own kp c (u ∷ us) = let rest = own kp c us in if admitted kp c u then u ∷ rest else rest

-- The answers to a message, if it is admitted or not, and to those behind it.
abbrev pub place :
    Bool
    → Option Utcb
    → (List (Option Utcb) → List (Option Utcb))
    → List (Option Utcb)
    → List (Option Utcb)
place false refusal rest answers = refusal ∷ rest answers
place true refusal rest [] = []
place true refusal rest (a ∷ answers) = a ∷ rest answers

-- Puts the refusal of each message that is not admitted among the answers of the others.
abbrev pub with_refusals : ℕ → (Error → ℕ) → ℕ → List Utcb → List (Option Utcb) → List (Option Utcb)
with_refusals kp code c [] answers = answers
with_refusals kp code c (u ∷ us) answers =
    place (admitted kp c u) (some (failed code permission_denied u)) (with_refusals kp code c us)
      answers

module _ {V K : Type 0} where
  abbrev pub refusing :
      ℕ
      → (Error → ℕ)
      → ℕ
      → List Utcb
      → Outcome (List (Option Utcb) × V × K)
      → Outcome (List (Option Utcb) × V × K)
  refusing kp code c us fault = fault
  refusing kp code c us (done (answers, v, k)) = done (with_refusals kp code c us answers, v, k)

  refusing_stranger :
      (kp : ℕ) (code : Error → ℕ) (c : ℕ) (u : Utcb) (us : List Utcb)
      (o : Outcome (List (Option Utcb) × V × K))
      → admitted kp c u ≡ false
      → refusing kp code c (u ∷ us) o
        ≡ joined (some (failed code permission_denied u)) (refusing kp code c us o)
  refusing_stranger kp code c u us fault e = refl
  refusing_stranger kp code c u us (done (answers, v, k)) e =
      ap
        (λ b. done (
          place b (some (failed code permission_denied u)) (with_refusals kp code c us) answers,
          v,
          k,
        ))
        e

  refusing_own :
      (kp : ℕ) (code : Error → ℕ) (c : ℕ) (u : Utcb) (us : List Utcb) (a : Option Utcb)
      (o : Outcome (List (Option Utcb) × V × K))
      → admitted kp c u ≡ true
      → refusing kp code c (u ∷ us) (joined a o) ≡ joined a (refusing kp code c us o)
  refusing_own kp code c u us a fault e = refl
  refusing_own kp code c u us a (done (answers, v, k)) e =
      ap
        (λ b. done (
          place b (some (failed code permission_denied u)) (with_refusals kp code c us)
              (a ∷ answers),
          v,
          k,
        ))
        e

module _ {V K : Type 0} (kp : ℕ) (code : Error → ℕ) (client : V → Option ℕ)
    (arms : Handler (Call V K) Error (Unit {0})) (c : ℕ) where
  guarded_stranger :
      (s : Call V K)
      → client s.service ≡ some c
      → admitted kp c s.utcb ≡ false
      → guarded kp client arms s ≡ done (err permission_denied, s)
  unfolding guarded
  guarded_stranger s h e = simp (h, stranger_lem kp c s.utcb ∙ ap not e)

  turn_stranger :
      (u : Utcb) (v : V) (k : K)
      → client v ≡ some c
      → admitted kp c u ≡ false
      → turn code (guarded kp client arms) u v k
        ≡ done (some (failed code permission_denied u), v, k)
  unfolding turn
  turn_stranger u v k h e =
      ap (concluded code) (guarded_stranger (record { service = v; kernel = k; utcb = u }) h e)

  pub guarded-client :
      Keeps (λ v. client v ≡ some c) arms → Keeps (λ v. client v ≡ some c) (guarded kp client arms)
  unfolding guarded
  guarded-client keeps = record {
    at = λ s s' r e h. by_test s s' r h (stranger kp (client s.service) s.utcb) e;
  }
    where
      by_test :
          (s s' : Call V K) (r : Result Error (Unit {0}))
          → client s.service ≡ some c
          → (b : Bool)
          → ◌≡◌ {A = Outcome (Result Error (Unit {0}) × Call V K)}
              (if b then done (err permission_denied, s) else arms s)
              (done (r, s'))
          → client s'.service ≡ some c
      by_test s s' r h true e =
          kept (λ v. client v ≡ some c) s s s' r (err permission_denied) refl e h
      by_test s s' r h false e = keeps.at s s' r e h

  turn-client :
      Keeps (λ v. client v ≡ some c) arms
      → (u : Utcb) (v v' : V) (k k' : K) (a : Option Utcb) → client v ≡ some c
      → turn code (guarded kp client arms) u v k ≡ done (a, v', k')
      → client v' ≡ some c
  unfolding turn
  turn-client keeps u v v' k k' a h e = by_result (guarded kp client arms s) refl e
    where
      s : Call V K
      s = record { service = v; kernel = k; utcb = u }

      by_result :
          (o : Outcome (Result Error (Unit {0}) × Call V K))
          → guarded kp client arms s ≡ o
          → concluded code o ≡ done (a, v', k')
          → client v' ≡ some c
      by_result fault q x = cc
      by_result (done (r, t)) q x =
          subst (λ w. client w ≡ some c) (ap (λ (y : Option Utcb × V × K). y.1) (done-injective x))
            ((guarded-client keeps).at s t r q h)

  abbrev served : List Utcb → V → K → Outcome (List (Option Utcb) × V × K)
  served = run code (guarded kp client arms)

  -- What is claimed of `us`.
  Ignored : List Utcb → Type 0
  Ignored us =
      (v : V) (k : K)
      → client v ≡ some c
      → served us v k ≡ refusing kp code c us (served (own kp c us) v k)

  run-own_at_stranger :
      (u : Utcb) (us : List Utcb)
      → admitted kp c u ≡ false
      → Ignored us
      → (v : V) (k : K) → client v ≡ some c
      → served (u ∷ us) v k ≡ refusing kp code c (u ∷ us) (served (own kp c us) v k)
  unfolding run Ignored
  run-own_at_stranger u us e ih v k h =
      ap (proceed (served us)) (turn_stranger u v k h e)
      ∙ ap (joined (some (failed code permission_denied u))) (ih v k h)
      ∙ sym (refusing_stranger kp code c u us (served (own kp c us) v k) e)

  run-own_at_other :
      Keeps (λ v. client v ≡ some c) arms
      → (u : Utcb) (us : List Utcb) → admitted kp c u ≡ true
      → Ignored us
      → (v : V) (k : K) → client v ≡ some c
      → served (u ∷ us) v k ≡ refusing kp code c (u ∷ us) (served (u ∷ own kp c us) v k)
  unfolding run Ignored
  run-own_at_other keeps u us e ih v k h = by_turn (turn code (guarded kp client arms) u v k) refl
    where
      by_turn :
          (o : Outcome (Option Utcb × V × K))
          → turn code (guarded kp client arms) u v k ≡ o
          → served (u ∷ us) v k ≡ refusing kp code c (u ∷ us) (served (u ∷ own kp c us) v k)
      by_turn fault q =
          ap (proceed (served us)) q
          ∙ sym (ap (λ o. refusing kp code c (u ∷ us) (proceed (served (own kp c us)) o)) q)
      by_turn (done (a, v', k')) q =
          ap (proceed (served us)) q
          ∙ ap (joined a) (ih v' k' (turn-client keeps u v v' k k' a h q))
          ∙ sym (refusing_own kp code c u us a (served (own kp c us) v' k') e)
          ∙ sym (ap (λ o. refusing kp code c (u ∷ us) (proceed (served (own kp c us)) o)) q)

  ignored :
      Keeps (λ v. client v ≡ some c) arms
      → (u : Utcb) (us : List Utcb) → Ignored us
      → (v : V) (k : K) → client v ≡ some c
      → (b : Bool) → admitted kp c u ≡ b
      → served (u ∷ us) v k
        ≡ refusing kp code c (u ∷ us) (served (if b then u ∷ own kp c us else own kp c us) v k)
  ignored keeps u us ih v k h false e = run-own_at_stranger u us e ih v k h
  ignored keeps u us ih v k h true e = run-own_at_other keeps u us e ih v k h

  -- With `c` connected, the service does what it would do if the strangers' messages did not arrive, and
  -- each of these is refused.
  pub run-own :
      Keeps (λ v. client v ≡ some c) arms
      → (us : List Utcb) (v : V) (k : K) → client v ≡ some c
      → run code (guarded kp client arms) us v k
        ≡ refusing kp code c us (run code (guarded kp client arms) (own kp c us) v k)
  unfolding run Ignored
  run-own keeps [] v k h = refl
  run-own keeps (u ∷ us) v k h = ignored keeps u us (run-own keeps us) v k h (admitted kp c u) refl
