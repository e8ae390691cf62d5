-- ===== src/Services/Clients.antt =====
-- What the parts of a call keep of the service's state, one rule for each way to build a handler.
use glenda_drivers.Prelude.{
  ℕ, ◌≡◌, refl, ap, sym, ◌∙◌, subst, Bool, true, false, if◌then◌else◌, Option, none, some, List,
  Outcome, done, fault, done-injective,
}
use glenda_drivers.Prelude.Handlers.{Result, ok, err, Handler, pure, fail, after, ◌>>=◌}
use glenda_drivers.Glenda.{Error}
use glenda_drivers.Services.Kernel.{Utcb}
use glenda_drivers.Services.Calls.{
  Call, get_mr, set_mr, change, read_utcb, read_service, alter_part, on_part, ask_part, set_buffer,
  check, accepted, attempt, drive, query, ask, when, wrap,
}

-- Where `m` returns, `P` still holds of the service, success or error.
pub record Keeps {V K A : Type 0} (P : V → Type 0) (m : Handler (Call V K) Error A) : Type 0 where
  pub at : (s s' : Call V K) (r : Result Error A) → m s ≡ done (r, s') → P s.service → P s'.service

-- The service is left alone.
pub kept :
    {V K A : Type 0} (P : V → Type 0) (s t s' : Call V K) (r r' : Result Error A)
    → t.service ≡ s.service
    → ◌≡◌ {A = Outcome (Result Error A × Call V K)} (done (r', t)) (done (r, s'))
    → P s.service
    → P s'.service
kept {V} {K} {A} P s t s' r r' same e h =
    subst P (sym same ∙ ap (λ (x : Result Error A × Call V K). x.1.service) (done-injective e)) h

module _ {V K : Type 0} (P : V → Type 0) where
  pub Keeps-get_mr : (i : ℕ) → Keeps {K = K} P (get_mr i)
  unfolding get_mr
  Keeps-get_mr i = record { at = λ s s' r e h. kept P s s s' r (ok (s.utcb.mr i)) refl e h }

  pub Keeps-set_mr : (i v : ℕ) → Keeps {K = K} P (set_mr i v)
  unfolding set_mr
  Keeps-set_mr i v = record { at = λ s s' r e h. kept P s _ s' r (ok tt) refl e h }

  pub Keeps-read_utcb : Keeps {K = K} P read_utcb
  unfolding read_utcb
  Keeps-read_utcb = record { at = λ s s' r e h. kept P s s s' r (ok s.utcb) refl e h }

  pub Keeps-read_service : Keeps {K = K} P read_service
  unfolding read_service
  Keeps-read_service = record { at = λ s s' r e h. kept P s s s' r (ok s.service) refl e h }

  pub Keeps-change : (f : V → V) → ((v : V) → P v → P (f v)) → Keeps {K = K} P (change f)
  unfolding change
  Keeps-change f k = record {
    at = λ s s' r e h.
        subst P (ap (λ (x : Result Error (Unit {0}) × Call V K). x.1.service) (done-injective e))
          (k s.service h);
  }

  pub Keeps-drive :
      (f : V → Outcome V) → ((v v' : V) → f v ≡ done v' → P v → P v') → Keeps {K = K} P (drive f)
  unfolding drive
  Keeps-drive f k = record { at = λ s s' r e h. by_result s s' r h (f s.service) refl e }
    where
      by_result :
          (s s' : Call V K) (r : Result Error (Unit {0}))
          → P s.service
          → (o : Outcome V) → f s.service ≡ o
          → ◌≡◌ {A = Outcome (Result Error (Unit {0}) × Call V K)}
              (elim o [ fault ↦ fault | done v ↦ done (ok tt, record s { service = v }) ])
              (done (r, s'))
          → P s'.service
      by_result s s' r h fault q e = cc
      by_result s s' r h (done v) q e =
          subst P (ap (λ (x : Result Error (Unit {0}) × Call V K). x.1.service) (done-injective e))
            (k s.service v q h)

  pub Keeps-when :
      (b : Bool) (m : Handler (Call V K) Error (Unit {0})) → Keeps P m → Keeps P (when b m)
  unfolding when
  Keeps-when true m k = record { at = λ s s' r e h. k.at s s' r e h }
  Keeps-when false m k = record { at = λ s s' r e h. kept P s s s' r (ok tt) refl e h }

  pub Keeps-set_buffer : (bytes : List ℕ) → Keeps {K = K} P (set_buffer bytes)
  unfolding set_buffer
  Keeps-set_buffer bytes = record { at = λ s s' r e h. kept P s _ s' r (ok tt) refl e h }

  pub Keeps-check : (b : Bool) → Keeps {K = K} P (check b)
  unfolding check
  Keeps-check true = record { at = λ s s' r e h. kept P s s s' r (ok tt) refl e h }
  Keeps-check false = record { at = λ s s' r e h. cc }

module _ {V K A : Type 0} (P : V → Type 0) where
  pub Keeps-attempt : (m : Handler (Call V K) Error A) → Keeps P m → Keeps P (attempt m)
  unfolding attempt
  Keeps-attempt m k = record { at = λ s s' r e h. by_result s s' r h (m s) refl e }
    where
      by_result :
          (s s' : Call V K) (r : Result Error (Unit {0}))
          → P s.service
          → (o : Outcome (Result Error A × Call V K)) → m s ≡ o
          → accepted o ≡ done (r, s')
          → P s'.service
      by_result s s' r h fault q e = cc
      by_result s s' r h (done (x, t)) q e = kept P t t s' r (ok tt) refl e (k.at s t x q h)

  pub Keeps-pure : (a : A) → Keeps {K = K} P (pure a)
  Keeps-pure a = record { at = λ s s' r e h. kept P s s s' r (ok a) refl e h }

  pub Keeps-fail : (x : Error) → Keeps {K = K} {A = A} P (fail x)
  Keeps-fail x = record { at = λ s s' r e h. kept P s s s' r (err x) refl e h }

  pub Keeps-ask : (f : K → Result Error A × K) → Keeps P (ask f)
  unfolding ask
  Keeps-ask f = record { at = λ s s' r e h. kept P s _ s' r (f s.kernel).0 refl e h }

  pub Keeps-query :
      (f : V → Outcome (Result Error A × V))
      → ((v v' : V) (r : Result Error A) → f v ≡ done (r, v') → P v → P v')
      → Keeps {K = K} P (query f)
  unfolding query
  Keeps-query f k = record { at = λ s s' r e h. by_result s s' r h (f s.service) refl e }
    where
      by_result :
          (s s' : Call V K) (r : Result Error A)
          → P s.service
          → (o : Outcome (Result Error A × V)) → f s.service ≡ o
          → ◌≡◌ {A = Outcome (Result Error A × Call V K)}
              (elim o [ fault ↦ fault | done (x, v) ↦ done (x, record s { service = v }) ])
              (done (r, s'))
          → P s'.service
      by_result s s' r h fault q e = cc
      by_result s s' r h (done (x, v)) q e =
          subst P (ap (λ (t : Result Error A × Call V K). t.1.service) (done-injective e))
            (k s.service v x q h)

  pub Keeps-wrap :
      (reply : Result Error A → Utcb → Result Error (Unit {0}) × Utcb)
      (m : Handler (Call V K) Error A)
      → Keeps P m
      → Keeps P (wrap reply m)
  unfolding wrap
  Keeps-wrap reply m k = record { at = λ s s' r e h. by_result s s' r h (m s) refl e }
    where
      by_result :
          (s s' : Call V K) (r : Result Error (Unit {0}))
          → P s.service
          → (o : Outcome (Result Error A × Call V K)) → m s ≡ o
          → ◌≡◌ {A = Outcome (Result Error (Unit {0}) × Call V K)}
              (elim o [
                | fault ↦ fault
                | done (x, t) ↦ let (r', u) = reply x t.utcb in done (r', record t { utcb = u })
              ])
              (done (r, s'))
          → P s'.service
      by_result s s' r h fault q e = cc
      by_result s s' r h (done (x, t)) q e =
          subst P (ap (λ (y : Result Error (Unit {0}) × Call V K). y.1.service) (done-injective e))
            (k.at s t x q h)

  pub Keeps-if :
      (b : Bool) (m n : Handler (Call V K) Error A)
      → Keeps P m
      → Keeps P n
      → Keeps P (if b then m else n)
  Keeps-if true m n km kn = km
  Keeps-if false m n km kn = kn

module _ {V K A B : Type 0} (P : V → Type 0) where
  pub Keeps-bind :
      (m : Handler (Call V K) Error A) (f : A → Handler (Call V K) Error B)
      → Keeps P m
      → ((a : A) → Keeps P (f a))
      → Keeps P (m >>= f)
  Keeps-bind m f km kf = record { at = λ s s' r e h. by_result s s' r h (m s) refl e }
    where
      by_result :
          (s s' : Call V K) (r : Result Error B)
          → P s.service
          → (o : Outcome (Result Error A × Call V K)) → m s ≡ o
          → after o f ≡ done (r, s')
          → P s'.service
      by_result s s' r h fault q e = cc
      by_result s s' r h (done (ok a, t)) q e = (kf a).at t s' r e (km.at s t (ok a) q h)
      by_result s s' r h (done (err x, t)) q e =
          kept P t t s' r (err x) refl e (km.at s t (err x) q h)

-- The driver inside the service changes, and `P` does not depend on it.
module _ {V B : Type 0} (P : V → Type 0) (part : V → Option B) (set : Option B → V → V) where
  pub alter_part-keeps :
      ((b : Option B) (v : V) → P v → P (set b v))
      → (f : B → B) (v : V) → P v
      → P (alter_part part set f v)
  alter_part-keeps stable f v h = by_part (part v)
    where
      by_part : (o : Option B) → P (elim o [ none ↦ v | some b ↦ set (some (f b)) v ])
      by_part none = h
      by_part (some b) = stable (some (f b)) v h

  pub on_part-keeps :
      ((b : Option B) (v : V) → P v → P (set b v))
      → (f : B → Outcome B) (v v' : V) → on_part part set f v ≡ done v'
      → P v
      → P v'
  on_part-keeps stable f v v' e h = by_part (part v) e
    where
      by_result :
          (o : Outcome B)
          → ◌≡◌ {A = Outcome V}
              (elim o [ fault ↦ fault | done b' ↦ done (set (some b') v) ])
              (done v')
          → P v'
      by_result fault x = cc
      by_result (done b') x = subst P (done-injective x) (stable (some b') v h)

      by_part :
          (o : Option B)
          → ◌≡◌ {A = Outcome V}
              (elim o [
                | none ↦ done v
                | some b ↦ elim (f b) [ fault ↦ fault | done b' ↦ done (set (some b') v) ]
              ])
              (done v')
          → P v'
      by_part none x = subst P (done-injective x) h
      by_part (some b) x = by_result (f b) x

module _ {V B A : Type 0} (P : V → Type 0) (part : V → Option B) (set : Option B → V → V) where
  pub ask_part-keeps :
      ((b : Option B) (v : V) → P v → P (set b v))
      → (missing : Result Error A) (f : B → Outcome (Result Error A × B)) (v v' : V)
        (r : Result Error A)
      → ask_part part set missing f v ≡ done (r, v')
      → P v
      → P v'
  ask_part-keeps stable missing f v v' r e h = by_part (part v) e
    where
      moved :
          (w : V) (x : Result Error A)
          → P w
          → ◌≡◌ {A = Outcome (Result Error A × V)} (done (x, w)) (done (r, v'))
          → P v'
      moved w x k q = subst P (ap (λ (y : Result Error A × V). y.1) (done-injective q)) k

      by_result :
          (o : Outcome (Result Error A × B))
          → ◌≡◌ {A = Outcome (Result Error A × V)}
              (elim o [ fault ↦ fault | done (x, b') ↦ done (x, set (some b') v) ])
              (done (r, v'))
          → P v'
      by_result fault q = cc
      by_result (done (x, b')) q = moved (set (some b') v) x (stable (some b') v h) q

      by_part :
          (o : Option B)
          → ◌≡◌ {A = Outcome (Result Error A × V)}
              (elim o [
                | none ↦ done (missing, v)
                | some b ↦ elim (f b) [ fault ↦ fault | done (x, b') ↦ done (x, set (some b') v) ]
              ])
              (done (r, v'))
          → P v'
      by_part none q = moved v missing h q
      by_part (some b) q = by_result (f b) q

pub ruleset keeps_rules = (
  Keeps-set_buffer, Keeps-check, Keeps-attempt, Keeps-get_mr, Keeps-set_mr, Keeps-read_utcb,
  Keeps-read_service, Keeps-change, Keeps-drive, Keeps-when, Keeps-pure, Keeps-fail, Keeps-ask,
  Keeps-query, Keeps-wrap, Keeps-if, Keeps-bind,
)
