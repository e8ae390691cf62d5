-- ===== src/Prelude/Handlers.antt =====
-- Results, and handlers that change a state and may fail: an error keeps the state reached, as a
-- Rust method with `&mut self` that returns early does.
use glenda_drivers.Prelude.Faults.{Outcome, done, fault}
use mathlib.Core.Path.{◌≡◌, refl}
use mathlib.Core.Logic.{◌⊎◌, inl, inr}
use mathlib.Core.Bool.{Bool, true, false}
use mathlib.Core.Option.{Option, none, some}

pub data Result {ℓ κ} (E : Type ℓ) (A : Type κ) : Type (ℓ ⊔ κ) where
  ok : A → Result E A
  err : E → Result E A

pub Result-cases {ℓ κ} :
    {E : Type ℓ} {A : Type κ} (r : Result E A) → ((a : A) × (r ≡ ok a)) ⊎ ((e : E) × (r ≡ err e))
Result-cases (ok a) = inl (a, refl)
Result-cases (err e) = inr (e, refl)

abbrev pub Handler : Type 0 → Type 0 → Type 0 → Type 0
Handler S E A = S → Outcome (Result E A × S)

module _ {S E A : Type 0} where
  abbrev pub pure : A → Handler S E A
  pure a s = done (ok a, s)

  abbrev pub fail : E → Handler S E A
  fail e s = done (err e, s)

  -- `o.ok_or(e)?`
  abbrev pub ok_or : Option A → E → Handler S E A
  ok_or none e s = done (err e, s)
  ok_or (some a) e s = done (ok a, s)

module _ {S E : Type 0} where
  abbrev pub get : Handler S E S
  get s = done (ok s, s)

  abbrev pub modify : (S → S) → Handler S E (Unit {0})
  modify f s = done (ok tt, f s)

  -- `if !b { return Err(e) }`
  abbrev pub ensure : Bool → E → Handler S E (Unit {0})
  ensure true e s = done (ok tt, s)
  ensure false e s = done (err e, s)

  -- A panic, unless the test holds.
  abbrev pub assert : Bool → Handler S E (Unit {0})
  assert true s = done (ok tt, s)
  assert false s = fault

module _ {S E A B : Type 0} where
  abbrev pub after : Outcome (Result E A × S) → (A → Handler S E B) → Outcome (Result E B × S)
  after fault f = fault
  after (done (ok a, s)) f = f a s
  after (done (err e, s)) f = done (err e, s)

  infixl 5 ◌>>=◌
  abbrev pub ◌>>=◌ : Handler S E A → (A → Handler S E B) → Handler S E B
  ◌>>=◌ m f s = after (m s) f

module _ {S E B : Type 0} where
  infixl 5 ◌>>◌
  abbrev pub ◌>>◌ : Handler S E (Unit {0}) → Handler S E B → Handler S E B
  m >> k = m >>= λ _. k
