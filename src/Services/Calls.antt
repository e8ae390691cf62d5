-- ===== src/Services/Calls.antt =====
-- A call on a service: its state, the kernel's and the message; and what keeps a property of it.
use glenda_drivers.Prelude.{
  ℕ, Bool, true, false, not, ◌&&◌, if◌then◌else◌, Option, none, some, List, Outcome, done, fault,
  ◌==◌,
}
use glenda_drivers.Prelude.Handlers.{Result, ok, err, Handler}
use glenda_drivers.Glenda.{Error, permission_denied}
use glenda_drivers.Services.Kernel.{Utcb}

pub record Call (V K : Type 0) : Type 0 where
  pub service : V
  pub kernel : K
  pub utcb : Utcb

abbrev pub set_at : (ℕ → ℕ) → ℕ → ℕ → ℕ → ℕ
set_at mr i v j = if j == i then v else mr j

module _ {V K : Type 0} where
  -- `u.get_mr(i)` and `u.set_mr(i, v)`
  unfoldable pub get_mr : ℕ → Handler (Call V K) Error ℕ
  get_mr i s = done (ok (s.utcb.mr i), s)

  unfoldable pub set_mr : ℕ → ℕ → Handler (Call V K) Error (Unit {0})
  set_mr i v s = done (ok tt, record s { utcb = record (s.utcb) { mr = set_at s.utcb.mr i v } })

  -- A change of the service that cannot fail.
  unfoldable pub change : (V → V) → Handler (Call V K) Error (Unit {0})
  change f s = done (ok tt, record s { service = f s.service })

  unfoldable pub read_utcb : Handler (Call V K) Error Utcb
  read_utcb s = done (ok s.utcb, s)

  unfoldable pub read_service : Handler (Call V K) Error V
  read_service s = done (ok s.service, s)

  -- The data that the caller passes in the buffer, or that it gets there.
  unfoldable pub set_buffer : List ℕ → Handler (Call V K) Error (Unit {0})
  set_buffer bytes s = done (ok tt, record s { utcb = record (s.utcb) { buffer = bytes } })

  -- A panic, unless the test holds.
  unfoldable pub check : Bool → Handler (Call V K) Error (Unit {0})
  check true s = done (ok tt, s)
  check false s = fault

  -- A call of the driver, which may fault.
  unfoldable pub drive : (V → Outcome V) → Handler (Call V K) Error (Unit {0})
  drive f s = elim (f s.service) [ fault ↦ fault | done v ↦ done (ok tt, record s { service = v }) ]

  unfoldable pub when :
      Bool → Handler (Call V K) Error (Unit {0}) → Handler (Call V K) Error (Unit {0})
  when true m s = m s
  when false m s = done (ok tt, s)

module _ {V K A : Type 0} where
  -- A call of the kernel.
  unfoldable pub ask : (K → Result Error A × K) → Handler (Call V K) Error A
  ask f s = let (r, k) = f s.kernel in done (r, record s { kernel = k })

  -- A call of the driver that gives a value or fails.
  unfoldable pub query : (V → Outcome (Result Error A × V)) → Handler (Call V K) Error A
  query f s = elim (f s.service) [
    | fault ↦ fault
    | done (r, v) ↦ done (r, record s { service = v })
  ]

  -- `handle_call` and the like around a function.
  unfoldable pub wrap :
      (Result Error A → Utcb → Result Error (Unit {0}) × Utcb)
      → Handler (Call V K) Error A
      → Handler (Call V K) Error (Unit {0})
  wrap reply m s = elim (m s) [
    | fault ↦ fault
    | done (r, s') ↦ let (r', u) = reply r s'.utcb in done (r', record s' { utcb = u })
  ]

-- `if let Some(_) = …`
abbrev pub present : {A : Type 0} → Option A → Bool
present none = false
present (some _) = true

-- Calls of the driver inside the service, which may not be there yet.
module _ {V B : Type 0} (part : V → Option B) (set : Option B → V → V) where
  abbrev pub on_part : (B → Outcome B) → V → Outcome V
  on_part f v = elim (part v) [
    | none ↦ done v
    | some b ↦ elim (f b) [ fault ↦ fault | done b' ↦ done (set (some b') v) ]
  ]

  abbrev pub alter_part : (B → B) → V → V
  alter_part f v = elim (part v) [ none ↦ v | some b ↦ set (some (f b)) v ]

module _ {V B A : Type 0} (part : V → Option B) (set : Option B → V → V) where
  -- Without a driver the result is the first argument.
  abbrev pub ask_part :
      Result Error A → (B → Outcome (Result Error A × B)) → V → Outcome (Result Error A × V)
  ask_part missing f v = elim (part v) [
    | none ↦ done (missing, v)
    | some b ↦ elim (f b) [ fault ↦ fault | done (r, b') ↦ done (r, set (some b') v) ]
  ]

module _ {V K A : Type 0} where
  abbrev pub accepted :
      Outcome (Result Error A × Call V K) → Outcome (Result Error (Unit {0}) × Call V K)
  accepted fault = fault
  accepted (done (r, s)) = done (ok tt, s)

  -- A call whose error is only logged.
  unfoldable pub attempt : Handler (Call V K) Error A → Handler (Call V K) Error (Unit {0})
  attempt m s = accepted (m s)

  -- A step of a driver that the service does not hold yet: a panic, a failure or its result.
  unfoldable pub lift : Outcome (Result Error A) → Handler (Call V K) Error A
  lift fault s = fault
  lift (done r) s = done (r, s)

  -- A call whose result the code matches on.
  abbrev noted :
      Outcome (Result Error A × Call V K) → Outcome (Result Error (Result Error A) × Call V K)
  noted fault = fault
  noted (done (r, s)) = done (ok r, s)

  unfoldable pub outcome_of : Handler (Call V K) Error A → Handler (Call V K) Error (Result Error A)
  outcome_of m s = noted (m s)

-- `connected.is_some() && connected != Some(badge)`
abbrev pub another : Option ℕ → ℕ → Bool
another none badge = false
another (some c) badge = not (c == badge)

-- A message that `dispatch` refuses at once: it is neither the kernel's nor without a badge nor from the
-- connected client.
abbrev pub stranger : ℕ → Option ℕ → Utcb → Bool
stranger kernel_proto client u =
    not (u.badge == 0) && (another client u.badge && not (u.proto == kernel_proto))

-- `if badge != 0 && connected.is_none() { connected = Some(badge) }`
abbrev pub claimed : ℕ → Option ℕ → Option ℕ
claimed badge (some c) = some c
claimed badge none = if badge == 0 then none else some badge

-- The test at the start of `dispatch`, which three of the services share.
module _ {V K : Type 0} (kernel_proto : ℕ) (client : V → Option ℕ)
    (arms : Handler (Call V K) Error (Unit {0})) where
  unfoldable pub guarded : Handler (Call V K) Error (Unit {0})
  guarded s =
      if stranger kernel_proto (client s.service) s.utcb
      then done (err permission_denied, s)
      else arms s
