-- ===== src/Services/Run.antt =====
-- The loop of `run`, which the services share: each message that `recv` gives is dispatched, and answered
-- unless the error says that nothing is to be sent.
use glenda_drivers.Prelude.{
  ℕ, Bool, true, false, Option, none, some, Outcome, done, fault, List, [], ◌∷◌, if◌then◌else◌,
}
use glenda_drivers.Prelude.Handlers.{Result, ok, err, Handler}
use glenda_drivers.Glenda.{Error, success}
use glenda_drivers.Services.Kernel.{Utcb, failure}
use glenda_drivers.Services.Calls.{Call, set_at}

abbrev is_success : Error → Bool
is_success success = true
is_success _ = false

module _ {V K : Type 0} where
  abbrev pub joined :
      Option Utcb → Outcome (List (Option Utcb) × V × K) → Outcome (List (Option Utcb) × V × K)
  joined a fault = fault
  joined a (done (answers, v, k)) = done (a ∷ answers, v, k)

  abbrev pub proceed :
      (V → K → Outcome (List (Option Utcb) × V × K))
      → Outcome (Option Utcb × V × K)
      → Outcome (List (Option Utcb) × V × K)
  proceed rest fault = fault
  proceed rest (done (a, v, k)) = joined a (rest v k)

module _ (code : Error → ℕ) where
  -- `utcb.set_msg_tag(MsgTag::err()); utcb.set_mr(0, e as usize)`
  abbrev pub failed : Error → Utcb → Utcb
  failed e u = record u { tag = failure; mr = set_at u.mr 0 (code e) }

  abbrev pub reply_of : Result Error (Unit {0}) → Utcb → Option Utcb
  reply_of (ok _) u = some u
  reply_of (err e) u = if is_success e then none else some (failed e u)

  module _ {V K : Type 0} where
    abbrev pub concluded :
        Outcome (Result Error (Unit {0}) × Call V K) → Outcome (Option Utcb × V × K)
    concluded fault = fault
    concluded (done (r, s)) = done (reply_of r s.utcb, s.service, s.kernel)

  module _ {V K : Type 0} (dispatch : Handler (Call V K) Error (Unit {0})) where
    -- The body of the loop: the reply, if there is one, and the state after it.
    unfoldable pub turn : Utcb → V → K → Outcome (Option Utcb × V × K)
    turn u v k = concluded (dispatch (record { service = v; kernel = k; utcb = u }))

    -- The loop over the messages that arrive.
    unfoldable pub run : List Utcb → V → K → Outcome (List (Option Utcb) × V × K)
    run [] v k = done ([], v, k)
    run (u ∷ us) v k = proceed (run us) (turn u v k)
