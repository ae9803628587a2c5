-- ===== src/Stress.antt =====
-- The replay storm of `scripts/stress_test.py`: one delivery submitted again and again. The requests are sent
-- side by side; `BEGIN IMMEDIATE` puts their transactions one after the other, in some order. A request that
-- raises has no reply.
pub mod Once
use mathlib.Core.Path.{subst}
use counterparty_sharedos.Prelude.{
  ℕ, suc, ◌≡◌, ◌⊎◌, inl, inr, refl, sym, ap, ◌∙◌, Bool, true, false, Option, none, some, List, [],
  ◌∷◌, any, if◌then◌else◌,
}
use counterparty_sharedos.Floats.{Floats}
use counterparty_sharedos.Json.{Json, Fields, bool, get, Codec}
use counterparty_sharedos.Models.{
  EvidenceState, pass, fail, inconclusive, state_value, ProbeResult, DeliveryVerificationRequest,
}
use counterparty_sharedos.Probes.{Jsonschema, Printer}
use counterparty_sharedos.Verification.{aggregate}
use counterparty_sharedos.Audit.{Event, Stamp}
use counterparty_sharedos.Tables.{decisive}
use counterparty_sharedos.Store.{Db, Result, ok, err, Verification, record_verification}
use counterparty_sharedos.Store.Ledger.{
  Ledger, holds, enter, submit, holds-enter, holds_latency, submit_held, submit_new,
}
use counterparty_sharedos.Store.Ledger.Refines.{
  view, is_fresh, LedgerDone, record_verification-refines,
}
use counterparty_sharedos.Delivery.{
  is_decided, is_eligible, delivery_probes, delivery_reply, delivery_row, delivery_audit, deliver,
  record_delivery, verify_delivery,
}

-- what one request is given: its row's stamp, its event's, and the latency that the handler measures
pub record Attempt : Type 0 where
  pub row_stamp : Stamp
  pub event_stamp : Stamp
  pub latency_ms : ℕ

abbrev pub is_update : Option Bool → Bool
is_update none = false
is_update (some updated) = updated

abbrev pub is_reply : Option Bool → Bool
is_reply none = false
is_reply (some updated) = true

-- `sum(1 for r in replay_results if r.json().get("reputation_updated"))`
unfoldable pub updates : List (Option Bool) → ℕ
updates [] = 0
updates (r ∷ rs) = let rest = updates rs in if is_update r then suc rest else rest

module _ {F : Type 0} where
  abbrev pub is_true : Option (Json F) → Bool
  is_true (some (bool b)) = b
  is_true _ = false

  -- the flag in a reply, and `none` where there is no reply
  unfoldable pub flag_of : {B : Type 0} → Option (Result (Fields F) × B) → Option Bool
  flag_of (some (ok reply, db)) = some (is_true (get "reputation_updated" reply))
  flag_of (some (err e, db)) = none
  flag_of none = none

abbrev pub db_after : {A B : Type 0} → B → Option (A × B) → B
db_after db none = db
db_after db (some (r, after)) = after

module _ (fl : Floats) (js : Jsonschema fl.F) (pr : Printer fl.F) (c : Codec fl.F)
    (req : DeliveryVerificationRequest fl.F) where
  abbrev pub attempt : Attempt → Db c.Text → Option (Result (Fields fl.F) × Db c.Text)
  attempt a db = verify_delivery fl js pr c a.row_stamp a.event_stamp a.latency_ms req db

  -- the flags of the replies, and the database after all of the requests
  unfoldable pub storm : List Attempt → Db c.Text → List (Option Bool) × Db c.Text
  unfolding verify_delivery
  storm [] db = ([], db)
  storm (a ∷ attempts) db =
      let o = verify_delivery fl js pr c a.row_stamp a.event_stamp a.latency_ms req db in
      let (replies, after) = storm attempts (db_after db o) in (flag_of o ∷ replies, after)

  -- each row has an id of its own
  abbrev pub HasFreshAttempts : List Attempt → Db c.Text → Type 0
  HasFreshAttempts [] db = Unit
  HasFreshAttempts (a ∷ attempts) db =
      (is_fresh a.row_stamp db.observations ≡ true)
      × HasFreshAttempts attempts (db_after db (attempt a db))
