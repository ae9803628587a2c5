-- ===== src/Delivery/Unbound.antt =====
-- A delivery without a schema or without assertions changes no reputation.
use mathlib.Core.Path.{subst}
use counterparty_sharedos.Prelude.{
  ◌∷◌, [], inr, inl, ◌⊎◌, ℕ, ◌≡◌, refl, sym, ap, ◌∙◌, Bool, false, ◌&&◌, Option, none, some, List,
  String,
}
use counterparty_sharedos.Floats.{Floats}
use counterparty_sharedos.Json.{Fields, Codec}
use counterparty_sharedos.Models.{
  EvidenceState, ProbeResult, Assertion, DeliveryVerificationRequest,
}
use counterparty_sharedos.Probes.{Jsonschema, Printer}
use counterparty_sharedos.Verification.{aggregate}
use counterparty_sharedos.Audit.{Event, Stamp}
use counterparty_sharedos.Store.{
  Db, Result, ok, err, value_error, integrity_error, Verification, observation_row,
  record_verification,
}
use counterparty_sharedos.Store.Query.{reputation, counts_for}
use counterparty_sharedos.Store.Atomic.{VerificationDone, record_verification_lem}
use counterparty_sharedos.Store.Replay.{credited, was_updated, record_verification-reputation}
use counterparty_sharedos.Delivery.{
  is_eligible, delivery_probes, delivery_reply, delivery_row, delivery_audit, deliver,
  record_delivery, verify_delivery,
}

module _ (fl : Floats) (js : Jsonschema fl.F) (pr : Printer fl.F) (c : Codec fl.F) where
  ineligible_row :
      (row_stamp event_stamp : Stamp) (v : Verification) (payload : Fields fl.F) (db : Db c.Text)
      (r : Result (Event fl.F × Bool) × Db c.Text)
      → VerificationDone c row_stamp event_stamp v payload false db r
      → was_updated r.0 ≡ false
  ineligible_row row_stamp event_stamp v payload db (ok (event, updated), db') h = h.1
  ineligible_row row_stamp event_stamp v payload db (err value_error, db') h = refl
  ineligible_row row_stamp event_stamp v payload db (err integrity_error, db') h = refl

  unbound_row :
      (row_stamp event_stamp : Stamp) (v : Verification) (payload : Fields fl.F) (db : Db c.Text)
      (service_id task_type : String)
      → let after = (record_verification c row_stamp event_stamp v payload false db).1 in
        (reputation service_id task_type after.observations).0
        ≡ (reputation service_id task_type db.observations).0
  unbound_row row_stamp event_stamp v payload db service_id task_type =
      let r = record_verification c row_stamp event_stamp v payload false db in
      (record_verification-reputation c row_stamp event_stamp v payload false db service_id
        task_type).0
      ∙ ap
          (λ b.
            credited v.outcome (b && counts_for service_id task_type (observation_row row_stamp v))
              (reputation service_id task_type db.observations).0)
          (ineligible_row row_stamp event_stamp v payload db r
            (record_verification_lem c row_stamp event_stamp v payload false db))

  record_unbound :
      (row_stamp event_stamp : Stamp) (latency_ms : ℕ) (req : DeliveryVerificationRequest fl.F)
      (probes : List (ProbeResult fl.F)) (db : Db c.Text) (service_id task_type : String)
      → is_eligible req.expected_schema req.assertions ≡ false
      → let after = (record_delivery fl js pr c row_stamp event_stamp latency_ms req probes db).1 in
        (reputation service_id task_type after.observations).0
        ≡ (reputation service_id task_type db.observations).0
  unfolding record_delivery
  record_unbound row_stamp event_stamp latency_ms req probes db service_id task_type e =
      subst
        (λ b.
          (reputation service_id task_type
            (record_verification c row_stamp event_stamp
              (delivery_row fl js pr c req (aggregate fl probes).0 latency_ms)
              (delivery_audit fl js pr c req probes (aggregate fl probes)) b db).1.observations).0
          ≡ (reputation service_id task_type db.observations).0)
        (sym e)
        (unbound_row row_stamp event_stamp
          (delivery_row fl js pr c req (aggregate fl probes).0 latency_ms)
          (delivery_audit fl js pr c req probes (aggregate fl probes)) db service_id task_type)

  reply_db :
      (req : DeliveryVerificationRequest fl.F) (probes : List (ProbeResult fl.F))
      (verdict : EvidenceState × fl.F × fl.F) (r : Result (Event fl.F × Bool) × Db c.Text)
      → (delivery_reply fl js pr c req probes verdict r).1 ≡ r.1
  reply_db req probes verdict (err e, db) = refl
  reply_db req probes verdict (ok (event, updated), db) = refl

  deliver_unbound :
      (row_stamp event_stamp : Stamp) (latency_ms : ℕ) (req : DeliveryVerificationRequest fl.F)
      (db : Db c.Text) (r : Result (Fields fl.F) × Db c.Text) (o : Option (List (ProbeResult fl.F)))
      (service_id task_type : String)
      → is_eligible req.expected_schema req.assertions ≡ false
      → deliver fl js pr c row_stamp event_stamp latency_ms req db o ≡ some r
      → (reputation service_id task_type r.1.observations).0
        ≡ (reputation service_id task_type db.observations).0
  deliver_unbound row_stamp event_stamp latency_ms req db r none service_id task_type e h =
      absurd (cc h)
  deliver_unbound row_stamp event_stamp latency_ms req db r (some probes) service_id task_type e h =
      let recorded = record_delivery fl js pr c row_stamp event_stamp latency_ms req probes db in
      let replied = delivery_reply fl js pr c req probes (aggregate fl probes) recorded in
      let same : replied ≡ r = cc h in
      subst
        (λ d.
          (reputation service_id task_type d.observations).0
          ≡ (reputation service_id task_type db.observations).0)
        (sym (reply_db req probes (aggregate fl probes) recorded) ∙ ap (λ x. x.1) same)
        (record_unbound row_stamp event_stamp latency_ms req probes db service_id task_type e)

  -- no schema or no assertions
  abbrev pub IsUnbound : DeliveryVerificationRequest fl.F → Type 0
  IsUnbound req = (req.expected_schema ≡ none) ⊎ (req.assertions ≡ [])

  unbound-is_eligible :
      (schema : Option (Fields fl.F)) (assertions : List (Assertion fl.F))
      → (schema ≡ none) ⊎ (assertions ≡ [])
      → is_eligible schema assertions ≡ false
  unbound-is_eligible none assertions h = refl
  unbound-is_eligible (some schema) [] h = refl
  unbound-is_eligible (some schema) (a ∷ assertions) (inl e) = absurd (cc e)
  unbound-is_eligible (some schema) (a ∷ assertions) (inr e) = absurd (cc e)

  -- A delivery that comes without a schema or without assertions, whatever its verdict and whether
  -- `verify_delivery` replies or the store raises, leaves the reputation of every provider for every
  -- task type as it was.
  pub verify_delivery_unbound :
      (row_stamp event_stamp : Stamp) (latency_ms : ℕ) (req : DeliveryVerificationRequest fl.F)
      (db : Db c.Text) (r : Result (Fields fl.F) × Db c.Text) (service_id task_type : String)
      → IsUnbound req
      → verify_delivery fl js pr c row_stamp event_stamp latency_ms req db ≡ some r
      → (reputation service_id task_type r.1.observations).0
        ≡ (reputation service_id task_type db.observations).0
  unfolding verify_delivery
  verify_delivery_unbound row_stamp event_stamp latency_ms req db r service_id task_type e h =
      deliver_unbound row_stamp event_stamp latency_ms req db r (delivery_probes fl js pr req)
        service_id task_type (unbound-is_eligible req.expected_schema req.assertions e) h
