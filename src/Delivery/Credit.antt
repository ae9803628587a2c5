-- ===== src/Delivery/Credit.antt =====
-- What a reply that reports an update did to the reputation.
use counterparty_sharedos.Prelude.{
  ℕ, ◌+◌, ◌≡◌, refl, sym, ap, ◌∙◌, Bool, true, false, ◌&&◌, ◌||◌, Option, none, some, List, String,
  str_eq, str_eq_refl, arith, if◌then◌else◌, Bool-cases, inl, inr,
}
use counterparty_sharedos.Floats.{Floats}
use counterparty_sharedos.Json.{Json, Fields, bool, text, get, Codec}
use counterparty_sharedos.Models.{
  EvidenceState, state_value, ProbeResult, DeliveryVerificationRequest,
}
use counterparty_sharedos.Probes.{Jsonschema, Printer}
use counterparty_sharedos.Reputation.{BayesianReputation}
use counterparty_sharedos.Verification.{aggregate}
use counterparty_sharedos.Audit.{Event, Stamp}
use counterparty_sharedos.Store.{Db, Result, ok, err, observation_row, record_verification}
use counterparty_sharedos.Store.Query.{counts_for, reputation}
use counterparty_sharedos.Store.Replay.{credited, was_updated, record_verification-reputation}
use counterparty_sharedos.Delivery.{
  is_eligible, delivery_probes, delivery_reply, delivery_row, delivery_audit, deliver,
  record_delivery, verify_delivery,
}

-- one success more
abbrev pub one_success : BayesianReputation → BayesianReputation
one_success r = record { successes = r.successes + 1; failures = r.failures }

credited_pass : (r : BayesianReputation) → credited "PASS" true r ≡ one_success r
credited_pass r =
    let same : r.failures + 0 ≡ r.failures = omega arith in
    ap (λ n. record { successes = r.successes + 1; failures = n }) same

abbrev json_string : {F : Type 0} → Option (Json F) → String
json_string (some (text t)) = t
json_string _ = ""

abbrev json_flag : {F : Type 0} → Option (Json F) → Bool
json_flag (some (bool b)) = b
json_flag _ = false

and_true : (b : Bool) → (b && true) ≡ b
and_true true = refl
and_true false = refl

counts_for_own :
    (service_id task_type : String)
    → (if str_eq task_type "general"
        then str_eq service_id service_id && str_eq task_type "general"
        else str_eq service_id service_id
          && (str_eq task_type task_type || str_eq task_type "general"))
      ≡ true
counts_for_own service_id task_type = elim (Bool-cases (str_eq task_type "general")) [
  | inl e ↦ rw (e, str_eq_refl service_id)
  | inr e ↦ rw (e, str_eq_refl service_id, str_eq_refl task_type)
]

module _ (fl : Floats) (js : Jsonschema fl.F) (pr : Printer fl.F) (c : Codec fl.F)
    (row_stamp event_stamp : Stamp) (latency_ms : ℕ) (req : DeliveryVerificationRequest fl.F)
    (db db' : Db c.Text) (reply : Fields fl.F) where
  -- the reputation of the provider for the task
  abbrev pub own : Db c.Text → BayesianReputation
  own d = (reputation req.provider_id req.task_type d.observations).0

  own_row :
      (state : EvidenceState)
      → counts_for req.provider_id req.task_type
          (observation_row row_stamp (delivery_row fl js pr c req state latency_ms))
        ≡ true
  unfolding counts_for
  own_row state = counts_for_own req.provider_id req.task_type

  recorded_credit :
      (probes : List (ProbeResult fl.F)) (r : Result (Event fl.F × Bool) × Db c.Text)
      → own r.1 ≡ credited (state_value (aggregate fl probes).0) (was_updated r.0) (own db)
      → delivery_reply fl js pr c req probes (aggregate fl probes) r ≡ (ok reply, db')
      → get "state" reply ≡ some (text "PASS")
      → get "reputation_updated" reply ≡ some (bool true)
      → own db' ≡ one_success (own db)
  unfolding get
  recorded_credit probes (err e, after) gained h passed updated = absurd (cc h)
  recorded_credit probes (ok (event, flag), after) gained h passed updated =
      let shown : state_value (aggregate fl probes).0 ≡ "PASS" =
        ap (λ (r : Result (Fields fl.F) × Db c.Text). state_shown r.0) h ∙ ap json_string passed in
      let counted : flag ≡ true =
        ap (λ (r : Result (Fields fl.F) × Db c.Text). flag_shown r.0) h ∙ ap json_flag updated in
      ap (λ (r : Result (Fields fl.F) × Db c.Text). own r.1) (sym h)
      ∙ gained
      ∙ ap (λ t. credited t flag (own db)) shown
      ∙ ap (λ b. credited "PASS" b (own db)) counted
      ∙ credited_pass (own db)
    where
      state_shown : Result (Fields fl.F) → String
      state_shown (ok fs) = json_string (get "state" fs)
      state_shown (err e) = ""

      flag_shown : Result (Fields fl.F) → Bool
      flag_shown (ok fs) = json_flag (get "reputation_updated" fs)
      flag_shown (err e) = false

  gained_by :
      (probes : List (ProbeResult fl.F))
      → let r = record_delivery fl js pr c row_stamp event_stamp latency_ms req probes db in
        own r.1 ≡ credited (state_value (aggregate fl probes).0) (was_updated r.0) (own db)
  unfolding record_delivery
  gained_by probes =
      let verdict = aggregate fl probes in
      let v = delivery_row fl js pr c req verdict.0 latency_ms in
      let payload = delivery_audit fl js pr c req probes verdict in
      let eligible = is_eligible req.expected_schema req.assertions in
      let r = record_verification c row_stamp event_stamp v payload eligible db in
      (record_verification-reputation c row_stamp event_stamp v payload eligible db req.provider_id
        req.task_type).0
      ∙ ap (λ b. credited v.outcome (was_updated r.0 && b) (own db)) (own_row verdict.0)
      ∙ ap (λ b. credited v.outcome b (own db)) (and_true (was_updated r.0))

  deliver_credit :
      (o : Option (List (ProbeResult fl.F)))
      → deliver fl js pr c row_stamp event_stamp latency_ms req db o ≡ some (ok reply, db')
      → get "state" reply ≡ some (text "PASS")
      → get "reputation_updated" reply ≡ some (bool true)
      → own db' ≡ one_success (own db)
  deliver_credit none h passed updated = absurd (cc h)
  deliver_credit (some probes) h passed updated =
      recorded_credit probes
        (record_delivery fl js pr c row_stamp event_stamp latency_ms req probes db)
        (gained_by probes) (cc h) passed updated

  -- A reply of `verify_delivery` that shows PASS and an update of the reputation has added one success
  -- to the provider's reputation for the task.
  pub verify_delivery_credit :
      verify_delivery fl js pr c row_stamp event_stamp latency_ms req db ≡ some (ok reply, db')
      → get "state" reply ≡ some (text "PASS")
      → get "reputation_updated" reply ≡ some (bool true)
      → own db' ≡ one_success (own db)
  unfolding verify_delivery
  verify_delivery_credit = deliver_credit (delivery_probes fl js pr req)
