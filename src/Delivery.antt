-- ===== src/Delivery.antt =====
-- The handler `verify_delivery` of `counterparty/app.py`. The probes in a reply are shown without their
-- reasons and evidence. `none` is an exception of `contradiction_probe`, before anything is written.
pub mod Credit
pub mod Proof
pub mod Unbound
use counterparty_sharedos.Prelude.{
  ℕ, Bool, true, false, not, ◌&&◌, ◌||◌, Option, none, some, List, [], ◌∷◌, ◌++◌, map, any, String,
  str_eq, if◌then◌else◌,
}
use counterparty_sharedos.Prelude.Int.{pos}
use counterparty_sharedos.Floats.{Floats}
use counterparty_sharedos.Json.{
  Json, Items, Fields, null, bool, int, float, text, arr, obj, nil, cons, end, field, set_key,
  Codec, dumps_compact,
}
use counterparty_sharedos.Models.{
  EvidenceState, pass, fail, inconclusive, state_value, ProbeResult, Assertion, op_value, eq,
  IndependentCheck, DeliveryVerificationRequest, ProbeObservationRequest,
}
use counterparty_sharedos.Probes.{
  Jsonschema, Printer, schema_probe, injection_probe, contradiction_probe, citations_probe,
}
use counterparty_sharedos.Assertions.{assertions_probe}
use counterparty_sharedos.Verification.{aggregate}
use counterparty_sharedos.Audit.{Event, Stamp}
use counterparty_sharedos.Store.{
  Db, Result, ok, err, Verification, Canary, record_verification, record_protocol_observation,
}
use counterparty_sharedos.BestExecution.{texts}

abbrev pub is_decided : EvidenceState → Bool
is_decided pass = true
is_decided fail = true
is_decided inconclusive = false

module _ {F : Type 0} where
  abbrev pub optional_float : Option F → Json F
  optional_float none = null
  optional_float (some x) = float x

  abbrev pub optional_schema : Option (Fields F) → Json F
  optional_schema none = null
  optional_schema (some fs) = obj fs

  -- `model_dump(mode="json")`
  abbrev pub assertion_json : Assertion F → Json F
  assertion_json a =
      obj
        (field "path" (text a.path) (field "op" (text (op_value a.op)) (field "value" a.value end)))

  abbrev pub check_json : IndependentCheck F → Json F
  check_json check = obj (
      field "probe" (text check.probe) (
        field "state" (text (state_value check.state)) (
          field "score" (optional_float check.score)
            (field "reason" (text check.reason) (field "evidence" (obj check.evidence) end)))))

  abbrev pub probe_json : ProbeResult F → Json F
  probe_json p = obj (
      field "probe" (text p.probe)
        (field "state" (text (state_value p.state)) (field "score" (optional_float p.score) end)))

  abbrev pub items_of : List (Json F) → Items F
  items_of [] = nil
  items_of (j ∷ js) = cons j (items_of js)

  -- `{p.probe: p.state.value for p in probes}`
  abbrev pub add_states : Fields F → List (ProbeResult F) → Fields F
  add_states fs [] = fs
  add_states fs (p ∷ probes) = add_states (set_key p.probe (text (state_value p.state)) fs) probes

  abbrev pub probe_states : List (ProbeResult F) → Json F
  probe_states probes = obj (add_states end probes)

  -- `ProbeResult(**check.model_dump(mode="python"))`
  abbrev pub independent_result : IndependentCheck F → ProbeResult F
  independent_result check = record {
    probe = check.probe;
    state = check.state;
    score = check.score;
  }

  abbrev pub has_citation_check : List (IndependentCheck F) → Bool
  has_citation_check = any (λ check. str_eq check.probe "citations")

  -- `req.expected_schema is not None and bool(req.assertions)`
  abbrev pub is_eligible : Option (Fields F) → List (Assertion F) → Bool
  is_eligible none assertions = false
  is_eligible (some schema) [] = false
  is_eligible (some schema) (a ∷ assertions) = true

module _ (fl : Floats) (js : Jsonschema fl.F) (pr : Printer fl.F) where
  -- the probe that is added for urls without a check of their sources
  unfoldable pub citation_probes : List String → Bool → List (ProbeResult fl.F)
  unfolding citations_probe
  citation_probes [] checked = []
  citation_probes (url ∷ urls) true = []
  citation_probes (url ∷ urls) false = citations_probe fl (url ∷ urls) ∷ []

  abbrev pub with_consistency :
      Option (ProbeResult fl.F)
      → List (ProbeResult fl.F)
      → List (ProbeResult fl.F)
      → Option (List (ProbeResult fl.F))
  with_consistency none before after = none
  with_consistency (some p) before after = some (before ++ p ∷ after)

  unfoldable pub delivery_probes :
      DeliveryVerificationRequest fl.F → Option (List (ProbeResult fl.F))
  unfolding schema_probe assertions_probe injection_probe contradiction_probe citation_probes
  delivery_probes req =
      with_consistency (contradiction_probe fl pr req.output)
        (schema_probe fl js req.output req.expected_schema
          ∷ assertions_probe fl req.output req.assertions
          ∷ injection_probe fl pr req.output
          ∷ [])
        (map independent_result req.independent_checks
          ++ citation_probes req.cited_urls (has_citation_check req.independent_checks))

  module _ (c : Codec fl.F) where
    unfoldable pub delivery_hash : DeliveryVerificationRequest fl.F → String
    delivery_hash req = c.sha256 (
        dumps_compact c (
          obj (
            field "delivery_id" (text req.delivery_id) (
              field "provider_id" (text req.provider_id) (
                field "task" (text req.task) (
                  field "output" req.output (
                    field "expected_schema" (optional_schema req.expected_schema) (
                      field "assertions" (arr (items_of (map assertion_json req.assertions))) (
                        field "cited_urls" (arr (texts fl req.cited_urls)) (
                          field "independent_checks"
                            (arr (items_of (map check_json req.independent_checks))) end))))))))))

    abbrev pub delivery_row : DeliveryVerificationRequest fl.F → EvidenceState → ℕ → Verification
    delivery_row req state latency_ms = record {
      delivery_id = req.delivery_id;
      service_id = req.provider_id;
      task_type = req.task_type;
      outcome = state_value state;
      evidence_hash = delivery_hash req;
      latency_ms = some latency_ms;
    }

    abbrev pub delivery_audit :
        DeliveryVerificationRequest fl.F
        → List (ProbeResult fl.F)
        → EvidenceState × fl.F × fl.F
        → Fields fl.F
    delivery_audit req probes (state, score, confidence) =
        field "delivery_id" (text req.delivery_id) (
          field "provider_id" (text req.provider_id) (
            field "task_type" (text req.task_type) (
              field "state" (text (state_value state)) (
                field "score" (float score) (
                  field "confidence" (float confidence) (
                    field "evidence_hash" (text (delivery_hash req)) (
                      field "probe_states" (probe_states probes) (
                        field "reputation_eligible"
                          (bool (is_eligible req.expected_schema req.assertions)) end))))))))

    abbrev pub delivery_reply :
        DeliveryVerificationRequest fl.F
        → List (ProbeResult fl.F)
        → EvidenceState × fl.F × fl.F
        → Result (Event fl.F × Bool) × Db c.Text
        → Result (Fields fl.F) × Db c.Text
    delivery_reply req probes (state, score, confidence) (err e, db) = (err e, db)
    delivery_reply req probes (state, score, confidence) (ok (event, updated), db) = (
      ok (
          field "provider_id" (text req.provider_id) (
            field "state" (text (state_value state)) (
              field "score" (float score) (
                field "confidence" (float confidence) (
                  field "probes" (arr (items_of (map probe_json probes))) (
                    field "reputation_updated" (bool updated) (
                      field "replay_suppressed" (bool (is_decided state && not updated)) (
                        field "evidence_hash" (text (delivery_hash req))
                          (field "audit_receipt" (text event.hash) end))))))))),
      db,
    )

    -- the call of the store
    unfoldable pub record_delivery :
        Stamp
        → Stamp
        → ℕ
        → DeliveryVerificationRequest fl.F
        → List (ProbeResult fl.F)
        → Db c.Text
        → Result (Event fl.F × Bool) × Db c.Text
    unfolding aggregate record_verification delivery_hash
    record_delivery row_stamp event_stamp latency_ms req probes db =
        let verdict = aggregate fl probes in
        record_verification c row_stamp event_stamp (delivery_row req verdict.0 latency_ms)
          (delivery_audit req probes verdict) (is_eligible req.expected_schema req.assertions) db

    -- the rest of the handler, once the probes have run
    abbrev pub deliver :
        Stamp
        → Stamp
        → ℕ
        → DeliveryVerificationRequest fl.F
        → Db c.Text
        → Option (List (ProbeResult fl.F))
        → Option (Result (Fields fl.F) × Db c.Text)
    deliver row_stamp event_stamp latency_ms req db none = none
    deliver row_stamp event_stamp latency_ms req db (some probes) = some (
        delivery_reply req probes (aggregate fl probes)
          (record_delivery row_stamp event_stamp latency_ms req probes db))

    unfoldable pub verify_delivery :
        Stamp
        → Stamp
        → ℕ
        → DeliveryVerificationRequest fl.F
        → Db c.Text
        → Option (Result (Fields fl.F) × Db c.Text)
    unfolding delivery_probes
    verify_delivery row_stamp event_stamp latency_ms req db =
        deliver row_stamp event_stamp latency_ms req db (delivery_probes req)
