-- ===== src/Canaries.antt =====
-- The handler `probe_observation` of `counterparty/app.py`. The probes in a reply are shown without their
-- reasons and evidence. `none` is an exception of `contradiction_probe`, before anything is written.
pub mod Contract
pub mod Nonce
use counterparty_sharedos.Prelude.{
  ℕ, Bool, true, false, not, Option, none, some, List, [], ◌∷◌, map, String,
}
use counterparty_sharedos.Floats.{Floats}
use counterparty_sharedos.Json.{
  Json, Fields, bool, float, text, arr, obj, end, field, Codec, dumps_compact,
}
use counterparty_sharedos.Models.{
  EvidenceState, pass, fail, inconclusive, state_value, ProbeResult, Assertion, eq,
  ProbeObservationRequest,
}
use counterparty_sharedos.Probes.{
  Jsonschema, Printer, schema_probe, injection_probe, contradiction_probe,
}
use counterparty_sharedos.Assertions.{assertions_probe}
use counterparty_sharedos.Verification.{aggregate}
use counterparty_sharedos.Audit.{Event, Stamp}
use counterparty_sharedos.Store.{Db, Result, ok, err, Canary, record_protocol_observation}
use counterparty_sharedos.BestExecution.{texts}
use counterparty_sharedos.Delivery.{probe_json, probe_states, items_of, with_consistency}

-- INCONCLUSIVE becomes FAIL
abbrev pub fail_closed : EvidenceState → EvidenceState
fail_closed pass = pass
fail_closed fail = fail
fail_closed inconclusive = fail

module _ (fl : Floats) (js : Jsonschema fl.F) (pr : Printer fl.F) where
  -- the contract of a canary, which the server owns
  abbrev pub canary_schema : String → Fields fl.F
  canary_schema nonce = field "type" (text "object") (
      field "properties"
        (obj (
          field "counterparty_probe_id" (obj (field "const" (text nonce) end))
            (field "ack" (obj (field "const" (bool true) end)) end)))
        (field "required" (arr (texts fl ("counterparty_probe_id" ∷ "ack" ∷ []))) end))

  abbrev pub canary_assertions : String → List (Assertion fl.F)
  canary_assertions nonce =
      record { path = "/counterparty_probe_id"; op = eq; value = text nonce }
      ∷ record { path = "/ack"; op = eq; value = bool true }
      ∷ []

  unfoldable pub canary_probes : ProbeObservationRequest fl.F → Option (List (ProbeResult fl.F))
  unfolding schema_probe assertions_probe injection_probe contradiction_probe
  canary_probes req =
      with_consistency fl js pr (contradiction_probe fl pr req.output)
        (schema_probe fl js req.output (some (canary_schema req.nonce))
          ∷ assertions_probe fl req.output (canary_assertions req.nonce)
          ∷ injection_probe fl pr req.output
          ∷ [])
        []

  module _ (c : Codec fl.F) where
    unfoldable pub canary_hash : ProbeObservationRequest fl.F → String
    canary_hash req = c.sha256 (
        dumps_compact c (
          obj (
            field "probe_id" (text req.probe_id) (
              field "provider_id" (text req.provider_id)
                (field "nonce" (text req.nonce) (field "output" req.output end))))))

    abbrev pub canary_record : ProbeObservationRequest fl.F → EvidenceState → Canary
    canary_record req state = record {
      probe_id = req.probe_id;
      service_id = req.provider_id;
      outcome = state_value state;
      evidence_hash = canary_hash req;
      latency_ms = req.latency_ms;
    }

    abbrev pub canary_audit :
        ProbeObservationRequest fl.F
        → List (ProbeResult fl.F)
        → EvidenceState
        → fl.F × fl.F
        → Fields fl.F
    canary_audit req probes state (score, confidence) = field "probe_id" (text req.probe_id) (
        field "provider_id" (text req.provider_id) (
          field "state" (text (state_value state)) (
            field "score" (float score) (
              field "confidence" (float confidence) (
                field "evidence_hash" (text (canary_hash req))
                  (field "probe_states" (probe_states probes) end))))))

    abbrev pub canary_reply :
        ProbeObservationRequest fl.F
        → List (ProbeResult fl.F)
        → EvidenceState
        → fl.F × fl.F
        → Result (Event fl.F × Bool) × Db c.Text
        → Result (Fields fl.F) × Db c.Text
    canary_reply req probes state (score, confidence) (err e, db) = (err e, db)
    canary_reply req probes state (score, confidence) (ok (event, updated), db) = (
      ok (
          field "provider_id" (text req.provider_id) (
            field "probe_id" (text req.probe_id) (
              field "state" (text (state_value state)) (
                field "score" (float score) (
                  field "confidence" (float confidence) (
                    field "probes" (arr (items_of (map probe_json probes))) (
                      field "protocol_reputation_updated" (bool updated) (
                        field "replay_suppressed" (bool (not updated)) (
                          field "evidence_hash" (text (canary_hash req))
                            (field "audit_receipt" (text event.hash) end)))))))))),
      db,
    )

    -- the call of the store
    unfoldable pub record_canary :
        Stamp
        → Stamp
        → ProbeObservationRequest fl.F
        → List (ProbeResult fl.F)
        → Db c.Text
        → Result (Event fl.F × Bool) × Db c.Text
    unfolding aggregate record_protocol_observation canary_hash
    record_canary row_stamp event_stamp req probes db =
        let verdict = aggregate fl probes in
        record_protocol_observation c row_stamp event_stamp
          (canary_record req (fail_closed verdict.0))
          (canary_audit req probes (fail_closed verdict.0) (verdict.1, verdict.2)) db

    -- the rest of the handler, once the probes have run
    abbrev pub observe :
        Stamp
        → Stamp
        → ProbeObservationRequest fl.F
        → Db c.Text
        → Option (List (ProbeResult fl.F))
        → Option (Result (Fields fl.F) × Db c.Text)
    observe row_stamp event_stamp req db none = none
    observe row_stamp event_stamp req db (some probes) =
        let verdict = aggregate fl probes in
        some (
          canary_reply req probes (fail_closed verdict.0) (verdict.1, verdict.2)
            (record_canary row_stamp event_stamp req probes db))

    unfoldable pub probe_observation :
        Stamp
        → Stamp
        → ProbeObservationRequest fl.F
        → Db c.Text
        → Option (Result (Fields fl.F) × Db c.Text)
    unfolding canary_probes
    probe_observation row_stamp event_stamp req db =
        observe row_stamp event_stamp req db (canary_probes req)
