-- ===== src/Examples/DeliveryTests.antt =====
-- A delivery and a canary on concrete requests: tests, and the theorems applied to them.
use counterparty_sharedos.Prelude.{
  inr, ℕ, ◌≡◌, ◌≢◌, ◌↔◌, refl, true, false, Option, none, some, List, [], ◌∷◌, String, All, is_in,
  if◌then◌else◌,
}
use counterparty_sharedos.Prelude.Int.{ℤ}
use counterparty_sharedos.Json.{Json, Fields, bool, text, obj, end, field, get, has_key}
use counterparty_sharedos.Models.{
  Assertion, eq, pass, ProbeResult, inconclusive, DeliveryVerificationRequest,
  ProbeObservationRequest,
}
use counterparty_sharedos.Probes.{Jsonschema, Printer, injection_markers}
use counterparty_sharedos.Audit.{Stamp, append_audit_tx}
use counterparty_sharedos.Store.{Db, empty_db, Result, ok}
use counterparty_sharedos.Store.Query.{reputation}
use counterparty_sharedos.Verification.{aggregate}
use counterparty_sharedos.Assertions.{assertions_probe}
use counterparty_sharedos.Assertions.Exact.{Holds, assertions_probe_lem}
use counterparty_sharedos.Delivery.{record_delivery, verify_delivery}
use counterparty_sharedos.Delivery.Proof.{IsProved, verify_delivery_lem}
use counterparty_sharedos.Delivery.Unbound.{verify_delivery_unbound}
use counterparty_sharedos.Canaries.{canary_probes, record_canary, probe_observation}
use counterparty_sharedos.Canaries.Contract.{ShowsOutcome, probe_observation_lem}
use counterparty_sharedos.Canaries.Nonce.{HasText, canary_pass}
use counterparty_sharedos.Examples.Codecs.{signed_codec}
use counterparty_sharedos.Examples.FixedPoint.{fixed_point}

-- a validator that wants a key
abbrev errors : Json ℤ → ℕ
errors (obj fs) = if has_key "ack" fs then 0 else 1
errors _ = 1

abbrev pub validator : Jsonschema ℤ
validator = record { check_schema = λ schema. true; error_count = λ schema output. errors output }

abbrev verdict_text : Json ℤ → String
verdict_text (text s) = s
verdict_text _ = "{}"

abbrev pub printer : Printer ℤ
printer = record { lower_dumps = verdict_text; upper_str = verdict_text }

abbrev pub acknowledged : Assertion ℤ
acknowledged = record { path = "/ack"; op = eq; value = bool true }

abbrev pub output : Json ℤ
output = obj (field "ack" (bool true) (field "counterparty_probe_id" (text "nonce-01") end))

abbrev pub request : List (Assertion ℤ) → DeliveryVerificationRequest ℤ
request assertions = record {
  delivery_id = "d1";
  provider_id = "seller";
  task = "review";
  task_type = "review";
  output = output;
  expected_schema = some (field "type" (text "object") end);
  assertions = assertions;
  cited_urls = [];
  independent_checks = [];
}

abbrev pub stamp : String → ℕ → Stamp
stamp uuid now = record { uuid = uuid; now = now }

abbrev pub Outcome : Type 0
Outcome = Option (Result (Fields ℤ) × Db signed_codec.Text)

abbrev pub reply_of : Outcome → Fields ℤ
reply_of (some (ok reply, db)) = reply
reply_of _ = end

abbrev pub db_of : Outcome → Db signed_codec.Text
db_of (some (r, db)) = db
db_of none = empty_db

abbrev outcome : List (Assertion ℤ) → Outcome
outcome assertions =
    verify_delivery fixed_point validator printer signed_codec (stamp "o1" 1) (stamp "a1" 2) 3
      (request assertions) empty_db

bound_reply :
    outcome (acknowledged ∷ [])
    ≡ some (ok (reply_of (outcome (acknowledged ∷ []))), db_of (outcome (acknowledged ∷ [])))
unfolding verify_delivery record_delivery append_audit_tx
bound_reply = refl

bound_passes : get "state" (reply_of (outcome (acknowledged ∷ []))) ≡ some (text "PASS")
unfolding verify_delivery get record_delivery append_audit_tx
bound_passes = refl

verify_delivery_lem_example : IsProved fixed_point validator printer (request (acknowledged ∷ []))
verify_delivery_lem_example =
    verify_delivery_lem fixed_point validator printer signed_codec (stamp "o1" 1) (stamp "a1" 2) 3
      (request (acknowledged ∷ [])) empty_db (db_of (outcome (acknowledged ∷ [])))
      (reply_of (outcome (acknowledged ∷ []))) bound_reply bound_passes

abbrev unbound_result : Result (Fields ℤ) × Db signed_codec.Text
unbound_result = (ok (reply_of (outcome [])), db_of (outcome []))

unbound_reply : outcome [] ≡ some unbound_result
unfolding verify_delivery record_delivery append_audit_tx
unbound_reply = refl

verify_delivery_unbound_example :
    (reputation "seller" "review" unbound_result.1.observations).0
    ≡ (reputation "seller" "review" []).0
verify_delivery_unbound_example =
    verify_delivery_unbound fixed_point validator printer signed_codec (stamp "o1" 1) (stamp "a1" 2)
      3 (request []) empty_db unbound_result "seller" "review" (inr refl) unbound_reply

assertions_probe_lem_example :
    (((assertions_probe fixed_point output (acknowledged ∷ [])).state ≡ inconclusive)
      ↔ (acknowledged ∷ [] ≡ []))
    × (((assertions_probe fixed_point output (acknowledged ∷ [])).state ≡ pass)
        ↔ ((acknowledged ∷ [] ≢ []) × All (Holds fixed_point output) (acknowledged ∷ [])))
assertions_probe_lem_example = assertions_probe_lem fixed_point output (acknowledged ∷ [])

abbrev pub canary : ProbeObservationRequest ℤ
canary = record {
  probe_id = "p1";
  provider_id = "seller";
  nonce = "nonce-01";
  output = output;
  latency_ms = 12;
}

abbrev probes_of : Option (List (ProbeResult ℤ)) → List (ProbeResult ℤ)
probes_of (some probes) = probes
probes_of none = []

abbrev probed : List (ProbeResult ℤ)
probed = probes_of (canary_probes fixed_point validator printer canary)

canary_is_probed : canary_probes fixed_point validator printer canary ≡ some probed
unfolding canary_probes
canary_is_probed = refl

canary_passes : (aggregate fixed_point probed).0 ≡ pass
unfolding canary_probes aggregate
canary_passes = refl

canary_pass_example :
    HasText fixed_point "counterparty_probe_id" "nonce-01" output
    × All (λ m. is_in m (printer.lower_dumps output) ≡ false) injection_markers
canary_pass_example =
    canary_pass fixed_point validator printer canary probed canary_is_probed canary_passes

abbrev pub canary_outcome : Outcome
canary_outcome =
    probe_observation fixed_point validator printer signed_codec (stamp "c1" 1) (stamp "a1" 2)
      canary empty_db

abbrev pub canary_result : Result (Fields ℤ) × Db signed_codec.Text
canary_result = (ok (reply_of canary_outcome), db_of canary_outcome)

pub canary_is_recorded : canary_outcome ≡ some canary_result
unfolding probe_observation record_canary append_audit_tx
canary_is_recorded = refl

probe_observation_lem_example :
    (r : Result (Fields ℤ) × Db signed_codec.Text) × (canary_outcome ≡ some r)
    × ShowsOutcome fixed_point validator printer signed_codec
        (stamp "c1" 1)
        (stamp "a1" 2)
        canary
        empty_db
        "PASS"
        r
unfolding canary_probes
probe_observation_lem_example =
    probe_observation_lem fixed_point validator printer signed_codec (stamp "c1" 1) (stamp "a1" 2)
      canary empty_db probed canary_is_probed
