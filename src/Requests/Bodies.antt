-- ===== src/Requests/Bodies.antt =====
-- The request models of `counterparty/models.py`, as checks of a JSON body.
use counterparty_sharedos.Prelude.{Option, none, some, List, [], ◌∷◌, map, String}
use counterparty_sharedos.Floats.{Floats}
use counterparty_sharedos.Json.{Json, null, end, get}
use counterparty_sharedos.Ingress.{text_length}
use counterparty_sharedos.Models.{
  safe, Assertion, IndependentCheck, DeliveryVerificationRequest, ProbeObservationRequest,
  CandidateRequest, BestExecutionRequest, TrustSnapshotRequest,
}
use counterparty_sharedos.Requests.{
  Pydantic, ◌>>=◌, ◌>>◌, guard, required, defaulted, nullable, list_of, only_keys, are_unique,
  dict_of, state_of, op_of, mode_of, bounded_str, bounded_int, fraction, output_must_be_bounded,
  strict_model,
}

abbrev pub candidate_keys : List String
candidate_keys = "service_id" ∷ "price_credits" ∷ "task_fit" ∷ "latency_ms" ∷ []

abbrev pub execution_keys : List String
execution_keys = "task" ∷ "task_type" ∷ "budget_credits" ∷ "candidates" ∷ "mode" ∷ []

module _ (fl : Floats) (py : Pydantic fl.F) where
  unfoldable pub trust_snapshot_request : Json fl.F → Option TrustSnapshotRequest
  unfolding text_length only_keys get
  trust_snapshot_request = strict_model fl py ("service_id" ∷ "task_type" ∷ []) λ fs. do
    service_id ← required "service_id" (bounded_str fl py 1 200) fs
    task_type ← defaulted "task_type" "general" (bounded_str fl py 1 100) fs
    some record { service_id = service_id; task_type = task_type }

  unfoldable pub assertion : Json fl.F → Option (Assertion fl.F)
  unfolding text_length only_keys get
  assertion = strict_model fl py ("path" ∷ "op" ∷ "value" ∷ []) λ fs. do
    path ← required "path" (bounded_str fl py 1 500) fs
    op ← required "op" op_of fs
    value ← defaulted "value" null (λ j. some j) fs
    some record { path = path; op = op; value = value }

  unfoldable pub independent_check : Json fl.F → Option (IndependentCheck fl.F)
  unfolding text_length only_keys get
  independent_check =
      strict_model fl py ("probe" ∷ "state" ∷ "score" ∷ "reason" ∷ "evidence" ∷ []) λ fs. do
        probe ← required "probe" (bounded_str fl py 1 100) fs
        state ← required "state" state_of fs
        score ← defaulted "score" none (nullable (fraction fl py)) fs
        reason ← required "reason" (bounded_str fl py 1 2000) fs
        evidence ← defaulted "evidence" end dict_of fs
        some record {
          probe = probe;
          state = state;
          score = score;
          reason = reason;
          evidence = evidence;
        }

  unfoldable pub delivery_request : Json fl.F → Option (DeliveryVerificationRequest fl.F)
  unfolding text_length only_keys get list_of assertion independent_check
  delivery_request =
      strict_model fl py
        ("delivery_id" ∷ "provider_id" ∷ "task" ∷ "task_type" ∷ "output" ∷ "expected_schema"
          ∷ "assertions" ∷ "cited_urls" ∷ "independent_checks" ∷ [])
        λ fs. do
          delivery_id ← required "delivery_id" (bounded_str fl py 1 200) fs
          provider_id ← required "provider_id" (bounded_str fl py 1 200) fs
          task ← required "task" (bounded_str fl py 1 12000) fs
          task_type ← defaulted "task_type" "general" (bounded_str fl py 1 100) fs
          output ← required "output" (output_must_be_bounded fl py) fs
          expected_schema ← defaulted "expected_schema" none (nullable dict_of) fs
          assertions ← defaulted "assertions" [] (list_of 0 64 assertion) fs
          cited_urls ← defaulted "cited_urls" [] (list_of 0 32 py.as_url) fs
          independent_checks ← defaulted "independent_checks" [] (list_of 0 16 independent_check) fs
          some record {
            delivery_id = delivery_id;
            provider_id = provider_id;
            task = task;
            task_type = task_type;
            output = output;
            expected_schema = expected_schema;
            assertions = assertions;
            cited_urls = cited_urls;
            independent_checks = independent_checks;
          }

  unfoldable pub probe_request : Json fl.F → Option (ProbeObservationRequest fl.F)
  unfolding text_length only_keys get
  probe_request =
      strict_model fl py ("probe_id" ∷ "provider_id" ∷ "nonce" ∷ "output" ∷ "latency_ms" ∷ []) λ fs.
        do
          probe_id ← required "probe_id" (bounded_str fl py 1 200) fs
          provider_id ← required "provider_id" (bounded_str fl py 1 200) fs
          nonce ← required "nonce" (bounded_str fl py 8 200) fs
          output ← required "output" (output_must_be_bounded fl py) fs
          latency_ms ← required "latency_ms" (bounded_int fl py 0 300000) fs
          some record {
            probe_id = probe_id;
            provider_id = provider_id;
            nonce = nonce;
            output = output;
            latency_ms = latency_ms;
          }

  unfoldable pub candidate : Json fl.F → Option (CandidateRequest fl.F)
  unfolding text_length only_keys get
  candidate = strict_model fl py candidate_keys λ fs. do
    service_id ← required "service_id" (bounded_str fl py 1 200) fs
    price_credits ← required "price_credits" (bounded_int fl py 0 100) fs
    task_fit ← defaulted "task_fit" (fl.lit 5 1) (fraction fl py) fs
    latency_ms ← defaulted "latency_ms" none (nullable (bounded_int fl py 0 300000)) fs
    some record {
      service_id = service_id;
      price_credits = price_credits;
      task_fit = task_fit;
      latency_ms = latency_ms;
    }

  -- the validator `candidates_must_be_unique`
  abbrev pub candidates_must_be_unique :
      BestExecutionRequest fl.F → Option (BestExecutionRequest fl.F)
  candidates_must_be_unique req = do
    guard (are_unique (map (λ (r : CandidateRequest fl.F). r.service_id) req.candidates))
    some req

  unfoldable pub execution_request : Json fl.F → Option (BestExecutionRequest fl.F)
  unfolding text_length only_keys get list_of candidate are_unique
  execution_request = strict_model fl py execution_keys λ fs. do
    task ← required "task" (bounded_str fl py 1 12000) fs
    task_type ← defaulted "task_type" "general" (bounded_str fl py 1 100) fs
    budget_credits ← required "budget_credits" (bounded_int fl py 1 100) fs
    candidates ← required "candidates" (list_of 1 32 candidate) fs
    mode ← defaulted "mode" safe mode_of fs
    candidates_must_be_unique record {
      task = task;
      task_type = task_type;
      budget_credits = budget_credits;
      candidates = candidates;
      mode = mode;
    }
