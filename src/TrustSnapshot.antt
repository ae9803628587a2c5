-- ===== src/TrustSnapshot.antt =====
-- The handler `trust_snapshot` of `counterparty/app.py`: the verdict on a provider from its delivery
-- evidence, or from its canaries where there is none, and the audit event.
pub mod Buy
use counterparty_sharedos.Prelude.{
  ℕ, zero, suc, ltb, ◌==◌, Bool, true, false, ◌&&◌, Option, none, some, String, if◌then◌else◌,
}
use counterparty_sharedos.Prelude.Int.{pos}
use counterparty_sharedos.Floats.{Floats, fge, nat}
use counterparty_sharedos.Json.{
  Json, Fields, null, int, float, text, obj, end, field, set_key, Codec,
}
use counterparty_sharedos.Models.{
  Tier, verified, provisional, rejected, unproven, tier_value, TrustSnapshotRequest,
}
use counterparty_sharedos.Reputation.{
  BayesianReputation, observations, confidence, score_100, conservative_score_100,
}
use counterparty_sharedos.Audit.{Stamp}
use counterparty_sharedos.Store.{Db, Result, append_audit}
use counterparty_sharedos.Store.Query.{reputation, protocol_reputation}
use counterparty_sharedos.BestExecution.{with_receipt}

pub data Verdict : Type 0 where
  buy try_small caution unproven_seller avoid : Verdict

abbrev pub verdict_value : Verdict → String
verdict_value buy = "BUY"
verdict_value try_small = "TRY_SMALL"
verdict_value caution = "CAUTION"
verdict_value unproven_seller = "UNPROVEN"
verdict_value avoid = "AVOID"

pub data Action : Type 0 where
  run_canary skip buy_small_then_verify buy_now : Action

abbrev pub action_value : Action → String
action_value run_canary = "RUN_CANARY"
action_value skip = "SKIP"
action_value buy_small_then_verify = "BUY_SMALL_THEN_VERIFY"
action_value buy_now = "BUY"

-- `failures > successes`
abbrev pub is_negative : BayesianReputation → Bool
is_negative r = ltb r.successes r.failures

-- where there is no delivery evidence
unfoldable pub canary_verdict : BayesianReputation → Verdict × Action
unfolding observations
canary_verdict protocol_rep =
    if observations protocol_rep == 0
    then (unproven_seller, run_canary)
    else if is_negative protocol_rep
    then (avoid, skip)
    else (try_small, buy_small_then_verify)

unfoldable pub snapshot_tier : BayesianReputation → BayesianReputation → Tier
unfolding observations
snapshot_tier rep protocol_rep =
    if ltb 0 (observations rep)
    then verified
    else if ltb 0 (observations protocol_rep) && is_negative protocol_rep
    then rejected
    else if ltb 0 (observations protocol_rep)
    then provisional
    else unproven

abbrev pub optional_int : {F : Type 0} → Option ℕ → Json F
optional_int none = null
optional_int (some n) = int (pos n)

module _ (fl : Floats) where
  -- where there is delivery evidence
  unfoldable pub delivery_verdict : BayesianReputation → Verdict × Action
  delivery_verdict rep =
      if fge fl (score_100 fl rep) (nat fl 75) && fge fl (confidence fl rep) (fl.lit 5 1)
      then (buy, buy_now)
      else if fge fl (score_100 fl rep) (nat fl 55)
      then (caution, buy_small_then_verify)
      else (avoid, skip)

  unfoldable pub verdict : BayesianReputation → BayesianReputation → Verdict × Action
  unfolding observations canary_verdict delivery_verdict
  verdict rep protocol_rep =
      if observations rep == 0 then canary_verdict protocol_rep else delivery_verdict rep

  -- what is audited
  abbrev pub snapshot_payload :
      TrustSnapshotRequest → BayesianReputation → BayesianReputation → Fields fl.F
  snapshot_payload req rep protocol_rep =
      let (v, a) = verdict rep protocol_rep in
      field "service_id" (text req.service_id) (
        field "task_type" (text req.task_type) (
          field "score" (float (score_100 fl rep)) (
            field "conservative_score" (float (conservative_score_100 fl rep)) (
              field "confidence" (float (confidence fl rep)) (
                field "observations" (int (pos (observations rep))) (
                  field "protocol_observations" (int (pos (observations protocol_rep))) (
                    field "evidence_tier" (text (tier_value (snapshot_tier rep protocol_rep))) (
                      field "verdict" (text (verdict_value v))
                        (field "action" (text (action_value a)) end)))))))))

  abbrev pub evidence_json : BayesianReputation → Option ℕ → Json fl.F
  evidence_json rep latency = obj (
      field "successes" (int (pos rep.successes)) (
        field "failures" (int (pos rep.failures))
          (field "median_latency_ms" (optional_int latency) end)))

  abbrev pub protocol_json : BayesianReputation → Option ℕ → Json fl.F
  protocol_json rep latency = obj (
      field "successes" (int (pos rep.successes)) (
        field "failures" (int (pos rep.failures)) (
          field "observations" (int (pos (observations rep))) (
            field "score" (float (score_100 fl rep)) (
              field "confidence" (float (fl.round 4 (confidence fl rep)))
                (field "median_latency_ms" (optional_int latency) end))))))

  -- the reply, but for its receipt
  abbrev pub snapshot_reply :
      TrustSnapshotRequest
      → BayesianReputation × Option ℕ
      → BayesianReputation × Option ℕ
      → Fields fl.F
  snapshot_reply req (rep, latency) (protocol_rep, protocol_latency) =
      let (v, a) = verdict rep protocol_rep in
      field "service_id" (text req.service_id) (
        field "task_type" (text req.task_type) (
          field "trust_score" (float (score_100 fl rep)) (
            field "conservative_score" (float (conservative_score_100 fl rep)) (
              field "confidence" (float (fl.round 4 (confidence fl rep))) (
                field "observations" (int (pos (observations rep))) (
                  field "verdict" (text (verdict_value v)) (
                    field "action" (text (action_value a)) (
                      field "evidence_tier" (text (tier_value (snapshot_tier rep protocol_rep))) (
                        field "evidence" (evidence_json rep latency) (
                          field "protocol_evidence" (protocol_json protocol_rep protocol_latency)
                            end))))))))))

module _ (fl : Floats) (c : Codec fl.F) where
  unfoldable pub trust_snapshot :
      Stamp → TrustSnapshotRequest → Db c.Text → Result (Fields fl.F) × Db c.Text
  unfolding append_audit
  trust_snapshot stamp req db =
      let delivered = reputation req.service_id req.task_type db.observations in
      let probed = protocol_reputation req.service_id db.protocol_observations in
      with_receipt fl c (snapshot_reply fl req delivered probed)
        (append_audit c stamp "trust_snapshot" (snapshot_payload fl req delivered.0 probed.0) db)
