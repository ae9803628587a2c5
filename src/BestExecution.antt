-- ===== src/BestExecution.antt =====
-- The handler `best_execution` of `counterparty/app.py`: the evidence on each candidate, the decision
-- over the ranking, and the audit event.
pub mod Decide
pub mod Optimal
pub mod Range
use counterparty_sharedos.Prelude.{
  ℕ, zero, suc, ltb, Bool, true, false, not, ◌&&◌, ◌||◌, Option, none, some, List, [], ◌∷◌, map,
  filter, take, String, if◌then◌else◌,
}
use counterparty_sharedos.Prelude.Int.{pos}
use counterparty_sharedos.Floats.{Floats, nat, fmin}
use counterparty_sharedos.Json.{
  Json, Fields, Items, int, float, text, arr, obj, nil, cons, end, field, set_key, Codec,
}
use counterparty_sharedos.Models.{
  CandidateRequest, CandidateScore, BestExecutionRequest, Mode, safe, explore, mode_value, Tier,
  verified, provisional, rejected, unproven, tier_value, make_score,
}
use counterparty_sharedos.Reputation.{
  BayesianReputation, observations, confidence, score_100, conservative_score_100,
}
use counterparty_sharedos.Routing.{Ranked, rank}
use counterparty_sharedos.Audit.{Event, Stamp}
use counterparty_sharedos.Store.{Db, Result, ok, err, append_audit}
use counterparty_sharedos.Store.Query.{reputation, protocol_reputation}

-- `a or b` for a latency, where None and 0 are both false
abbrev pub or_latency : Option ℕ → ℕ → ℕ
or_latency none rest = rest
or_latency (some zero) rest = rest
or_latency (some (suc n)) rest = suc n

-- the latency that is ranked by
abbrev pub chosen_latency : Option ℕ → Option ℕ → Option ℕ → ℕ
chosen_latency (some n) observed protocol = n
chosen_latency none observed protocol = or_latency observed (or_latency protocol 1000)

abbrev pub is_rejected : Tier → Bool
is_rejected rejected = true
is_rejected _ = false

-- `evidence_tier in {"VERIFIED", "PROVISIONAL"}`
abbrev pub has_evidence : Tier → Bool
has_evidence verified = true
has_evidence provisional = true
has_evidence _ = false

abbrev pub is_unproven : Tier → Bool
is_unproven unproven = true
is_unproven _ = false

module _ (fl : Floats) where
  -- trust, confidence and tier, from the delivery evidence first and the canary evidence next
  unfoldable pub assessment : Mode → BayesianReputation → BayesianReputation → fl.F × fl.F × Tier
  unfolding observations
  assessment mode rep protocol_rep =
      if ltb 0 (observations rep)
      then (
        elim mode [ safe ↦ conservative_score_100 fl rep | explore ↦ score_100 fl rep ],
        confidence fl rep,
        verified,
      )
      else if ltb 0 (observations protocol_rep)
      then (
        fl.add (nat fl 50) (fl.mul (fl.lit 5 1) (fl.sub (score_100 fl protocol_rep) (nat fl 50))),
        fmin fl (fl.lit 5 1)
            (fl.add (fl.lit 2 1) (fl.mul (fl.lit 5 1) (confidence fl protocol_rep))),
        if ltb protocol_rep.successes protocol_rep.failures then rejected else provisional,
      )
      else (nat fl 50, nat fl 0, unproven)

  -- the arguments of `CandidateScore(...)`
  unfoldable pub candidate_figures :
      {Text : Type 0} → Mode → String → Db Text → CandidateRequest fl.F → CandidateScore fl.F
  unfolding assessment reputation protocol_reputation
  candidate_figures mode task_type db candidate =
      let (rep, observed_latency) = reputation candidate.service_id task_type db.observations in
      let (protocol_rep, protocol_latency) =
        protocol_reputation candidate.service_id db.protocol_observations in
      let (trust, confidence, tier) = assessment mode rep protocol_rep in
      record {
        service_id = candidate.service_id;
        price_credits = candidate.price_credits;
        trust_score = trust;
        confidence = confidence;
        task_fit = candidate.task_fit;
        latency_ms = chosen_latency candidate.latency_ms observed_latency protocol_latency;
        observations = observations rep;
        protocol_observations = observations protocol_rep;
        evidence_tier = tier;
      }

  unfoldable pub candidate_scores_step :
      Option (CandidateScore fl.F)
      → Option (List (CandidateScore fl.F))
      → Option (List (CandidateScore fl.F))
  candidate_scores_step none rest = none
  candidate_scores_step (some score) none = none
  candidate_scores_step (some score) (some scores) = some (score ∷ scores)

  -- the loop over the candidates; `none` is `ValidationError`
  unfoldable pub candidate_scores :
      {Text : Type 0}
      → Mode
      → String
      → Db Text
      → List (CandidateRequest fl.F)
      → Option (List (CandidateScore fl.F))
  unfolding candidate_figures make_score candidate_scores_step
  candidate_scores mode task_type db [] = some []
  candidate_scores mode task_type db (candidate ∷ candidates) =
      candidate_scores_step (make_score fl (candidate_figures mode task_type db candidate))
        (candidate_scores mode task_type db candidates)

  -- the four results
  pub data Decision : Type 0 where
    nothing_fits : Decision
    all_rejected : List (Ranked fl) → Decision
    needs_evidence : List (Ranked fl) → List String → Decision
    route : Ranked fl → List (Ranked fl) → Decision

  -- `u > -1e8`
  abbrev pub is_viable : Ranked fl → Bool
  is_viable (c, u) = fl.lt (fl.neg (nat fl 100000000)) u

  -- the first five that are UNPROVEN
  abbrev pub targets : List (Ranked fl) → List String
  targets routeable = take 5 (
      map (λ (x : Ranked fl). x.0.service_id)
        (filter (λ (x : Ranked fl). is_unproven x.0.evidence_tier) routeable))

  unfoldable pub decide_from :
      Mode → List (Ranked fl) → List (Ranked fl) → List (Ranked fl) → Decision
  decide_from mode [] routeable evidence_ready = nothing_fits
  decide_from mode (v ∷ vs) [] evidence_ready = all_rejected (v ∷ vs)
  decide_from safe (v ∷ vs) (r ∷ rs) [] = needs_evidence (v ∷ vs) (targets (r ∷ rs))
  decide_from safe (v ∷ vs) (r ∷ rs) (e ∷ es) = route e (v ∷ vs)
  decide_from explore (v ∷ vs) (r ∷ rs) evidence_ready = route r (v ∷ vs)

  unfoldable pub decide : Mode → List (Ranked fl) → Decision
  unfolding decide_from
  decide mode ranked =
      let viable = filter is_viable ranked in
      let routeable = filter (λ (x : Ranked fl). not (is_rejected x.0.evidence_tier)) viable in
      let evidence_ready = filter (λ (x : Ranked fl). has_evidence x.0.evidence_tier) routeable in
      decide_from mode viable routeable evidence_ready

  -- `row(c, u)`
  abbrev pub row : Ranked fl → Json fl.F
  row (c, u) = obj (
      field "service_id" (text c.service_id) (
        field "utility" (float (fl.round 4 u)) (
          field "price_credits" (int (pos c.price_credits)) (
            field "trust_score" (float (fl.round 2 c.trust_score)) (
              field "confidence" (float (fl.round 4 c.confidence)) (
                field "evidence_tier" (text (tier_value c.evidence_tier)) (
                  field "verified_observations" (int (pos c.observations))
                    (field "protocol_observations" (int (pos c.protocol_observations)) end))))))))

  abbrev pub rows : List (Ranked fl) → Items fl.F
  rows [] = nil
  rows (x ∷ xs) = cons (row x) (rows xs)

  abbrev pub texts : List String → Items fl.F
  texts [] = nil
  texts (s ∷ ss) = cons (text s) (texts ss)

  abbrev pub next_action : String → ℕ → String → Fields fl.F → Json fl.F
  next_action service price reason more = obj (
      field "service" (text service)
        (field "price_credits" (int (pos price)) (field "reason" (text reason) more)))

  abbrev pub strength : Tier → String
  strength verified = "VERIFIED"
  strength _ = "PROVISIONAL"

  -- the dictionary `result`
  unfoldable pub decision_json : Decision → Fields fl.F
  decision_json nothing_fits =
      field "state" (text "INCONCLUSIVE")
        (field "reason" (text "No candidate fits the budget") (field "ranked" (arr nil) end))
  decision_json (all_rejected viable) = field "state" (text "INCONCLUSIVE") (
      field "reason"
        (text "Every in-budget candidate is rejected by deterministic active-canary evidence.")
        (field "ranked" (arr (rows viable)) end))
  decision_json (needs_evidence viable unknown) = field "state" (text "INCONCLUSIVE") (
      field "reason"
        (text "No in-budget candidate has verified delivery evidence or a passing protocol canary.")
        (field "ranked" (arr (rows viable)) (
          field "next_action"
            (next_action "trust_snapshot" 4
              "Trust Snapshot actively canary-tests an unknown seller under a bounded SharedOS Probe grant."
              (field "targets" (arr (texts unknown)) end))
            end)))
  decision_json (route (c, u) viable) = field "state" (text "PASS") (
      field "recommended" (text c.service_id) (
        field "expected_utility" (float (fl.round 4 u)) (
          field "evidence_tier" (text (tier_value c.evidence_tier)) (
            field "recommendation_strength" (text (strength c.evidence_tier)) (
              field "ranked" (arr (rows viable)) (
                field "next_action"
                  (next_action "verify_delivery" 7
                    "After purchase, verify the actual delivery to upgrade provisional protocol evidence into task-specific reputation."
                    end)
                  end))))))

module _ (fl : Floats) (c : Codec fl.F) where
  abbrev pub execution_payload : BestExecutionRequest fl.F → Fields fl.F → Fields fl.F
  execution_payload req result =
      field "task_hash" (text (c.sha256 (c.plain req.task)))
        (field "mode" (text (mode_value req.mode)) (field "result" (obj result) end))

  abbrev pub with_receipt :
      Fields fl.F → Result (Event fl.F) × Db c.Text → Result (Fields fl.F) × Db c.Text
  with_receipt result (ok event, db) = (ok (set_key "audit_receipt" (text event.hash) result), db)
  with_receipt result (err e, db) = (err e, db)

  -- `none` is the `ValidationError` of a `CandidateScore`, before anything is written
  unfoldable pub best_execution :
      Stamp → BestExecutionRequest fl.F → Db c.Text → Option (Result (Fields fl.F) × Db c.Text)
  unfolding candidate_scores decide decision_json append_audit
  best_execution stamp req db =
      elim (candidate_scores fl req.mode req.task_type db req.candidates) [
        | none ↦ none
        | some scores ↦
            let result =
              decision_json fl (decide fl req.mode (rank fl scores req.budget_credits req.mode)) in
            some (
              with_receipt result
                (append_audit c stamp "best_execution" (execution_payload req result) db))
      ]
