-- ===== src/Examples/RoutingTests.antt =====
-- Reputation, aggregation, ranking and routing on concrete figures: tests, and the theorems applied to
-- them.
use counterparty_sharedos.Prelude.{
  ℕ, ◌≡◌, ◌≤◌, ◌<◌, ◌*◌, ◌^◌, ◌⊎◌, ◌↔◌, ◌≢◌, refl, true, false, not, Option, none, some, List, [],
  ◌∷◌, ◌++◌, String, All, Among, map, find, ltb, arith,
}
use counterparty_sharedos.Prelude.Int.{ℤ, pos}
use mathlib.Core.List.{Perm}
use counterparty_sharedos.Sorting.{sort}
use counterparty_sharedos.Floats.{Le, IsFraction, nat, fge}
use counterparty_sharedos.Models.{
  EvidenceState, pass, fail, inconclusive, ProbeResult, safe, Tier, verified, rejected,
  CandidateRequest, CandidateScore,
}
use counterparty_sharedos.Reputation.{
  BayesianReputation, observations, confidence, score_100, conservative_score_100,
}
use counterparty_sharedos.Reputation.Bounds.{IsCountable, score_bounds, confidence_lem}
use counterparty_sharedos.Verification.{aggregate, aggregate_state, has_state}
use counterparty_sharedos.Verification.Verdict.{worst, aggregate_state_lem}
use counterparty_sharedos.Verification.Confidence.{ScoreInRange, aggregate_bounds}
use counterparty_sharedos.Routing.{rank, utility}
use counterparty_sharedos.Routing.Ranking.{priced, IsDescending, rank_lem}
use counterparty_sharedos.Routing.Viable.{IsInRange, viable-eq-fits}
use counterparty_sharedos.Store.{Db}
use counterparty_sharedos.BestExecution.{is_viable, decide, candidate_figures, candidate_scores}
use counterparty_sharedos.BestExecution.Decide.{eligible, routed, routed-decide}
use counterparty_sharedos.BestExecution.Optimal.{
  may_route, recommendation_optimal, recommendation_complete,
}
use counterparty_sharedos.BestExecution.Range.{candidate_scores_total}
use counterparty_sharedos.TrustSnapshot.{verdict, snapshot_tier, buy, run_canary}
use counterparty_sharedos.TrustSnapshot.Buy.{tier_verdict, verdict_of_tier, verdict_buy}
use counterparty_sharedos.Examples.FixedPoint.{fixed_point}
use counterparty_sharedos.Examples.FixedPoint.Laws.{fixed_point-IsIeee}

abbrev nine_good : BayesianReputation
nine_good = record { successes = 9; failures = 1 }

abbrev unknown : BayesianReputation
unknown = record { successes = 0; failures = 0 }

-- 0.5 * (1 - 10/18) + 11/14 * 10/18 is 65.87
score_of_nine_good : score_100 fixed_point nine_good ≡ pos (6587 * 10 ^ 18)
unfolding score_100
score_of_nine_good = refl

nine_good-IsCountable : IsCountable nine_good
unfolding observations
nine_good-IsCountable = omega arith

score_bounds_example :
    Le fixed_point (nat fixed_point 0) (conservative_score_100 fixed_point nine_good)
    × Le fixed_point
        (conservative_score_100 fixed_point nine_good)
        (score_100 fixed_point nine_good)
    × Le fixed_point (score_100 fixed_point nine_good) (nat fixed_point 100)
score_bounds_example = score_bounds fixed_point fixed_point-IsIeee nine_good nine_good-IsCountable

confidence_lem_example :
    ((fge fixed_point (confidence fixed_point nine_good) (fixed_point.lit 5 1) ≡ true)
      ↔ (8 ≤ observations nine_good))
    × Le fixed_point (confidence fixed_point nine_good) (fixed_point.lit 99 2)
confidence_lem_example =
    confidence_lem fixed_point fixed_point-IsIeee nine_good nine_good-IsCountable

verdict_buy_example : ((verdict fixed_point nine_good unknown).0 ≡ buy) ↔ (
    Le fixed_point (nat fixed_point 75) (score_100 fixed_point nine_good)
    × (8 ≤ observations nine_good))
verdict_buy_example =
    verdict_buy fixed_point fixed_point-IsIeee nine_good unknown nine_good-IsCountable

verdict_of_tier_example :
    ((observations unknown ≡ 0)
      × (verdict fixed_point unknown nine_good ≡ tier_verdict (snapshot_tier unknown nine_good)))
    ⊎ ((0 < observations unknown)
        × (snapshot_tier unknown nine_good ≡ verified)
        × ((verdict fixed_point unknown nine_good).1 ≢ run_canary))
verdict_of_tier_example = verdict_of_tier fixed_point unknown nine_good

abbrev probe : String → EvidenceState → Option ℤ → ProbeResult ℤ
probe name state score = record { probe = name; state = state; score = score }

abbrev half_decided : List (ProbeResult ℤ)
half_decided =
    probe "schema" pass (some (nat fixed_point 1)) ∷ probe "assertions" inconclusive none ∷ []

half_decided-ScoreInRange : All (ScoreInRange fixed_point fixed_point-IsIeee) half_decided
half_decided-ScoreInRange = ((λ x e. ground arith), ((λ x e. ground arith), tt))

aggregate_state_lem_example :
    let good : ProbeResult ℤ = probe "schema" pass none in
    let bad : ProbeResult ℤ = probe "x" fail none in
    let open_one : ProbeResult ℤ = probe "assertions" inconclusive none in
    let xs : List (ProbeResult ℤ) = good ∷ open_one ∷ [] in
    ((aggregate_state xs ≡ pass) ↔ All (λ r. r.state ≡ pass) xs)
    × ((aggregate_state xs ≡ fail) ↔ (has_state fail xs ≡ true))
    × ((aggregate_state xs ≡ inconclusive)
        ↔ ((has_state inconclusive xs ≡ true) × (has_state fail xs ≡ false)))
    × (aggregate_state (xs ++ bad ∷ []) ≡ worst (aggregate_state xs) (aggregate_state (bad ∷ [])))
    × (aggregate_state (xs ++ bad ∷ []) ≡ aggregate_state (bad ∷ xs))
aggregate_state_lem_example =
    aggregate_state_lem (probe "schema" pass none) (probe "x" fail none)
      (probe "assertions" inconclusive none ∷ []) []

aggregate_bounds_example :
    IsFraction fixed_point (aggregate fixed_point half_decided).1
    × IsFraction fixed_point (aggregate fixed_point half_decided).2
aggregate_bounds_example =
    aggregate_bounds fixed_point fixed_point-IsIeee half_decided half_decided-ScoreInRange
      (omega arith)

half_decided_verdict : (aggregate fixed_point half_decided).0 ≡ inconclusive
unfolding aggregate
half_decided_verdict = refl

abbrev seller : String → ℕ → Tier → CandidateScore ℤ
seller name price tier = record {
  service_id = name;
  price_credits = price;
  trust_score = nat fixed_point 60;
  confidence = fixed_point.lit 5 1;
  task_fit = fixed_point.lit 8 1;
  latency_ms = 1000;
  observations = 8;
  protocol_observations = 0;
  evidence_tier = tier;
}

abbrev sellers : List (CandidateScore ℤ)
sellers = seller "dear" 50 verified ∷ seller "fair" 9 verified ∷ seller "cheap" 3 rejected ∷ []

seller-IsInRange :
    (name : String) (price : ℕ) (tier : Tier) → IsInRange fixed_point (seller name price tier)
seller-IsInRange name price tier = record {
  trust_low = refl;
  trust_high = refl;
  confidence = (refl, refl);
  task_fit = (refl, refl);
}

sellers-IsInRange : All (IsInRange fixed_point) sellers
sellers-IsInRange = (
  seller-IsInRange "dear" 50 verified,
  (seller-IsInRange "fair" 9 verified, (seller-IsInRange "cheap" 3 rejected, tt)),
)

viable-eq-fits_example :
    is_viable fixed_point
      (seller "dear" 50 verified, utility fixed_point (seller "dear" 50 verified) 20 safe)
    ≡ not (ltb 20 50)
viable-eq-fits_example =
    viable-eq-fits fixed_point fixed_point-IsIeee (seller "dear" 50 verified)
      (seller-IsInRange "dear" 50 verified) 20 safe

rank_lem_example :
    IsDescending fixed_point (rank fixed_point sellers 20 safe)
    × Perm (rank fixed_point sellers 20 safe) (map (priced fixed_point 20 safe) sellers)
rank_lem_example = rank_lem fixed_point fixed_point-IsIeee sellers 20 safe

routed-decide_example :
    routed fixed_point (decide fixed_point safe (rank fixed_point sellers 20 safe))
    ≡ find (eligible fixed_point safe) (rank fixed_point sellers 20 safe)
routed-decide_example = routed-decide fixed_point safe (rank fixed_point sellers 20 safe)

abbrev fair_utility : ℤ
fair_utility = utility fixed_point (seller "fair" 9 verified) 20 safe

fair_is_routed :
    routed fixed_point (decide fixed_point safe (rank fixed_point sellers 20 safe))
    ≡ some (seller "fair" 9 verified, fair_utility)
unfolding decide rank utility sort
fair_is_routed = refl

recommendation_optimal_example :
    Among (seller "fair" 9 verified) sellers
    × (fair_utility ≡ utility fixed_point (seller "fair" 9 verified) 20 safe)
    × (may_route 20 safe (seller "fair" 9 verified) ≡ true)
    × All
        (λ d.
          (may_route 20 safe d ≡ false)
          ⊎ Le fixed_point (utility fixed_point d 20 safe) fair_utility)
        sellers
recommendation_optimal_example =
    recommendation_optimal fixed_point fixed_point-IsIeee 20 safe sellers (seller "fair" 9 verified)
      fair_utility sellers-IsInRange fair_is_routed

nothing_is_routed :
    routed fixed_point (decide fixed_point safe (rank fixed_point sellers 5 safe)) ≡ none
unfolding decide rank utility sort
nothing_is_routed = refl

recommendation_complete_example :
    (routed fixed_point (decide fixed_point safe (rank fixed_point sellers 5 safe)) ≡ none)
    ↔ All (λ d. may_route 5 safe d ≡ false) sellers
recommendation_complete_example =
    recommendation_complete fixed_point fixed_point-IsIeee 5 safe sellers sellers-IsInRange

abbrev requests : List (CandidateRequest ℤ)
requests =
    record {
      service_id = "s";
      price_credits = 4;
      task_fit = fixed_point.lit 8 1;
      latency_ms = none;
    }
    ∷ []

abbrev one_row : Db ℕ
one_row = record {
  observations =
      record {
        id = "o1";
        delivery_id = "d1";
        service_id = "s";
        task_type = "review";
        outcome = "PASS";
        latency_ms = some 20;
        evidence_hash = "e1";
        created_ns = 1;
      }
      ∷ [];
  protocol_observations = [];
  audit_events = [];
}

candidate_scores_total_example :
    (candidate_scores fixed_point safe "review" one_row requests
      ≡ some (map (candidate_figures fixed_point safe "review" one_row) requests))
    × All
        (IsInRange fixed_point)
        (map (candidate_figures fixed_point safe "review" one_row) requests)
candidate_scores_total_example =
    candidate_scores_total fixed_point fixed_point-IsIeee safe "review" one_row (omega arith)
      (omega arith) requests ((refl, refl), tt)
