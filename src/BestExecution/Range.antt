-- ===== src/BestExecution/Range.antt =====
-- No `CandidateScore` that the handler builds is refused: the figures that it computes lie in the
-- ranges that pydantic checks.
use counterparty_sharedos.Prelude.{
  ◌+◌, ◌≤◌, ◌^◌, ◌≡◌, refl, inl, inr, Bool, Option, some, List, [], ◌∷◌, map, filter, length, ltb,
  All, arith, Bool-cases, String, str_eq,
}
use mathlib.Core.Path.{subst}
use counterparty_sharedos.Floats.{Floats, IsIeee, Le, nat, IsFraction, fmin}
use counterparty_sharedos.Floats.Order.{
  Le_trans, Le_refl, fmin-le_left, le-fmin, nat_mono, zero-le-lit, add_nonneg, mul_nonneg,
  fraction_mul-le,
}
use counterparty_sharedos.Models.{CandidateRequest, CandidateScore, Mode, safe, explore, make_score}
use counterparty_sharedos.Reputation.{
  BayesianReputation, observations, confidence, score_100, conservative_score_100,
}
use counterparty_sharedos.Reputation.Bounds.{IsCountable, score_bounds, confidence-IsFraction}
use counterparty_sharedos.Store.{Db}
use counterparty_sharedos.Store.Query.{reputation, protocol_reputation, counts_for}
use counterparty_sharedos.Tables.{Observation, ProtocolObservation}
use counterparty_sharedos.Routing.Viable.{IsInRange}
use counterparty_sharedos.BestExecution.{
  assessment, candidate_figures, candidate_scores_step, candidate_scores,
}

module _ (fl : Floats) (law : IsIeee fl) where
  -- between 0 and 100
  abbrev IsPercent : fl.F → Type 0
  IsPercent x = Le fl (nat fl 0) x × Le fl x (nat fl 100)

  score-IsPercent : (r : BayesianReputation) → IsCountable r → IsPercent (score_100 fl r)
  score-IsPercent r small =
      let (low, middle, high) = score_bounds fl law r small in
      (Le_trans fl law _ _ _ low middle, high)

  conservative-IsPercent :
      (r : BayesianReputation) → IsCountable r → IsPercent (conservative_score_100 fl r)
  conservative-IsPercent r small =
      let (low, middle, high) = score_bounds fl law r small in
      (low, Le_trans fl law _ _ _ middle high)

  -- half of what is at most 50 from 50 is between 0 and 100
  halfway-IsPercent :
      (p : fl.F)
      → IsPercent p
      → IsPercent (fl.add (nat fl 50) (fl.mul (fl.lit 5 1) (fl.sub p (nat fl 50))))
  halfway-IsPercent p h = (
    subst (λ y. Le fl y (fl.add (nat fl 50) half)) (law.add_neg_nat 50 (omega arith))
        (law.add_mono (nat fl 50) (nat fl 50) (fl.neg (nat fl 50)) half (Le_refl fl law (nat fl 50))
          (Le_trans fl law (fl.neg (nat fl 50)) (fl.mul (fl.lit 5 1) (fl.neg (nat fl 50))) half
            low_half
            (law.mul_mono_right (fl.lit 5 1) (fl.neg (nat fl 50)) _ (zero-le-lit fl law 5 1) low))),
    subst (λ y. Le fl (fl.add (nat fl 50) half) y) (law.add_nat 50 50 (omega arith))
        (law.add_mono (nat fl 50) (nat fl 50) half (nat fl 50) (Le_refl fl law (nat fl 50)) (
          Le_trans fl law half (fl.mul (fl.lit 5 1) (nat fl 50)) (nat fl 50)
            (law.mul_mono_right (fl.lit 5 1) _ (nat fl 50) (zero-le-lit fl law 5 1) high)
            half_fifty)),
  )
    where
      half : fl.F
      half = fl.mul (fl.lit 5 1) (fl.sub p (nat fl 50))

      half_fifty : Le fl (fl.mul (fl.lit 5 1) (nat fl 50)) (nat fl 50)
      half_fifty =
          fraction_mul-le fl law (fl.lit 5 1) (nat fl 50)
            (zero-le-lit fl law 5 1, law.lit_mono 5 1 1 0 (omega arith)) (zero-le-lit fl law 50 0)

      low : Le fl (fl.neg (nat fl 50)) (fl.sub p (nat fl 50))
      low =
          subst (λ y. Le fl y (fl.sub p (nat fl 50)))
            (law.nat_sub_neg 0 50 (omega arith) (omega arith))
            (law.sub_mono (nat fl 0) p (nat fl 50) (nat fl 50) h.0 (Le_refl fl law (nat fl 50)))

      high : Le fl (fl.sub p (nat fl 50)) (nat fl 50)
      high =
          subst (λ y. Le fl (fl.sub p (nat fl 50)) y)
            (law.sub_nat 100 50 (omega arith) (omega arith))
            (law.sub_mono p (nat fl 100) (nat fl 50) (nat fl 50) h.1 (Le_refl fl law (nat fl 50)))

      low_half : Le fl (fl.neg (nat fl 50)) (fl.mul (fl.lit 5 1) (fl.neg (nat fl 50)))
      low_half =
          rw (law.mul_neg (fl.lit 5 1) (nat fl 50))
            (rw (law.neg_lt (fl.mul (fl.lit 5 1) (nat fl 50)) (nat fl 50)) half_fifty)

  canary_confidence-IsFraction :
      (c : fl.F)
      → IsFraction fl c
      → IsFraction fl (fmin fl (fl.lit 5 1) (fl.add (fl.lit 2 1) (fl.mul (fl.lit 5 1) c)))
  canary_confidence-IsFraction c h = (
    le-fmin fl law (nat fl 0) (fl.lit 5 1) _ (zero-le-lit fl law 5 1) (
        add_nonneg fl law (fl.lit 2 1) _ (zero-le-lit fl law 2 1)
          (mul_nonneg fl law (fl.lit 5 1) c (zero-le-lit fl law 5 1) h.0)),
    Le_trans fl law _ (fl.lit 5 1) (nat fl 1) (fmin-le_left fl law (fl.lit 5 1) _)
        (law.lit_mono 5 1 1 0 (omega arith)),
  )

  -- the assessment of any two reputations
  assessment_range :
      (mode : Mode) (rep protocol_rep : BayesianReputation)
      → IsCountable rep
      → IsCountable protocol_rep
      → let (trust, confidence, tier) = assessment fl mode rep protocol_rep in
        IsPercent trust × IsFraction fl confidence
  unfolding assessment
  assessment_range mode rep protocol_rep h k =
      elim (Bool-cases (ltb 0 (rep.successes + rep.failures))) [
        | inl e ↦ rw e (mode_trust mode, confidence-IsFraction fl law rep h)
        | inr e ↦ elim (Bool-cases (ltb 0 (protocol_rep.successes + protocol_rep.failures))) [
          | inl e' ↦
              rw (e, e')
                (
                  halfway-IsPercent (score_100 fl protocol_rep) (score-IsPercent protocol_rep k),
                  canary_confidence-IsFraction (confidence fl protocol_rep)
                      (confidence-IsFraction fl law protocol_rep k),
                )
          | inr e' ↦
              rw (e, e')
                (
                  (zero-le-lit fl law 50 0, nat_mono fl law 50 100 (omega arith)),
                  (Le_refl fl law (nat fl 0), nat_mono fl law 0 1 (omega arith)),
                )
        ]
      ]
    where
      mode_trust :
          (m : Mode)
          → IsPercent (elim m [ safe ↦ conservative_score_100 fl rep | explore ↦ score_100 fl rep ])
      mode_trust safe = conservative-IsPercent rep h
      mode_trust explore = score-IsPercent rep h

  -- A figure in range passes the check.
  make_score_in_range :
      (c : CandidateScore fl.F)
      → IsPercent c.trust_score
      → IsFraction fl c.confidence
      → IsFraction fl c.task_fit
      → make_score fl c ≡ some c
  unfolding make_score
  make_score_in_range c t n f = ground arith

  filter-length : {A : Type 0} (p : A → Bool) (xs : List A) → length (filter p xs) ≤ length xs
  filter-length p [] = omega arith
  filter-length p (x ∷ xs) = ground (arith, filter-length p xs)

  reputation-IsCountable :
      (service_id task_type : String) {Text : Type 0} (db : Db Text)
      → length db.observations ≤ 10 ^ 11
      → IsCountable (reputation service_id task_type db.observations).0
  unfolding reputation observations
  reputation-IsCountable service_id task_type db small =
      let rows = filter (counts_for service_id task_type) db.observations in
      omega (
        arith,
        filter-length (counts_for service_id task_type) db.observations,
        filter-length (λ (r : Observation). str_eq r.outcome "PASS") rows,
        filter-length (λ (r : Observation). str_eq r.outcome "FAIL") rows,
      )

  protocol_reputation-IsCountable :
      (service_id : String) {Text : Type 0} (db : Db Text)
      → length db.protocol_observations ≤ 10 ^ 11
      → IsCountable (protocol_reputation service_id db.protocol_observations).0
  unfolding protocol_reputation observations
  protocol_reputation-IsCountable service_id db small =
      let rows =
        filter (λ (r : ProtocolObservation). str_eq r.service_id service_id)
          db.protocol_observations in
      omega (
        arith,
        filter-length (λ (r : ProtocolObservation). str_eq r.service_id service_id)
            db.protocol_observations,
        filter-length (λ (r : ProtocolObservation). str_eq r.outcome "PASS") rows,
        filter-length (λ (r : ProtocolObservation). str_eq r.outcome "FAIL") rows,
      )

  scores_step :
      {score : CandidateScore fl.F} {scores : List (CandidateScore fl.F)}
      (one : Option (CandidateScore fl.F)) (rest : Option (List (CandidateScore fl.F)))
      → one ≡ some score
      → rest ≡ some scores
      → candidate_scores_step fl one rest ≡ some (score ∷ scores)
  unfolding candidate_scores_step
  scores_step one rest h k = ground arith

  module _ {Text : Type 0} (mode : Mode) (task_type : String) (db : Db Text)
      (few : length db.observations ≤ 10 ^ 11)
      (few_canaries : length db.protocol_observations ≤ 10 ^ 11) where
    figures_range :
        (candidate : CandidateRequest fl.F)
        → let figures = candidate_figures fl mode task_type db candidate in
          (IsPercent figures.trust_score × IsFraction fl figures.confidence)
          × (figures.task_fit ≡ candidate.task_fit)
    unfolding candidate_figures
    figures_range candidate = (
      assessment_range mode (reputation candidate.service_id task_type db.observations).0
          (protocol_reputation candidate.service_id db.protocol_observations).0
          (reputation-IsCountable candidate.service_id task_type db few)
          (protocol_reputation-IsCountable candidate.service_id db few_canaries),
      refl,
    )

    figures-IsInRange :
        (candidate : CandidateRequest fl.F)
        → IsFraction fl candidate.task_fit
        → let figures = candidate_figures fl mode task_type db candidate in
          IsInRange fl figures × (make_score fl figures ≡ some figures)
    figures-IsInRange candidate fit =
        let figures = candidate_figures fl mode task_type db candidate in
        let ((trust, confidence), same) = figures_range candidate in
        let task_fit : IsFraction fl figures.task_fit = rw same fit in
        (
          record {
            trust_low = trust.0;
            trust_high = trust.1;
            confidence = confidence;
            task_fit = task_fit;
          },
          make_score_in_range figures trust confidence task_fit,
        )

    -- With up to 10 ** 11 rows in each evidence table, and a `task_fit` between 0 and 1 for each
    -- candidate, no `CandidateScore` is refused: the loop scores every candidate in turn, and all the
    -- scores are in range.
    pub candidate_scores_total :
        (candidates : List (CandidateRequest fl.F))
        → All (λ r. IsFraction fl r.task_fit) candidates
        → (candidate_scores fl mode task_type db candidates
            ≡ some (map (candidate_figures fl mode task_type db) candidates))
          × All (IsInRange fl) (map (candidate_figures fl mode task_type db) candidates)
    unfolding candidate_scores
    candidate_scores_total [] fit = (refl, tt)
    candidate_scores_total (candidate ∷ candidates) fit =
        let (range, made) = figures-IsInRange candidate fit.0 in
        let (rest, ranges) = candidate_scores_total candidates fit.1 in
        (scores_step _ _ made rest, (range, ranges))
