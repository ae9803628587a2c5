-- ===== src/Verification/Confidence.antt =====
-- The score and the confidence of `aggregate`: always between 0 and 1, and never more than a half
-- where evidence is missing.
use counterparty_sharedos.Prelude.{
  ◌≤◌, ◌≡◌, some, List, [], ◌∷◌, All, length, arith, Option-cases, inl, inr,
}
use counterparty_sharedos.Floats.{Floats, IsIeee, Le, nat, IsFraction, exact}
use counterparty_sharedos.Floats.Order.{
  Le_trans, Le_refl, fsum_bounds, div_nonneg, div-le-one, nat_pos, nat_mono, ratio_bounds,
  round_bounds, le-fmin, fmin-le_left, mul_nonneg, zero-le-lit, fraction_mul-le,
}
use counterparty_sharedos.Models.{EvidenceState, pass, fail, inconclusive, ProbeResult}
use counterparty_sharedos.Verification.{
  scored, mean_score, coverage, aggregate_confidence, aggregate_state, aggregate,
}

module _ (fl : Floats) (law : IsIeee fl) where
  -- the check that pydantic makes of a probe's score
  abbrev pub ScoreInRange : ProbeResult fl.F → Type 0
  ScoreInRange p = (x : fl.F) → p.score ≡ some x → IsFraction fl x

  scored_range :
      (probes : List (ProbeResult fl.F))
      → All ScoreInRange probes
      → All (IsFraction fl) (scored probes)
  scored_range [] h = tt
  scored_range (p ∷ probes) h = elim (Option-cases p.score) [
    | inl e ↦ rw (e, scored) (scored_range probes h.1)
    | inr (x, e) ↦ rw (e, scored) (h.0 x e, scored_range probes h.1)
  ]

  length-scored : (probes : List (ProbeResult fl.F)) → length (scored probes) ≤ length probes
  length-scored [] = omega arith
  length-scored (p ∷ probes) = ground (arith, length-scored probes)

  mean_score_range :
      (xs : List fl.F)
      → All (IsFraction fl) xs
      → length xs ≤ exact
      → IsFraction fl (mean_score fl xs)
  mean_score_range [] h b = (Le_refl fl law (nat fl 0), nat_mono fl law 0 1 (omega arith))
  mean_score_range (x ∷ xs) h b =
      let (low, high) = fsum_bounds fl law (x ∷ xs) h b in
      let positive = nat_pos fl law (length (x ∷ xs)) (omega arith) b in
      (div_nonneg fl law _ _ low positive, div-le-one fl law _ _ low high positive)

  coverage_range :
      (probes : List (ProbeResult fl.F))
      → length probes ≤ exact
      → IsFraction fl (coverage fl probes)
  coverage_range [] b = (Le_refl fl law (nat fl 0), nat_mono fl law 0 1 (omega arith))
  coverage_range (p ∷ probes) b =
      ratio_bounds fl law (length (scored (p ∷ probes))) (length (p ∷ probes))
        (length-scored (p ∷ probes)) (omega arith) b

  half_range : (x : fl.F) → IsFraction fl x → Le fl (fl.mul x (fl.lit 5 1)) (fl.lit 5 1)
  half_range x h = fraction_mul-le fl law x (fl.lit 5 1) h (zero-le-lit fl law 5 1)

  half-le-one : Le fl (fl.lit 5 1) (nat fl 1)
  half-le-one = law.lit_mono 5 1 1 0 (omega arith)

  confidence_range :
      (state : EvidenceState) (score cover : fl.F)
      → IsFraction fl score
      → IsFraction fl cover
      → IsFraction fl (aggregate_confidence fl state score cover)
  confidence_range pass score cover h k = (
    le-fmin fl law (nat fl 0) score cover h.0 k.0,
    Le_trans fl law _ score (nat fl 1) (fmin-le_left fl law score cover) h.1,
  )
  confidence_range fail score cover h k = k
  confidence_range inconclusive score cover h k = (
    mul_nonneg fl law cover (fl.lit 5 1) k.0 (zero-le-lit fl law 5 1),
    Le_trans fl law _ (fl.lit 5 1) (nat fl 1) (half_range cover k) half-le-one,
  )

  inconclusive_confidence :
      (state : EvidenceState) (score cover : fl.F)
      → IsFraction fl cover
      → state ≡ inconclusive
      → Le fl (fl.round 4 (aggregate_confidence fl state score cover)) (fl.lit 5 1)
  inconclusive_confidence state score cover k e = rw e (
      rw (← law.round_lit 4 5 1 (omega arith) (omega arith))
        (law.round_mono 4 (fl.mul cover (fl.lit 5 1)) (fl.lit 5 1) (half_range cover k)))

  -- With every score between 0 and 1, the score and the confidence of `aggregate` are between 0 and 1.
  pub aggregate_bounds :
      (probes : List (ProbeResult fl.F))
      → All ScoreInRange probes
      → length probes ≤ exact
      → let (state, score, confidence) = aggregate fl probes in
        IsFraction fl score × IsFraction fl confidence
  unfolding aggregate
  aggregate_bounds probes h b =
      let score =
        mean_score_range (scored probes) (scored_range probes h)
          (omega (arith, length-scored probes)) in
      let confidence =
        confidence_range (aggregate_state probes) _ _ score (coverage_range probes b) in
      (
        round_bounds fl law 4 1 _ (omega arith) score.0 score.1,
        round_bounds fl law 4 1 _ (omega arith) confidence.0 confidence.1,
      )

  -- A verdict of INCONCLUSIVE has a confidence of at most 0.5.
  pub aggregate_inconclusive :
      (probes : List (ProbeResult fl.F))
      → length probes ≤ exact
      → (aggregate fl probes).0 ≡ inconclusive
      → Le fl (aggregate fl probes).2 (fl.lit 5 1)
  unfolding aggregate
  aggregate_inconclusive probes b e =
      inconclusive_confidence (aggregate_state probes) _ _ (coverage_range probes b) e
