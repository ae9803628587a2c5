-- ===== src/Reputation/Bounds.antt =====
-- Bounds on the reputation figures: confidence stays below 1, both scores lie between 0 and 100, and
-- the conservative score never passes the plain one.
use counterparty_sharedos.Prelude.{◌+◌, ◌^◌, ◌≤◌, ◌<◌, ◌≡◌, ◌↔◌, ap, ◌∙◌, true, arith}
use native.Mathlib.Decide.{dec_lt}
use mathlib.Core.Path.{subst, ap₂}
use counterparty_sharedos.Floats.{Floats, IsIeee, Le, nat, IsFraction, fmax, fge}
use counterparty_sharedos.Floats.Order.{
  Le_trans, Le_refl, Le-lt_trans, lt-Le-trans, fge_iff, Le→fge, fmin-le_left, fmin-le_right,
  le-fmin, le-fmax_left, fmax-le, nat_mono, zero-le-lit, mul_nonneg, add_nonneg, div_nonneg,
  ratio_bounds, round_bounds, fraction_mul-le, mix-IsFraction, one-le-mul, one-le-pos, sub-le,
}
use counterparty_sharedos.Reputation.{
  BayesianReputation, observations, alpha, beta, mean, variance, confidence, shrink, score_100,
  conservative_score_100,
}

-- far more rows than any table holds, and few enough for every count to be exact
abbrev pub IsCountable : BayesianReputation → Type 0
IsCountable r = observations r ≤ 10 ^ 12

module _ (fl : Floats) (law : IsIeee fl) (r : BayesianReputation) (small : IsCountable r) where
  alpha-nat : alpha fl r ≡ nat fl (2 + r.successes)
  unfolding alpha observations
  alpha-nat = law.add_nat 2 r.successes (omega arith)

  total_nat : fl.add (alpha fl r) (beta fl r) ≡ nat fl (2 + r.successes + (2 + r.failures))
  unfolding beta observations
  total_nat =
      ap₂ fl.add alpha-nat (law.add_nat 2 r.failures (omega arith))
      ∙ law.add_nat (2 + r.successes) (2 + r.failures) (omega arith)

  mean-nat :
      mean fl r ≡ fl.div (nat fl (2 + r.successes)) (nat fl (2 + r.successes + (2 + r.failures)))
  unfolding mean
  mean-nat = ap₂ fl.div alpha-nat total_nat

  mean-IsFraction : IsFraction fl (mean fl r)
  unfolding observations
  mean-IsFraction = rw mean-nat (
      ratio_bounds fl law (2 + r.successes) (2 + r.successes + (2 + r.failures)) (omega arith)
        (omega arith) (omega arith))

  -- the evidence volume as a quotient of integers
  volume :
      fl.div (nat fl (observations r)) (fl.add (nat fl (observations r)) (nat fl 8))
      ≡ fl.div (nat fl (observations r)) (nat fl (observations r + 8))
  volume = ap (fl.div (nat fl (observations r))) (law.add_nat (observations r) 8 (omega arith))

  pub confidence-IsFraction : IsFraction fl (confidence fl r)
  unfolding confidence
  confidence-IsFraction = rw volume (
    le-fmin fl law (nat fl 0) (fl.lit 99 2) _ (zero-le-lit fl law 99 2)
        (ratio_bounds fl law (observations r) (observations r + 8) (omega arith) (omega arith)
          (omega arith)).0,
    Le_trans fl law _ (fl.lit 99 2) (nat fl 1) (fmin-le_left fl law (fl.lit 99 2) _)
        (law.lit_mono 99 2 1 0 (omega arith)),
  )

  shrink_bounds : (x : fl.F) → IsFraction fl x → IsFraction fl (shrink fl r x)
  unfolding shrink
  shrink_bounds x h = mix-IsFraction fl law (confidence fl r) x confidence-IsFraction h

  shrink_mono :
      (x y : fl.F) → Le fl (nat fl 0) x → Le fl x y → Le fl (shrink fl r x) (shrink fl r y)
  unfolding shrink
  shrink_mono x y h k =
      let c = confidence fl r in
      law.add_mono _ _ (fl.mul x c) (fl.mul y c) (Le_refl fl law _)
        (law.mul_mono x y c c h k confidence-IsFraction.0 (Le_refl fl law c))

  percent_bounds :
      (x : fl.F)
      → IsFraction fl x
      → Le fl (nat fl 0) (fl.round 2 (fl.mul x (nat fl 100)))
        × Le fl (fl.round 2 (fl.mul x (nat fl 100))) (nat fl 100)
  percent_bounds x h =
      round_bounds fl law 2 100 _ (omega arith)
        (mul_nonneg fl law x (nat fl 100) h.0 (zero-le-lit fl law 100 0))
        (fraction_mul-le fl law x (nat fl 100) h (zero-le-lit fl law 100 0))

  one-le-total : Le fl (nat fl 1) (fl.add (alpha fl r) (beta fl r))
  one-le-total = rw total_nat (nat_mono fl law 1 (2 + r.successes + (2 + r.failures)) (omega arith))

  alpha_nonneg : Le fl (nat fl 0) (alpha fl r)
  alpha_nonneg = rw alpha-nat (zero-le-lit fl law (2 + r.successes) 0)

  beta_nonneg : Le fl (nat fl 0) (beta fl r)
  unfolding beta
  beta_nonneg =
      add_nonneg fl law (nat fl 2) (nat fl r.failures) (zero-le-lit fl law 2 0)
        (zero-le-lit fl law r.failures 0)

  variance_nonneg : Le fl (nat fl 0) (variance fl r)
  unfolding variance
  variance_nonneg =
      let total = fl.add (alpha fl r) (beta fl r) in
      let one-le-next : Le fl (nat fl 1) (fl.add total (nat fl 1)) =
        subst (λ y. Le fl y (fl.add total (nat fl 1))) (law.add_nat 0 1 (omega arith))
          (law.add_mono (nat fl 0) total (nat fl 1) (nat fl 1)
            (Le_trans fl law (nat fl 0) (nat fl 1) total (zero-le-lit fl law 1 0) one-le-total)
            (Le_refl fl law (nat fl 1))) in
      div_nonneg fl law _ _ (mul_nonneg fl law (alpha fl r) (beta fl r) alpha_nonneg beta_nonneg) (
        one-le-pos fl law _ (
          one-le-mul fl law _ _ (one-le-mul fl law total total one-le-total one-le-total)
            one-le-next))

  abbrev lower : fl.F
  lower = fmax fl (nat fl 0) (fl.sub (mean fl r) (fl.mul (fl.lit 1645 3) (fl.sqrt (variance fl r))))

  lower-le-mean : Le fl lower (mean fl r)
  lower-le-mean = fmax-le fl law (mean fl r) (nat fl 0) _ mean-IsFraction.0 (
      sub-le fl law (mean fl r) _ (
        mul_nonneg fl law (fl.lit 1645 3) _ (zero-le-lit fl law 1645 3)
          (law.sqrt_nonneg (variance fl r) variance_nonneg)))

  lower-IsFraction : IsFraction fl lower
  lower-IsFraction = (
    le-fmax_left fl law (nat fl 0) _,
    Le_trans fl law lower (mean fl r) (nat fl 1) lower-le-mean mean-IsFraction.1,
  )

  -- For a reputation of up to 10 ** 12 observations both scores lie between 0 and 100, and the
  -- conservative score does not pass the plain one.
  pub score_bounds :
      Le fl (nat fl 0) (conservative_score_100 fl r)
      × Le fl (conservative_score_100 fl r) (score_100 fl r)
      × Le fl (score_100 fl r) (nat fl 100)
  unfolding score_100 conservative_score_100
  score_bounds = (
    (percent_bounds (shrink fl r lower) (shrink_bounds lower lower-IsFraction)).0,
    law.round_mono 2 _ _ (
        law.mul_mono (shrink fl r lower) (shrink fl r (mean fl r)) (nat fl 100) (nat fl 100)
          (shrink_bounds lower lower-IsFraction).0
          (shrink_mono lower (mean fl r) lower-IsFraction.0 lower-le-mean)
          (zero-le-lit fl law 100 0) (Le_refl fl law (nat fl 100))),
    (percent_bounds (shrink fl r (mean fl r)) (shrink_bounds (mean fl r) mean-IsFraction)).1,
  )

  confidence_cap : Le fl (confidence fl r) (fl.lit 99 2)
  unfolding confidence
  confidence_cap = fmin-le_left fl law (fl.lit 99 2) _

  few_observations : observations r < 8 → fl.lt (confidence fl r) (fl.lit 5 1) ≡ true
  unfolding confidence
  few_observations few =
      let n = observations r in
      Le-lt_trans fl law _ (fl.lit 47 2) (fl.lit 5 1)
        (Le_trans fl law _ _ (fl.lit 47 2) (fmin-le_right fl law (fl.lit 99 2) _) (
          rw volume (
            law.div_le_lit n (n + 8) 47 2 (omega arith) (omega arith) (omega arith) (omega arith))))
        (lt-Le-trans fl law (fl.lit 47 2) (fl.lit 50 2) (fl.lit 5 1)
          (law.lit_lt 47 50 2 (omega arith) (omega arith) (omega arith))
          (law.lit_mono 50 2 5 1 (omega arith)))

  many_observations : 8 ≤ observations r → Le fl (fl.lit 5 1) (confidence fl r)
  unfolding confidence
  many_observations many =
      let n = observations r in
      le-fmin fl law (fl.lit 5 1) (fl.lit 99 2) _ (law.lit_mono 5 1 99 2 (omega arith)) (
        rw volume
          (law.lit_le_div n (n + 8) 5 1 (omega arith) (omega arith) (omega arith) (omega arith)))

  -- For a reputation of up to 10 ** 12 observations the test `confidence >= 0.5` holds just when there
  -- are at least eight of them, and the confidence never passes 0.99.
  pub confidence_lem :
      ((fge fl (confidence fl r) (fl.lit 5 1) ≡ true) ↔ (8 ≤ observations r))
      × Le fl (confidence fl r) (fl.lit 99 2)
  confidence_lem = (
    (
      (λ h. elim (dec_lt (observations r) 8) [
        | yes few ↦ absurd (cc (fge_iff fl law _ _ h, few_observations few))
        | no many ↦ omega arith
      ]),
      (λ many. Le→fge fl law _ _ (many_observations many)),
    ),
    confidence_cap,
  )
