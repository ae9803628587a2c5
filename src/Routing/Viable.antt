-- ===== src/Routing/Viable.antt =====
-- The sentinel utility of a candidate over budget is told apart from every real utility.
use counterparty_sharedos.Prelude.{
  ℕ, ◌^◌, ◌≤◌, ◌≡◌, Bool, true, false, not, ltb, arith, Bool-cases, inl, inr,
}
use mathlib.Core.Path.{subst}
use counterparty_sharedos.Floats.{Floats, IsIeee, Le, nat, IsFraction}
use counterparty_sharedos.Floats.Order.{
  Le_trans, lt-Le-trans, nat_mono, nat_pos, zero-le-lit, mul_nonneg, add_nonneg, div_nonneg,
  fmin-le_left, le-fmin, le-fmax_left, fraction_mul-le, one_sub-IsFraction,
}
use counterparty_sharedos.Models.{CandidateScore, Mode, safe, explore}
use counterparty_sharedos.Routing.{trust_of, latency_penalty, uncertainty_weight, weighted, utility}

module _ (fl : Floats) where
  -- the floats of a candidate are in the ranges that `CandidateScore` checks
  pub record IsInRange (c : CandidateScore fl.F) : Type 0 where
    pub trust_low : Le fl (nat fl 0) c.trust_score
    pub trust_high : Le fl c.trust_score (nat fl 100)
    pub confidence : IsFraction fl c.confidence
    pub task_fit : IsFraction fl c.task_fit

  -- `u > -1e8`
  abbrev pub is_viable : fl.F → Bool
  is_viable u = fl.lt (fl.neg (nat fl 100000000)) u

module _ (fl : Floats) (law : IsIeee fl) where
  over_budget : is_viable fl (fl.neg (nat fl 1000000000)) ≡ false
  over_budget =
      rw (law.neg_lt (nat fl 100000000) (nat fl 1000000000))
        (nat_mono fl law 100000000 1000000000 (omega arith))

  literal-IsFraction : (m k : ℕ) → m ≤ 10 ^ k → IsFraction fl (fl.lit m k)
  literal-IsFraction m k h = (zero-le-lit fl law m k, law.lit_mono m k 1 0 (omega arith))

  penalty_bound : (w x : fl.F) → IsFraction fl w → IsFraction fl x → Le fl (fl.mul w x) (nat fl 1)
  penalty_bound w x h k =
      Le_trans fl law (fl.mul w x) x (nat fl 1) (fraction_mul-le fl law w x h k.0) k.1

  -- the two penalties take at most two from what is not negative
  weighted_above :
      (merits p q : fl.F)
      → Le fl (nat fl 0) merits
      → Le fl p (nat fl 1)
      → Le fl q (nat fl 1)
      → is_viable fl (fl.sub (fl.sub merits p) q) ≡ true
  weighted_above merits p q h hp hq =
      let low : Le fl (fl.neg (nat fl 1)) (fl.sub merits p) =
        subst (λ y. Le fl y (fl.sub merits p)) (law.neg_sub_nat 0 1 (omega arith))
          (law.sub_mono (fl.neg (nat fl 0)) merits (nat fl 1) p
            (Le_trans fl law (fl.neg (nat fl 0)) (nat fl 0) merits law.neg_zero h) hp) in
      let lower : Le fl (fl.neg (nat fl 2)) (fl.sub (fl.sub merits p) q) =
        subst (λ y. Le fl y (fl.sub (fl.sub merits p) q)) (law.neg_sub_nat 1 1 (omega arith))
          (law.sub_mono (fl.neg (nat fl 1)) (fl.sub merits p) (nat fl 1) q low hq) in
      lt-Le-trans fl law (fl.neg (nat fl 100000000)) (fl.neg (nat fl 2)) _
        (rw (law.neg_lt (nat fl 100000000) (nat fl 2))
          (law.nat_lt 2 100000000 (omega arith) (omega arith)))
        lower

  weight-IsFraction : (mode : Mode) → IsFraction fl (uncertainty_weight fl mode)
  weight-IsFraction safe = literal-IsFraction 28 2 (omega arith)
  weight-IsFraction explore = literal-IsFraction 12 2 (omega arith)

  module _ (c : CandidateScore fl.F) (range : IsInRange fl c) (budget : ℕ) (mode : Mode) where
    latency_penalty-IsFraction : IsFraction fl (latency_penalty fl c)
    latency_penalty-IsFraction = (
      le-fmin fl law (nat fl 0) (nat fl 1) _ (zero-le-lit fl law 1 0) (
          div_nonneg fl law (nat fl c.latency_ms) (nat fl 300000)
            (zero-le-lit fl law c.latency_ms 0)
            (nat_pos fl law 300000 (omega arith) (omega arith))),
      fmin-le_left fl law (nat fl 1) _,
    )

    trust_nonneg : Le fl (nat fl 0) (trust_of fl c)
    trust_nonneg =
        div_nonneg fl law c.trust_score (nat fl 100) range.trust_low
          (nat_pos fl law 100 (omega arith) (omega arith))

    term_nonneg : (m : ℕ) (x : fl.F) → Le fl (nat fl 0) x → Le fl (nat fl 0) (fl.mul (fl.lit m 2) x)
    term_nonneg m x h = mul_nonneg fl law (fl.lit m 2) x (zero-le-lit fl law m 2) h

    weighted_viable : is_viable fl (weighted fl c budget mode) ≡ true
    unfolding weighted
    weighted_viable =
        weighted_above _ _ _
          (add_nonneg fl law _ _
            (add_nonneg fl law _ _
              (add_nonneg fl law _ _ (term_nonneg 42 _ trust_nonneg)
                (term_nonneg 25 _ range.task_fit.0))
              (term_nonneg 18 _ (le-fmax_left fl law (nat fl 0) _)))
            (term_nonneg 15 _ range.confidence.0))
          (penalty_bound (fl.lit 10 2) (latency_penalty fl c)
            (literal-IsFraction 10 2 (omega arith)) latency_penalty-IsFraction)
          (penalty_bound (uncertainty_weight fl mode) (fl.sub (nat fl 1) c.confidence)
            (weight-IsFraction mode) (one_sub-IsFraction fl law c.confidence range.confidence))

    -- For a candidate whose figures are in range, the filter `u > -1e8` keeps just the candidates whose
    -- price fits the budget, in both modes.
    pub viable-eq-fits : is_viable fl (utility fl c budget mode) ≡ not (ltb budget c.price_credits)
    unfolding utility
    viable-eq-fits = elim (Bool-cases (ltb budget c.price_credits)) [
      | inl e ↦ rw e over_budget
      | inr e ↦ rw e weighted_viable
    ]
