-- ===== src/Reputation.antt =====
-- `counterparty/reputation.py`: the Bayesian reputation of a provider. The priors are the defaults,
-- which every call in the repository uses.
pub mod Bounds
use counterparty_sharedos.Prelude.{ℕ, ◌+◌}
use counterparty_sharedos.Floats.{Floats, nat, fmin, fmax}

pub record BayesianReputation : Type 0 where
  pub successes : ℕ
  pub failures : ℕ

unfoldable pub observations : BayesianReputation → ℕ
observations r = r.successes + r.failures

module _ (fl : Floats) where
  unfoldable pub alpha : BayesianReputation → fl.F
  alpha r = fl.add (nat fl 2) (nat fl r.successes)

  unfoldable pub beta : BayesianReputation → fl.F
  beta r = fl.add (nat fl 2) (nat fl r.failures)

  unfoldable pub mean : BayesianReputation → fl.F
  unfolding alpha beta
  mean r = fl.div (alpha r) (fl.add (alpha r) (beta r))

  unfoldable pub variance : BayesianReputation → fl.F
  unfolding alpha beta
  variance r =
      let total = fl.add (alpha r) (beta r) in
      fl.div (fl.mul (alpha r) (beta r)) (fl.mul (fl.mul total total) (fl.add total (nat fl 1)))

  unfoldable pub confidence : BayesianReputation → fl.F
  unfolding observations
  confidence r =
      let n = nat fl (observations r) in fmin fl (fl.lit 99 2) (fl.div n (fl.add n (nat fl 8)))

  -- `0.5 * (1 - self.confidence) + x * self.confidence`
  unfoldable pub shrink : BayesianReputation → fl.F → fl.F
  unfolding confidence
  shrink r x =
      fl.add (fl.mul (fl.lit 5 1) (fl.sub (nat fl 1) (confidence r))) (fl.mul x (confidence r))

  unfoldable pub score_100 : BayesianReputation → fl.F
  unfolding shrink mean
  score_100 r = fl.round 2 (fl.mul (shrink r (mean r)) (nat fl 100))

  -- with `z = 1.645`
  unfoldable pub conservative_score_100 : BayesianReputation → fl.F
  unfolding shrink mean variance
  conservative_score_100 r =
      let lower =
        fmax fl (nat fl 0) (fl.sub (mean r) (fl.mul (fl.lit 1645 3) (fl.sqrt (variance r)))) in
      fl.round 2 (fl.mul (shrink r lower) (nat fl 100))
