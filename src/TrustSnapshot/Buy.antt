-- ===== src/TrustSnapshot/Buy.antt =====
-- What a verdict of `trust_snapshot` says of the evidence behind it.
use native.Mathlib.Decide.{dec_lt}
use mathlib.Core.Path.{subst}
use counterparty_sharedos.Prelude.{
  ◌⊎◌, inl, inr, ◌≡◌, ◌↔◌, ◌≤◌, ◌<◌, ◌≢◌, refl, sym, ap, ◌∙◌, true, arith,
}
use counterparty_sharedos.Floats.{Floats, IsIeee, Le, nat, fge}
use counterparty_sharedos.Floats.Order.{fge_iff, Le→fge}
use counterparty_sharedos.Models.{Tier, verified, provisional, rejected, unproven}
use counterparty_sharedos.Reputation.{BayesianReputation, observations, confidence, score_100}
use counterparty_sharedos.Reputation.Bounds.{IsCountable, confidence_lem}
use counterparty_sharedos.TrustSnapshot.{
  Verdict, buy, try_small, caution, unproven_seller, avoid, Action, run_canary, skip,
  buy_small_then_verify, canary_verdict, delivery_verdict, verdict, snapshot_tier,
}

-- the verdict on a provider of each tier without deliveries
abbrev pub tier_verdict : Tier → Verdict × Action
tier_verdict verified = (caution, buy_small_then_verify)
tier_verdict provisional = (try_small, buy_small_then_verify)
tier_verdict rejected = (avoid, skip)
tier_verdict unproven = (unproven_seller, run_canary)

canary_verdict_of_tier :
    (rep protocol_rep : BayesianReputation)
    → observations rep ≡ 0
    → canary_verdict protocol_rep ≡ tier_verdict (snapshot_tier rep protocol_rep)
unfolding canary_verdict snapshot_tier observations
canary_verdict_of_tier rep protocol_rep e = ground arith

verified_of_deliveries :
    (rep protocol_rep : BayesianReputation)
    → 0 < observations rep
    → snapshot_tier rep protocol_rep ≡ verified
unfolding snapshot_tier
verified_of_deliveries rep protocol_rep h = ground arith

canary_not_buy : (protocol_rep : BayesianReputation) → (canary_verdict protocol_rep).0 ≢ buy
unfolding canary_verdict
canary_not_buy protocol_rep h = ground arith

module _ (fl : Floats) where
  delivery_not_run : (rep : BayesianReputation) → (delivery_verdict fl rep).1 ≢ run_canary
  unfolding delivery_verdict
  delivery_not_run rep h = ground arith

  delivery_buy :
      (rep : BayesianReputation)
      → (delivery_verdict fl rep).0 ≡ buy
      → (fge fl (score_100 fl rep) (nat fl 75) ≡ true)
        × (fge fl (confidence fl rep) (fl.lit 5 1) ≡ true)
  unfolding delivery_verdict
  delivery_buy rep h = ground arith

  delivery_buy_back :
      (rep : BayesianReputation)
      → fge fl (score_100 fl rep) (nat fl 75) ≡ true
      → fge fl (confidence fl rep) (fl.lit 5 1) ≡ true
      → (delivery_verdict fl rep).0 ≡ buy
  unfolding delivery_verdict
  delivery_buy_back rep h k = rw h (rw k refl)

  verdict_without :
      (rep protocol_rep : BayesianReputation)
      → observations rep ≡ 0
      → verdict fl rep protocol_rep ≡ canary_verdict protocol_rep
  unfolding verdict
  verdict_without rep protocol_rep e = ground arith

  verdict_with :
      (rep protocol_rep : BayesianReputation)
      → 0 < observations rep
      → verdict fl rep protocol_rep ≡ delivery_verdict fl rep
  unfolding verdict
  verdict_with rep protocol_rep h = ground arith

  -- The tier, which has its own chain of tests, and the verdict agree. Either there are no deliveries,
  -- and the verdict with its action is UNPROVEN with RUN_CANARY, AVOID with SKIP or TRY_SMALL with
  -- BUY_SMALL_THEN_VERIFY as the tier is UNPROVEN, REJECTED or PROVISIONAL; or there are some, the tier
  -- is VERIFIED and the action is not to run a canary.
  pub verdict_of_tier :
      (rep protocol_rep : BayesianReputation)
      → ((observations rep ≡ 0)
          × (verdict fl rep protocol_rep ≡ tier_verdict (snapshot_tier rep protocol_rep)))
        ⊎ ((0 < observations rep)
            × (snapshot_tier rep protocol_rep ≡ verified)
            × ((verdict fl rep protocol_rep).1 ≢ run_canary))
  verdict_of_tier rep protocol_rep = elim (dec_lt 0 (observations rep)) [
    | no none_at_all ↦
        let e : observations rep ≡ 0 = omega arith in
        inl (e, verdict_without rep protocol_rep e ∙ canary_verdict_of_tier rep protocol_rep e)
    | yes h ↦ inr (
      h,
      verified_of_deliveries rep protocol_rep h,
      subst (λ v. v.1 ≢ run_canary) (sym (verdict_with rep protocol_rep h)) (delivery_not_run rep),
    )
  ]

  -- The verdict is BUY just when the score is at least 75 and the provider has at least eight
  -- deliveries on record, for a reputation of up to 10 ** 12 observations.
  pub verdict_buy :
      IsIeee fl
      → (rep protocol_rep : BayesianReputation) → IsCountable rep
      → ((verdict fl rep protocol_rep).0 ≡ buy)
        ↔ (Le fl (nat fl 75) (score_100 fl rep) × (8 ≤ observations rep))
  verdict_buy law rep protocol_rep small = (
    (λ h. elim (dec_lt 0 (observations rep)) [
      | yes some_deliveries ↦
          let (high, sure) =
            delivery_buy rep
              (sym (ap (λ v. v.0) (verdict_with rep protocol_rep some_deliveries)) ∙ h) in
          (fge_iff fl law _ _ high, (confidence_lem fl law rep small).0.0 sure)
      | no none_at_all ↦ absurd (
          canary_not_buy protocol_rep
            (sym (ap (λ v. v.0) (verdict_without rep protocol_rep (omega arith))) ∙ h))
    ]),
    (λ (high, many).
        ap (λ v. v.0) (verdict_with rep protocol_rep (omega arith))
        ∙ delivery_buy_back rep (Le→fge fl law _ _ high)
            ((confidence_lem fl law rep small).0.1 many)),
  )
