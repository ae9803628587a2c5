-- ===== src/Verification.antt =====
-- `aggregate` of `counterparty/verification.py`.
pub mod Verdict
pub mod Confidence
use counterparty_sharedos.Prelude.{
  ℕ, Bool, true, false, Option, none, some, List, [], ◌∷◌, any, length, if◌then◌else◌,
}
use counterparty_sharedos.Floats.{Floats, nat, fmin, fsum}
use counterparty_sharedos.Models.{EvidenceState, pass, fail, inconclusive, state_eq, ProbeResult}

abbrev pub has_state : {F : Type 0} → EvidenceState → List (ProbeResult F) → Bool
has_state state = any (λ p. state_eq p.state state)

-- the verdict
unfoldable pub aggregate_state : {F : Type 0} → List (ProbeResult F) → EvidenceState
aggregate_state probes =
    if has_state fail probes
    then fail
    else if has_state inconclusive probes
    then inconclusive
    else pass

-- the scores that are not None
abbrev pub scored : {F : Type 0} → List (ProbeResult F) → List F
scored [] = []
scored (p ∷ probes) = elim p.score [ none ↦ scored probes | some x ↦ x ∷ scored probes ]

module _ (fl : Floats) where
  -- `sum(scored) / len(scored) if scored else 0.0`
  abbrev pub mean_score : List fl.F → fl.F
  mean_score [] = nat fl 0
  mean_score (x ∷ xs) = fl.div (fsum fl (x ∷ xs)) (nat fl (length (x ∷ xs)))

  -- `len(scored) / len(probes) if probes else 0.0`
  abbrev pub coverage : List (ProbeResult fl.F) → fl.F
  coverage [] = nat fl 0
  coverage (p ∷ probes) =
      fl.div (nat fl (length (scored (p ∷ probes)))) (nat fl (length (p ∷ probes)))

  abbrev pub aggregate_confidence : EvidenceState → fl.F → fl.F → fl.F
  aggregate_confidence pass score coverage = fmin fl score coverage
  aggregate_confidence fail score coverage = coverage
  aggregate_confidence inconclusive score coverage = fl.mul coverage (fl.lit 5 1)

  unfoldable pub aggregate : List (ProbeResult fl.F) → EvidenceState × fl.F × fl.F
  unfolding aggregate_state
  aggregate probes =
      let state = aggregate_state probes in
      let score = mean_score (scored probes) in
      (state, fl.round 4 score, fl.round 4 (aggregate_confidence state score (coverage probes)))
