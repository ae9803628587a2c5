-- ===== src/Verification/Verdict.antt =====
-- The verdict of `aggregate`: the worst state among the probes, whatever their order.
use counterparty_sharedos.Prelude.{
  ◌≡◌, refl, sym, ap, ◌∙◌, ◌↔◌, true, false, List, [], ◌∷◌, ◌++◌, All, arith,
}
use counterparty_sharedos.Models.{EvidenceState, pass, fail, inconclusive, ProbeResult}
use counterparty_sharedos.Verification.{has_state, aggregate_state}

-- The worse of two states: a failure over missing evidence, and missing evidence over a pass.
abbrev pub worst : EvidenceState → EvidenceState → EvidenceState
worst fail _ = fail
worst inconclusive fail = fail
worst inconclusive pass = inconclusive
worst inconclusive inconclusive = inconclusive
worst pass s = s

-- the worst state of a list, from the best one
abbrev pub worst_of : {F : Type 0} → List (ProbeResult F) → EvidenceState
worst_of [] = pass
worst_of (p ∷ probes) = worst p.state (worst_of probes)

worst_assoc : (a b c : EvidenceState) → worst a (worst b c) ≡ worst (worst a b) c
worst_assoc a b c = ground arith

worst_comm : (a b : EvidenceState) → worst a b ≡ worst b a
worst_comm a b = ground arith

module _ {F : Type 0} where
  -- The verdict is the worst of the probes' states.
  pub aggregate_state-eq-worst_of :
      (probes : List (ProbeResult F)) → aggregate_state probes ≡ worst_of probes
  unfolding aggregate_state
  aggregate_state-eq-worst_of [] = refl
  aggregate_state-eq-worst_of (p ∷ probes) = ground (arith, aggregate_state-eq-worst_of probes)

  worst_of_pass : (xs : List (ProbeResult F)) → worst_of xs ≡ pass → All (λ p. p.state ≡ pass) xs
  worst_of_pass [] h = tt
  worst_of_pass (p ∷ xs) h = (ground arith, worst_of_pass xs (ground arith))

  worst_of-All : (xs : List (ProbeResult F)) → All (λ p. p.state ≡ pass) xs → worst_of xs ≡ pass
  worst_of-All [] h = refl
  worst_of-All (p ∷ xs) h = rw (h.0, worst_of-All xs h.1)

  pub aggregate_state_pass :
      (xs : List (ProbeResult F)) → (aggregate_state xs ≡ pass) ↔ All (λ p. p.state ≡ pass) xs
  aggregate_state_pass xs = rw (aggregate_state-eq-worst_of xs) (worst_of_pass xs, worst_of-All xs)

  worst_of_fail : (xs : List (ProbeResult F)) → (worst_of xs ≡ fail) ↔ (has_state fail xs ≡ true)
  worst_of_fail [] = ((λ h. cc h), (λ h. cc h))
  worst_of_fail (p ∷ xs) = ground (arith, worst_of_fail xs)

  worst_of-append :
      (xs ys : List (ProbeResult F)) → worst_of (xs ++ ys) ≡ worst (worst_of xs) (worst_of ys)
  worst_of-append [] ys = refl
  worst_of-append (p ∷ xs) ys =
      ap (worst p.state) (worst_of-append xs ys) ∙ worst_assoc p.state (worst_of xs) (worst_of ys)

  worst_of_inconclusive :
      (xs : List (ProbeResult F))
      → (worst_of xs ≡ inconclusive)
        ↔ ((has_state inconclusive xs ≡ true) × (has_state fail xs ≡ false))
  worst_of_inconclusive [] = ((λ h. cc h), (λ h. cc h.0))
  worst_of_inconclusive (p ∷ xs) = ground (arith, worst_of_fail xs, worst_of_inconclusive xs)

  -- For two lists of at least one probe each: the verdict on one of them is PASS just when every
  -- probe passed, FAIL just when some probe failed, and INCONCLUSIVE just when some probe was
  -- inconclusive and none failed, so that missing evidence does not become a pass; and the verdict on
  -- both together is the worse of their verdicts, in either order.
  pub aggregate_state_lem :
      (p q : ProbeResult F) (xs ys : List (ProbeResult F))
      → ((aggregate_state (p ∷ xs) ≡ pass) ↔ All (λ r. r.state ≡ pass) (p ∷ xs))
        × ((aggregate_state (p ∷ xs) ≡ fail) ↔ (has_state fail (p ∷ xs) ≡ true))
        × ((aggregate_state (p ∷ xs) ≡ inconclusive)
            ↔ ((has_state inconclusive (p ∷ xs) ≡ true) × (has_state fail (p ∷ xs) ≡ false)))
        × (aggregate_state (p ∷ xs ++ q ∷ ys)
            ≡ worst (aggregate_state (p ∷ xs)) (aggregate_state (q ∷ ys)))
        × (aggregate_state (p ∷ xs ++ q ∷ ys) ≡ aggregate_state (q ∷ ys ++ p ∷ xs))
  aggregate_state_lem p q xs ys =
      let state = aggregate_state-eq-worst_of (p ∷ xs) in
      let both = aggregate_state-eq-worst_of (p ∷ xs ++ q ∷ ys) in
      let together = worst_of-append (p ∷ xs) (q ∷ ys) in
      (
        aggregate_state_pass (p ∷ xs),
        rw state (worst_of_fail (p ∷ xs)),
        rw state (worst_of_inconclusive (p ∷ xs)),
        rw (both, state, aggregate_state-eq-worst_of (q ∷ ys)) together,
        both
            ∙ together
            ∙ worst_comm (worst_of (p ∷ xs)) (worst_of (q ∷ ys))
            ∙ sym (worst_of-append (q ∷ ys) (p ∷ xs))
            ∙ sym (aggregate_state-eq-worst_of (q ∷ ys ++ p ∷ xs)),
      )
