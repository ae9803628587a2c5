-- ===== src/BestExecution/Optimal.antt =====
-- The recommended candidate is the best of those that may be recommended.
use counterparty_sharedos.Prelude.{
  ◌↔◌, ℕ, ◌≡◌, refl, sym, ap, ◌∙◌, ◌⊎◌, inl, inr, Bool, true, false, not, ◌&&◌, none, some, List,
  [], ◌∷◌, map, find, ltb, All, All-map, Among, Bool-cases, or_false,
}
use mathlib.Core.Path.{subst}
use counterparty_sharedos.Floats.{Floats, IsIeee, Le}
use counterparty_sharedos.Models.{CandidateScore, Mode}
use counterparty_sharedos.Routing.{Ranked, key_lt, rank, utility}
use counterparty_sharedos.Routing.Ranking.{
  priced, IsRanked, rank-All, rank-All_back, rank-IsRanked, reverse_key-IsStrictWeak,
}
use counterparty_sharedos.Routing.Viable.{IsInRange, viable-eq-fits}
use counterparty_sharedos.BestExecution.{decide}
use counterparty_sharedos.BestExecution.Decide.{acceptable, eligible, routed, routed-decide}

-- the price of the candidate fits the budget, and the mode accepts its tier
abbrev pub may_route : {F : Type 0} → ℕ → Mode → CandidateScore F → Bool
may_route budget mode c = not (ltb budget c.price_credits) && acceptable mode c.evidence_tier

module _ {A : Type 0} where
  find-All {κ} :
      (P : A → Type κ) (p : A → Bool) (xs : List A) {x : A}
      → All P xs
      → find p xs ≡ some x
      → P x × (p x ≡ true)
  find-All P p [] h e = absurd (cc e)
  find-All P p (y ∷ ys) {x} h e = elim (Bool-cases (p y)) [
    | inl t ↦ let same : y ≡ x = cc (rw t at e) in (subst P same h.0, ap p (sym same) ∙ t)
    | inr f ↦ find-All P p ys h.1 (rw f at e)
  ]

  All-Among {κ} : (P : A → Type κ) (xs : List A) (x : A) → All P xs → Among x xs → P x
  All-Among P [] x h m = elim m [ ]
  All-Among P (y ∷ ys) x h (inl e) = rw e h.0
  All-Among P (y ∷ ys) x h (inr m) = All-Among P ys x h.1 m

  find-none : (p : A → Bool) (xs : List A) → find p xs ≡ none → All (λ x. p x ≡ false) xs
  find-none p [] e = tt
  find-none p (y ∷ ys) e = elim (Bool-cases (p y)) [
    | inl t ↦ absurd (cc (rw t at e))
    | inr f ↦ (f, find-none p ys (rw f at e))
  ]

  none-find : (p : A → Bool) (xs : List A) → All (λ x. p x ≡ false) xs → find p xs ≡ none
  none-find p [] h = refl
  none-find p (y ∷ ys) h = rw h.0 (none-find p ys h.1)

  All-map_back {κ} :
      {B : Type 0} (P : B → Type κ) (f : A → B) (xs : List A)
      → All P (map f xs)
      → All (λ x. P (f x)) xs
  All-map_back P f [] h = tt
  All-map_back P f (x ∷ xs) h = (h.0, All-map_back P f xs h.1)

  All-map_intro {κ} :
      {B : Type 0} (P : B → Type κ) (f : A → B) (xs : List A)
      → All (λ x. P (f x)) xs
      → All P (map f xs)
  All-map_intro P f [] h = tt
  All-map_intro P f (x ∷ xs) h = (h.0, All-map_intro P f xs h.1)

  All-Among_self : (xs : List A) → All (λ x. Among x xs) xs
  All-Among_self [] = tt
  All-Among_self (x ∷ xs) = (inl refl, All-map _ _ (λ y m. inr m) xs (All-Among_self xs))

  All-zip {κ μ ν} :
      (P : A → Type κ) (Q : A → Type μ) (R : A → Type ν)
      → ((x : A) → P x → Q x → R x)
      → (xs : List A) → All P xs
      → All Q xs
      → All R xs
  All-zip P Q R f [] h k = tt
  All-zip P Q R f (x ∷ xs) h k = (f x h.0 k.0, All-zip P Q R f xs h.1 k.1)

module _ (fl : Floats) (law : IsIeee fl) (budget : ℕ) (mode : Mode) where
  key_lt_irrefl : (x : Ranked fl) → key_lt fl x x ≡ false
  key_lt_irrefl x = elim (Bool-cases (key_lt fl x x)) [
    | inl e ↦ (reverse_key-IsStrictWeak fl law).asymm x x e
    | inr e ↦ e
  ]

  -- what comes after the first eligible candidate has no greater key, and what comes before is not eligible
  first_is_best :
      (ranked : List (Ranked fl)) {winner : Ranked fl}
      → IsRanked fl ranked
      → find (eligible fl mode) ranked ≡ some winner
      → All (λ x. (eligible fl mode x ≡ false) ⊎ (key_lt fl winner x ≡ false)) ranked
  first_is_best [] s e = tt
  first_is_best (y ∷ ys) {winner} s e = elim (Bool-cases (eligible fl mode y)) [
    | inr f ↦ (inl f, first_is_best ys s.1 (rw f at e))
    | inl t ↦
        let same : y ≡ winner = cc (rw t at e) in
        subst (λ w. All (λ x. (eligible fl mode x ≡ false) ⊎ (key_lt fl w x ≡ false)) (y ∷ ys)) same
          (
            inr (key_lt_irrefl y),
            All-map (λ x. key_lt fl y x ≡ false)
                (λ x. (eligible fl mode x ≡ false) ⊎ (key_lt fl y x ≡ false)) (λ x k. inr k) ys s.0,
          )
  ]

  eligible-priced :
      (d : CandidateScore fl.F)
      → IsInRange fl d
      → eligible fl mode (priced fl budget mode d) ≡ may_route budget mode d
  eligible-priced d range =
      ap (λ b. b && acceptable mode d.evidence_tier) (viable-eq-fits fl law d range budget mode)

  eligible-All :
      (candidates : List (CandidateScore fl.F)) (Q : CandidateScore fl.F → Type 0)
      → All (IsInRange fl) candidates
      → All (λ d. (eligible fl mode (priced fl budget mode d) ≡ false) ⊎ Q d) candidates
      → All (λ d. (may_route budget mode d ≡ false) ⊎ Q d) candidates
  eligible-All candidates Q r h =
      All-zip _ _ _
        (λ d range k. elim k [ inl e ↦ inl (sym (eligible-priced d range) ∙ e) | inr q ↦ inr q ])
        candidates r h

  -- what is known of every candidate of the ranking
  abbrev IsFrom : List (CandidateScore fl.F) → Ranked fl → Type 0
  IsFrom candidates x = Among x.0 candidates × (x.1 ≡ utility fl x.0 budget mode) × IsInRange fl x.0

  ranked-IsFrom :
      (candidates : List (CandidateScore fl.F))
      → All (IsInRange fl) candidates
      → All (IsFrom candidates) (rank fl candidates budget mode)
  ranked-IsFrom candidates r = rank-All fl (IsFrom candidates) candidates budget mode (
      All-map_intro (IsFrom candidates) (priced fl budget mode) candidates
        (All-zip _ _ _ (λ d m k. (m, refl, k)) candidates (All-Among_self candidates) r))

  -- For candidates whose figures are in range: if a candidate is recommended, it is one of those given,
  -- with its own utility, its price fits the budget and its tier is one that the mode accepts, and no
  -- candidate of which that holds has a greater utility.
  pub recommendation_optimal :
      (candidates : List (CandidateScore fl.F)) (winner : CandidateScore fl.F) (u : fl.F)
      → All (IsInRange fl) candidates
      → routed fl (decide fl mode (rank fl candidates budget mode)) ≡ some (winner, u)
      → Among winner candidates
        × (u ≡ utility fl winner budget mode)
        × (may_route budget mode winner ≡ true)
        × All
            (λ d. (may_route budget mode d ≡ false) ⊎ Le fl (utility fl d budget mode) u)
            candidates
  recommendation_optimal candidates winner u r h =
      let found = sym (routed-decide fl mode (rank fl candidates budget mode)) ∙ h in
      let ((among, own, range), chosen) =
        find-All (IsFrom candidates) (eligible fl mode) _ (ranked-IsFrom candidates r) found in
      let best = first_is_best _ (rank-IsRanked fl law candidates budget mode) found in
      (
        among,
        own,
        sym (eligible-priced winner range)
            ∙ ap (λ w. eligible fl mode (winner, w)) (sym own)
            ∙ chosen,
        eligible-All candidates (λ d. Le fl (utility fl d budget mode) u) r
            (All-map _ _ (λ d k. elim k [ inl e ↦ inl e | inr e ↦ inr (or_false _ _ e).0 ])
              candidates
              (All-map_back _ (priced fl budget mode) candidates
                (rank-All_back fl _ candidates budget mode best))),
      )

  -- For candidates whose figures are in range: nothing is recommended just when no candidate both fits
  -- the budget and has a tier that the mode accepts.
  pub recommendation_complete :
      (candidates : List (CandidateScore fl.F))
      → All (IsInRange fl) candidates
      → (routed fl (decide fl mode (rank fl candidates budget mode)) ≡ none)
        ↔ All (λ d. may_route budget mode d ≡ false) candidates
  recommendation_complete candidates r = (
    (λ h.
        let missing =
          find-none (eligible fl mode) _
            (sym (routed-decide fl mode (rank fl candidates budget mode)) ∙ h) in
        All-zip _ _ _ (λ d e k. sym (eligible-priced d k) ∙ e) candidates
          (All-map_back _ (priced fl budget mode) candidates
            (rank-All_back fl _ candidates budget mode missing))
          r),
    λ h.
        routed-decide fl mode (rank fl candidates budget mode)
        ∙ none-find (eligible fl mode) _ (
            rank-All fl (λ x. eligible fl mode x ≡ false) candidates budget mode
              (All-map_intro (λ x. eligible fl mode x ≡ false) (priced fl budget mode) candidates
                (All-zip _ _ _ (λ d e k. eligible-priced d k ∙ e) candidates h r))),
  )
