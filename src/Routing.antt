-- ===== src/Routing.antt =====
-- `counterparty/routing.py`: the utility of a candidate and the ranking of candidates.
pub mod Ranking
pub mod Viable
use counterparty_sharedos.Prelude.{
  ℕ, Bool, true, false, not, ◌&&◌, ◌||◌, List, [], ◌∷◌, map, str_lt, ltb, max, if◌then◌else◌,
}
use counterparty_sharedos.Sorting.{sort}
use counterparty_sharedos.Floats.{Floats, nat, fmin, fmax}
use counterparty_sharedos.Models.{CandidateScore, Mode, is_safe}

module _ (fl : Floats) where
  abbrev pub trust_of : CandidateScore fl.F → fl.F
  trust_of c = fl.div c.trust_score (nat fl 100)

  abbrev pub price_efficiency : CandidateScore fl.F → ℕ → fl.F
  price_efficiency c budget =
      fmax fl (nat fl 0)
        (fl.sub (nat fl 1) (fl.div (nat fl c.price_credits) (nat fl (max budget 1))))

  abbrev pub latency_penalty : CandidateScore fl.F → fl.F
  latency_penalty c = fmin fl (nat fl 1) (fl.div (nat fl c.latency_ms) (nat fl 300000))

  abbrev pub uncertainty_weight : Mode → fl.F
  uncertainty_weight mode = if is_safe mode then fl.lit 28 2 else fl.lit 12 2

  -- the weighted sum of a candidate that fits the budget
  unfoldable pub weighted : CandidateScore fl.F → ℕ → Mode → fl.F
  weighted c budget mode =
      let merits =
        fl.add
          (fl.add (fl.add (fl.mul (fl.lit 42 2) (trust_of c)) (fl.mul (fl.lit 25 2) c.task_fit))
            (fl.mul (fl.lit 18 2) (price_efficiency c budget)))
          (fl.mul (fl.lit 15 2) c.confidence) in
      fl.sub (fl.sub merits (fl.mul (fl.lit 10 2) (latency_penalty c)))
        (fl.mul (uncertainty_weight mode) (fl.sub (nat fl 1) c.confidence))

  unfoldable pub utility : CandidateScore fl.F → ℕ → Mode → fl.F
  unfolding weighted
  utility c budget mode =
      if ltb budget c.price_credits then fl.neg (nat fl 1000000000) else weighted c budget mode

  -- a candidate and its utility
  abbrev pub Ranked : Type 0
  Ranked = CandidateScore fl.F × fl.F

  -- `<` on the sort keys `(utility, service_id)`, which are compared as tuples
  abbrev pub key_lt : Ranked → Ranked → Bool
  key_lt (c, u) (d, w) = fl.lt u w || (not (fl.lt w u) && str_lt c.service_id d.service_id)

  -- `sorted(..., key=..., reverse=True)`
  unfoldable pub rank : List (CandidateScore fl.F) → ℕ → Mode → List Ranked
  unfolding utility
  rank candidates budget mode =
      sort (λ a b. key_lt b a) (map (λ c. (c, utility c budget mode)) candidates)
