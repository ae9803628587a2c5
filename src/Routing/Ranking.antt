-- ===== src/Routing/Ranking.antt =====
-- `rank` returns all the candidates, best first.
use counterparty_sharedos.Prelude.{
  ℕ, ◌≡◌, ◌⊎◌, inl, inr, Bool-cases, true, false, List, [], ◌∷◌, map, str_lt, All-map, str_lt_asymm,
  str_lt_trans, All, arith,
}
use mathlib.Core.List.{Perm}
use counterparty_sharedos.Sorting.{
  IsStrictWeak, IsSorted, sort-IsSorted, sort-perm, sort-All, sort-All_back,
}
use counterparty_sharedos.Floats.{Floats, IsIeee}
use counterparty_sharedos.Models.{CandidateScore, Mode}
use counterparty_sharedos.Routing.{Ranked, key_lt, utility, rank}

module _ (fl : Floats) where
  -- a candidate with its utility
  abbrev pub priced : ℕ → Mode → CandidateScore fl.F → Ranked fl
  priced budget mode c = (c, utility fl c budget mode)

  -- no later candidate has the greater key
  abbrev pub IsRanked : List (Ranked fl) → Type 0
  IsRanked = IsSorted (λ a b. key_lt fl b a)

  -- The greater utility, or the same one and a service id that is not below.
  abbrev pub Precedes : Ranked fl → Ranked fl → Type 0
  Precedes (c, u) (d, w) =
      (fl.lt w u ≡ true)
      ⊎ ((fl.lt u w ≡ false) × (fl.lt w u ≡ false) × (str_lt c.service_id d.service_id ≡ false))

  -- every earlier candidate precedes every later one
  abbrev pub IsDescending : List (Ranked fl) → Type 0
  IsDescending [] = Unit
  IsDescending (x ∷ xs) = All (Precedes x) xs × IsDescending xs

  pub rank-All {κ} :
      (P : Ranked fl → Type κ) (candidates : List (CandidateScore fl.F)) (budget : ℕ) (mode : Mode)
      → All P (map (priced budget mode) candidates)
      → All P (rank fl candidates budget mode)
  unfolding rank
  rank-All P candidates budget mode h = sort-All _ P (map (priced budget mode) candidates) h

  pub rank-All_back {κ} :
      (P : Ranked fl → Type κ) (candidates : List (CandidateScore fl.F)) (budget : ℕ) (mode : Mode)
      → All P (rank fl candidates budget mode)
      → All P (map (priced budget mode) candidates)
  unfolding rank
  rank-All_back P candidates budget mode h =
      sort-All_back _ P (map (priced budget mode) candidates) h

module _ (fl : Floats) (law : IsIeee fl) where
  key_lt_asymm : (a b : Ranked fl) → key_lt fl a b ≡ true → key_lt fl b a ≡ false
  key_lt_asymm (c, u) (d, w) h =
      ground
        (arith, law.order.asymm u w, law.order.asymm w u, str_lt_asymm c.service_id d.service_id)

  key_lt_trans :
      (x y z : Ranked fl) → key_lt fl y x ≡ false → key_lt fl z y ≡ false → key_lt fl z x ≡ false
  key_lt_trans (a, u) (b, v) (c, w) h k = ground (
    arith,
    law.order.trans u v w,
    law.order.trans w v u,
    law.order.trans v u w,
    law.order.trans v w u,
    law.order.trans u w v,
    law.order.trans w u v,
    str_lt_trans a.service_id b.service_id c.service_id,
  )

  -- the sort's order, which `reverse=True` turns round
  pub reverse_key-IsStrictWeak : IsStrictWeak (λ a b. key_lt fl b a)
  reverse_key-IsStrictWeak = record {
    asymm = λ a b h. key_lt_asymm b a h;
    trans = λ a b c h k. key_lt_trans c b a k h;
  }

  pub rank-IsRanked :
      (candidates : List (CandidateScore fl.F)) (budget : ℕ) (mode : Mode)
      → IsRanked fl (rank fl candidates budget mode)
  unfolding rank
  rank-IsRanked candidates budget mode =
      sort-IsSorted _ reverse_key-IsStrictWeak (map (priced fl budget mode) candidates)

  key_lt-Precedes : (a b : Ranked fl) → key_lt fl a b ≡ false → Precedes fl a b
  key_lt-Precedes (c, u) (d, w) h = elim (Bool-cases (fl.lt w u)) [
    | inl e ↦ inl e
    | inr e ↦ inr (ground arith, e, ground arith)
  ]

  IsRanked-IsDescending : (xs : List (Ranked fl)) → IsRanked fl xs → IsDescending fl xs
  IsRanked-IsDescending [] h = tt
  IsRanked-IsDescending (x ∷ xs) h =
      (All-map _ _ (λ y k. key_lt-Precedes x y k) xs h.0, IsRanked-IsDescending xs h.1)

  -- `rank` returns every candidate once with its utility. Of any two of them the earlier has the greater
  -- utility, or they have the same one and the service id of the later comes no later in the order of
  -- texts than that of the earlier.
  pub rank_lem :
      (candidates : List (CandidateScore fl.F)) (budget : ℕ) (mode : Mode)
      → IsDescending fl (rank fl candidates budget mode)
        × Perm (rank fl candidates budget mode) (map (priced fl budget mode) candidates)
  unfolding rank
  rank_lem candidates budget mode = (
    IsRanked-IsDescending _ (rank-IsRanked candidates budget mode),
    sort-perm _ (map (priced fl budget mode) candidates),
  )
