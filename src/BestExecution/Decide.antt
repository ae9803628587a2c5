-- ===== src/BestExecution/Decide.antt =====
-- The decision of `best_execution` is a search: the first candidate of the ranking that the mode
-- accepts.
use counterparty_sharedos.Prelude.{
  ◌≡◌, refl, sym, ap, ◌∙◌, Bool, not, ◌&&◌, Option, none, some, List, [], ◌∷◌, filter, find,
  get_head?, arith,
}
use counterparty_sharedos.Floats.{Floats}
use counterparty_sharedos.Models.{Mode, safe, explore, Tier}
use counterparty_sharedos.Routing.{Ranked}
use counterparty_sharedos.BestExecution.{
  Decision, route, is_rejected, has_evidence, is_viable, decide_from, decide,
}

-- the tiers that spend may be routed to
abbrev pub acceptable : Mode → Tier → Bool
acceptable safe tier = has_evidence tier
acceptable explore tier = not (is_rejected tier)

module _ (fl : Floats) where
  abbrev pub eligible : Mode → Ranked fl → Bool
  eligible mode x = is_viable fl x && acceptable mode x.0.evidence_tier

  -- the candidate that is recommended
  abbrev pub routed : Decision fl → Option (Ranked fl)
  routed (route winner viable) = some winner
  routed _ = none

  abbrev routeable : List (Ranked fl) → List (Ranked fl)
  routeable ranked =
      filter (λ (x : Ranked fl). not (is_rejected x.0.evidence_tier)) (filter (is_viable fl) ranked)

  abbrev evidence_ready : List (Ranked fl) → List (Ranked fl)
  evidence_ready ranked =
      filter (λ (x : Ranked fl). has_evidence x.0.evidence_tier) (routeable ranked)

  head-evidence_ready :
      (ranked : List (Ranked fl)) → get_head? (evidence_ready ranked) ≡ find (eligible safe) ranked
  head-evidence_ready [] = refl
  head-evidence_ready (x ∷ ranked) = ground (arith, head-evidence_ready ranked)

  head-routeable :
      (ranked : List (Ranked fl)) → get_head? (routeable ranked) ≡ find (eligible explore) ranked
  head-routeable [] = refl
  head-routeable (x ∷ ranked) = ground (arith, head-routeable ranked)

  abbrev chosen : Mode → List (Ranked fl) → List (Ranked fl) → Option (Ranked fl)
  chosen safe routeable ready = get_head? ready
  chosen explore routeable ready = get_head? routeable

  chosen_nothing : (mode : Mode) → chosen mode [] [] ≡ none
  chosen_nothing safe = refl
  chosen_nothing explore = refl

  routed-decide_from :
      (mode : Mode) (viable routeable ready : List (Ranked fl))
      → (viable ≡ [] → routeable ≡ [])
      → (routeable ≡ [] → ready ≡ [])
      → routed (decide_from fl mode viable routeable ready) ≡ chosen mode routeable ready
  unfolding decide_from
  routed-decide_from mode [] routeable ready h k =
      rw (k (h refl), h refl) (sym (chosen_nothing mode))
  routed-decide_from mode (v ∷ vs) [] ready h k = rw (k refl) (sym (chosen_nothing mode))
  routed-decide_from safe (v ∷ vs) (r ∷ rs) [] h k = refl
  routed-decide_from safe (v ∷ vs) (r ∷ rs) (e ∷ es) h k = refl
  routed-decide_from explore (v ∷ vs) (r ∷ rs) ready h k = refl

  chosen-eq-find :
      (mode : Mode) (ranked : List (Ranked fl))
      → chosen mode (routeable ranked) (evidence_ready ranked) ≡ find (eligible mode) ranked
  chosen-eq-find safe ranked = head-evidence_ready ranked
  chosen-eq-find explore ranked = head-routeable ranked

  -- The recommendation is the first candidate of the ranking that passes the filter `u > -1e8` and has
  -- a tier that the mode accepts (VERIFIED or PROVISIONAL in safe mode, any but REJECTED in explore
  -- mode); where there is none, nothing is recommended.
  pub routed-decide :
      (mode : Mode) (ranked : List (Ranked fl))
      → routed (decide fl mode ranked) ≡ find (eligible mode) ranked
  unfolding decide
  routed-decide mode ranked =
      routed-decide_from mode (filter (is_viable fl) ranked) (routeable ranked)
        (evidence_ready ranked)
        (ap (filter (λ (x : Ranked fl). not (is_rejected x.0.evidence_tier))))
        (ap (filter (λ (x : Ranked fl). has_evidence x.0.evidence_tier)))
      ∙ chosen-eq-find mode ranked
