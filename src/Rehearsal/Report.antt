-- ===== src/Rehearsal/Report.antt =====
-- The checks and the report of the rehearsal, and its exit status.
use counterparty_sharedos.Prelude.{
  ℕ, ◌+◌, leb, ◌==◌, Bool, not, ◌&&◌, List, [], ◌∷◌, map, any, all, length, String, str_eq,
  if◌then◌else◌,
}
use counterparty_sharedos.Prelude.Int.{pos}
use counterparty_sharedos.Json.{
  Json, Items, Fields, bool, int, text, arr, obj, nil, cons, end, field, get,
}
use counterparty_sharedos.Requests.{distinct}
use counterparty_sharedos.Driver.{is_text, or_null}
use counterparty_sharedos.Rehearsal.{Rehearsed}

-- the constants of the two rounds
abbrev pub tried_products : List String
tried_products = "research-agent" ∷ "code-review-agent" ∷ "translation-agent" ∷ []

abbrev pub disagreements : List (String × String)
disagreements =
    ("research-agent", "citation syntax is not independent verification")
    ∷ ("code-review-agent", "claimed confidence exceeds the supplied deterministic evidence")
    ∷ ("translation-agent", "delivery contract did not specify terminology preservation")
    ∷ []

abbrev pub ranking : List String
ranking = "research-agent" ∷ "translation-agent" ∷ "code-review-agent" ∷ []

abbrev pub round2_spend : List (String × ℕ)
round2_spend = ("research-agent", 30) ∷ ("code-review-agent", 25) ∷ ("translation-agent", 25) ∷ []

unfoldable pub total : List (String × ℕ) → ℕ
total [] = 0
total ((product, credits) ∷ rest) = credits + total rest

-- `p in disagreements and disagreements[p]`
abbrev pub has_disagreement : String → Bool
has_disagreement p =
    any (λ (d : String × String). str_eq p d.0 && not (str_eq d.1 "")) disagreements

module _ {F : Type 0} where
  abbrev pub is_routed : String → Fields F → Bool
  is_routed tier route =
      is_text "seller-alpha" (get "recommended" route) && is_text tier (get "evidence_tier" route)

  unfoldable pub checks : Rehearsed F → List (String × Bool)
  unfolding get distinct total
  checks r =
      ("round1_three_products_tried", leb 3 (length tried_products))
      ∷ ("round1_specific_disagreement_each", all has_disagreement tried_products)
      ∷ ("round1_ranking_submitted", length ranking == length tried_products)
      ∷ ("alpha_canary_passed", is_text "PASS" (get "state" r.alpha_probe))
      ∷ ("beta_canary_rejected", is_text "FAIL" (get "state" r.beta_probe))
      ∷ ("safe_first_route_is_alpha", is_routed "PROVISIONAL" r.first_route)
      ∷ (
        "verified_promotion_reached_buy",
        is_text "BUY" (get "verdict" r.snapshot)
            && is_text "VERIFIED" (get "evidence_tier" r.snapshot),
      )
      ∷ ("safe_final_route_is_verified_alpha", is_routed "VERIFIED" r.final_route)
      ∷ ("round2_spend_at_least_80", leb 80 (total round2_spend))
      ∷ (
        "round2_spend_across_three_products",
        leb 3 (length (distinct (map (λ (x : String × ℕ). x.0) round2_spend))),
      )
      ∷ ("audit_chain_valid", r.audit_valid)
      ∷ []

  unfoldable pub all_hold : Rehearsed F → Bool
  unfolding checks
  all_hold r = all (λ (check : String × Bool). check.1) (checks r)

  abbrev pub check_fields : List (String × Bool) → Fields F
  check_fields [] = end
  check_fields ((name, value) ∷ rest) = field name (bool value) (check_fields rest)

  abbrev pub spend_items : List (String × ℕ) → Items F
  spend_items [] = nil
  spend_items ((product, credits) ∷ rest) =
      cons (obj (field "product" (text product) (field "credits" (int (pos credits)) end)))
        (spend_items rest)

  -- `{k: route.get(k) for k in (...)}`
  abbrev pub route_summary : Fields F → Json F
  route_summary route = obj (
      field "state" (or_null (get "state" route)) (
        field "recommended" (or_null (get "recommended" route)) (
          field "evidence_tier" (or_null (get "evidence_tier" route))
            (field "recommendation_strength" (or_null (get "recommendation_strength" route)) end))))

  unfoldable pub rehearsal_report : Rehearsed F → Json F
  unfolding all_hold get total distinct
  rehearsal_report r = obj (
      field "ready" (bool (all_hold r)) (
        field "checks" (obj (check_fields (checks r))) (
          field "promotion_deliveries" (int (pos r.deliveries)) (
            field "round2_simulated_external_spend"
              (obj (
                field "credits" (int (pos (total round2_spend))) (
                  field "distinct_products"
                    (int (pos (length (distinct (map (λ (x : String × ℕ). x.0) round2_spend)))))
                    (field "purchases" (arr (spend_items round2_spend)) end))))
              (field "first_route" (route_summary r.first_route) (
                field "final_route" (route_summary r.final_route) (
                  field "audit_events" (int (pos r.audit_events)) (
                    field "note"
                      (text
                        "Autonomous Arena obligations are simulated locally; this is not evidence of real SharedNet participation or real credit spend.")
                      end))))))))

  abbrev pub exit_status : Rehearsed F → ℕ
  exit_status r = if all_hold r then 0 else 1
