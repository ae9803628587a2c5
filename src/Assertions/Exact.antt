-- ===== src/Assertions/Exact.antt =====
-- What the result of `assertions_probe` says.
use counterparty_sharedos.Prelude.{
  ℕ, ◌≡◌, ◌↔◌, ◌≢◌, inl, inr, refl, Bool, true, not, List, [], ◌∷◌, filter, length, All, arith,
  Bool-cases,
}
use counterparty_sharedos.Floats.{Floats}
use counterparty_sharedos.Json.{Json}
use counterparty_sharedos.Models.{Assertion, pass, inconclusive}
use counterparty_sharedos.Pointer.{resolve_path}
use counterparty_sharedos.Assertions.{holds, is_failure, assertions_result, assertions_probe}

none_left :
    {A : Type 0} (q : A → Bool) (xs : List A)
    → (length (filter (λ x. not (q x)) xs) ≡ 0) ↔ All (λ x. q x ≡ true) xs
none_left q [] = ((λ e. tt), (λ h. refl))
none_left q (x ∷ xs) = elim (Bool-cases (q x)) [
  | inl e ↦ rw (e, filter) ((λ h. (refl, (none_left q xs).0 h)), (λ h. (none_left q xs).1 h.1))
  | inr e ↦ rw (e, filter) ((λ h. absurd (cc h)), (λ h. absurd (cc h.0)))
]

module _ (fl : Floats) (output : Json fl.F) where
  -- the assertion holds of the output
  abbrev pub Holds : Assertion fl.F → Type 0
  Holds a = holds fl a (resolve_path output a.path) ≡ true

  no_failures :
      (assertions : List (Assertion fl.F))
      → (length (filter (is_failure fl output) assertions) ≡ 0) ↔ All Holds assertions
  unfolding is_failure
  no_failures assertions = none_left (λ a. holds fl a (resolve_path output a.path)) assertions

  result_pass : (failures n : ℕ) → ((assertions_result fl failures n).state ≡ pass) ↔ (failures ≡ 0)
  result_pass failures n = ground arith

  result_decided : (failures n : ℕ) → (assertions_result fl failures n).state ≢ inconclusive
  result_decided failures n h = ground arith

  -- The state of `assertions_probe` is INCONCLUSIVE just when there are no assertions, and PASS just
  -- when there are some and each of them holds of what its path leads to in the output.
  pub assertions_probe_lem :
      (assertions : List (Assertion fl.F))
      → (((assertions_probe fl output assertions).state ≡ inconclusive) ↔ (assertions ≡ []))
        × (((assertions_probe fl output assertions).state ≡ pass)
            ↔ ((assertions ≢ []) × All Holds assertions))
  unfolding assertions_probe
  assertions_probe_lem [] =
      (((λ h. refl), (λ h. refl)), ((λ h. absurd (cc h)), (λ h. absurd (h.0 refl))))
  assertions_probe_lem (a ∷ assertions) = (
    ((λ h. absurd (result_decided _ _ h)), (λ h. absurd (cc h))),
    (
      (λ h. ((λ e. cc e), (no_failures (a ∷ assertions)).0 ((result_pass _ _).0 h))),
      (λ h. (result_pass _ _).1 ((no_failures (a ∷ assertions)).1 h.1)),
    ),
  )
