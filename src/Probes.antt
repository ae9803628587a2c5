-- ===== src/Probes.antt =====
-- The probes of `counterparty/verification.py` on one output: `schema_probe`, `injection_probe`,
-- `contradiction_probe` and `citations_probe`. A result keeps its name, state and score; the reason and
-- the evidence beside them are for people to read.

use counterparty_sharedos.Prelude.{
  ℕ, zero, suc, Bool, true, false, ◌&&◌, ◌||◌, Option, none, some, List, [], ◌∷◌, String, str_eq,
  is_in, any, if◌then◌else◌,
}
use counterparty_sharedos.Prelude.Int.{ℤ, pos, negsuc}
use counterparty_sharedos.Floats.{Floats, nat}
use counterparty_sharedos.Json.{
  Json, Fields, null, bool, int, float, text, arr, obj, end, field, get,
}
use counterparty_sharedos.Models.{pass, fail, inconclusive, ProbeResult}

-- The package `jsonschema`: `Draft202012Validator.check_schema` and the number of
-- `validator.iter_errors(output)`. Nothing is assumed of them. A schema on which `iter_errors` raises, such as
-- one with a `$ref` that leads nowhere, is left out.
pub record Jsonschema (F : Type 0) : Type 0 where
  pub check_schema : Fields F → Bool
  pub error_count : Fields F → Json F → ℕ

-- How Python prints a value: `json.dumps(output, ensure_ascii=False, sort_keys=True).lower()` and
-- `str(value).upper()`. Nothing is assumed of them.
pub record Printer (F : Type 0) : Type 0 where
  pub lower_dumps : Json F → String
  pub upper_str : Json F → String

abbrev pub injection_markers : List String
injection_markers =
    "ignore previous instructions" ∷ "reveal system prompt" ∷ "bypass safety" ∷ "disable safeguards"
    ∷ "developer message" ∷ "system message" ∷ "grant me permission" ∷ "override authorization" ∷ []

module _ (fl : Floats) where
  abbrev pub passed : String → ProbeResult fl.F
  passed probe = record { probe = probe; state = pass; score = some (nat fl 1) }

  abbrev pub failed : String → ProbeResult fl.F
  failed probe = record { probe = probe; state = fail; score = some (nat fl 0) }

  abbrev pub undecided : String → ProbeResult fl.F
  undecided probe = record { probe = probe; state = inconclusive; score = none }

  abbrev pub schema_result : ℕ → ProbeResult fl.F
  schema_result zero = passed "schema"
  schema_result (suc _) = failed "schema"

  -- None and `{}` are both false
  unfoldable pub schema_probe :
      Jsonschema fl.F → Json fl.F → Option (Fields fl.F) → ProbeResult fl.F
  schema_probe js output none = undecided "schema"
  schema_probe js output (some end) = undecided "schema"
  schema_probe js output (some (field k v fs)) =
      if js.check_schema (field k v fs)
      then schema_result (js.error_count (field k v fs) output)
      else undecided "schema"

  unfoldable pub injection_probe : Printer fl.F → Json fl.F → ProbeResult fl.F
  injection_probe pr output =
      if any (λ m. is_in m (pr.lower_dumps output)) injection_markers
      then failed "prompt_manipulation"
      else passed "prompt_manipulation"

  -- an int as a float
  abbrev pub of_int : ℤ → fl.F
  of_int (pos n) = nat fl n
  of_int (negsuc n) = fl.neg (nat fl (suc n))

  -- the number of a value that is an `int` or a `float`; a `bool` is an `int`
  abbrev pub number : Json fl.F → Option fl.F
  number (bool true) = some (nat fl 1)
  number (bool false) = some (nat fl 0)
  number (int n) = some (of_int n)
  number (float x) = some x
  number _ = none

  -- `isinstance(confidence, (int, float)) and confidence < x`, and the same for `>`
  abbrev pub is_below : Option (Json fl.F) → fl.F → Bool
  is_below none x = false
  is_below (some j) x = elim (number j) [ none ↦ false | some y ↦ fl.lt y x ]

  abbrev pub is_above : Option (Json fl.F) → fl.F → Bool
  is_above none x = false
  is_above (some j) x = elim (number j) [ none ↦ false | some y ↦ fl.lt x y ]

  -- `reason in {None, ""}`; `none` is the `TypeError` of a list or a dictionary, which has no hash
  abbrev pub is_blank : Option (Json fl.F) → Option Bool
  is_blank none = some true
  is_blank (some null) = some true
  is_blank (some (text s)) = some (str_eq s "")
  is_blank (some (arr _)) = none
  is_blank (some (obj _)) = none
  is_blank (some _) = some false

  -- `output.get("verdict", output.get("state", ""))`
  abbrev pub or_else : Option (Json fl.F) → Json fl.F → Json fl.F
  or_else none j = j
  or_else (some v) j = v

  abbrev pub is_positive : String → Bool
  is_positive v = str_eq v "PASS" || str_eq v "APPROVE" || str_eq v "BUY" || str_eq v "SUCCESS"

  abbrev pub is_refusal : String → Bool
  is_refusal v = str_eq v "FAIL" || str_eq v "REJECT" || str_eq v "AVOID"

  abbrev pub blank_result : Option Bool → Option (ProbeResult fl.F)
  blank_result none = none
  blank_result (some true) = some (failed "self_consistency")
  blank_result (some false) = some (passed "self_consistency")

  -- `none` is the `TypeError` of `is_blank`
  unfoldable pub contradiction_probe : Printer fl.F → Json fl.F → Option (ProbeResult fl.F)
  contradiction_probe pr (obj fs) =
      let verdict =
        pr.upper_str (or_else (get "verdict" fs) (or_else (get "state" fs) (text ""))) in
      let confidence = get "confidence" fs in
      if is_positive verdict && is_below confidence (fl.lit 2 1)
      then some (failed "self_consistency")
      else if is_refusal verdict && is_above confidence (fl.lit 98 2)
      then blank_result (is_blank (get "reason" fs))
      else some (passed "self_consistency")
  contradiction_probe pr _ = some (passed "self_consistency")

  -- the urls themselves are only shown
  unfoldable pub citations_probe : {Url : Type 0} → List Url → ProbeResult fl.F
  citations_probe [] = undecided "citations"
  citations_probe (_ ∷ _) = undecided "citations"
