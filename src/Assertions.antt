-- ===== src/Assertions.antt =====
-- `assertions_probe` of `counterparty/verification.py`, with Python's comparisons of values. Comparing an
-- int with a float converts the int, which is exact up to 2 ** 53.
pub mod Exact
use counterparty_sharedos.Prelude.{
  ℕ, zero, suc, ◌==◌, Bool, true, false, not, ◌&&◌, ◌||◌, Option, none, some, List, [], ◌∷◌, filter,
  length, String, str_eq, str_lt, is_in, if◌then◌else◌,
}
use counterparty_sharedos.Prelude.Int.{ℤ, pos, ltb_ℤ}
use counterparty_sharedos.Floats.{Floats, nat, fge, fmax}
use counterparty_sharedos.Json.{
  Json, Items, Fields, null, bool, int, float, text, arr, obj, nil, cons, end, field, has_key, get,
}
use counterparty_sharedos.Models.{
  Op, eq, ne, contains, gte, lte, exists, Assertion, ProbeResult, fail,
}
use counterparty_sharedos.Pointer.{resolve_path}
use counterparty_sharedos.Probes.{passed, undecided, number}

-- a value that is an `int`, as a `bool` is
abbrev pub whole : {F : Type 0} → Json F → Option ℤ
whole (bool true) = some (pos 1)
whole (bool false) = some (pos 0)
whole (int n) = some n
whole _ = none

abbrev pub field_count : {F : Type 0} → Fields F → ℕ
field_count end = 0
field_count (field k v fs) = suc (field_count fs)

module _ (fl : Floats) where
  abbrev pub float_ge : Option fl.F → Option fl.F → Bool
  float_ge (some x) (some y) = fge fl x y
  float_ge _ _ = false

  abbrev pub whole_ge : Option ℤ → Option ℤ → Bool → Bool
  whole_ge (some m) (some n) other = not (ltb_ℤ m n)
  whole_ge _ _ other = other

  -- `a >= b` on numbers, and `false` where one is no number
  abbrev pub number_ge : Json fl.F → Json fl.F → Bool
  number_ge a b = whole_ge (whole a) (whole b) (float_ge (number fl a) (number fl b))

  unfoldable mutual
    unfolding get

    -- `a == b`
    pub same_value : Json fl.F → Json fl.F → Bool
    same_value null null = true
    same_value (text s) (text t) = str_eq s t
    same_value (arr xs) (arr ys) = same_values xs ys
    same_value (obj fs) (obj gs) = (field_count fs == field_count gs) && same_entries fs gs
    same_value a b = number_ge a b && number_ge b a

    pub same_values : Items fl.F → Items fl.F → Bool
    same_values nil nil = true
    same_values (cons x xs) (cons y ys) = same_value x y && same_values xs ys
    same_values _ _ = false

    -- each entry of the first is in the second
    pub same_entries : Fields fl.F → Fields fl.F → Bool
    same_entries end gs = true
    same_entries (field k v fs) gs =
        let rest = same_entries fs gs in
        elim (get k gs) [ none ↦ false | some w ↦ same_value v w && rest ]

  unfoldable mutual
    unfolding same_value

    -- `a >= b`, and `false` for a `TypeError`
    pub is_ge : Json fl.F → Json fl.F → Bool
    is_ge (text s) (text t) = not (str_lt s t)
    is_ge (arr xs) (arr ys) = items_ge xs ys
    is_ge a b = number_ge a b

    -- lists are compared by their first items that differ
    pub items_ge : Items fl.F → Items fl.F → Bool
    items_ge xs nil = true
    items_ge nil (cons y ys) = false
    items_ge (cons x xs) (cons y ys) =
        let rest = items_ge xs ys in let here = is_ge x y in if same_value x y then rest else here

  unfoldable pub has_item : Json fl.F → Items fl.F → Bool
  unfolding same_value
  has_item v nil = false
  has_item v (cons x xs) = same_value x v || has_item v xs

  -- `v in actual`, and `false` for a `TypeError`
  unfoldable pub is_contained : Json fl.F → Json fl.F → Bool
  unfolding has_item has_key
  is_contained (text s) (text t) = is_in s t
  is_contained v (arr xs) = has_item v xs
  is_contained (text s) (obj fs) = has_key s fs
  is_contained _ _ = false

  -- one assertion on what its path leads to
  unfoldable pub holds : Assertion fl.F → Option (Json fl.F) → Bool
  unfolding same_value is_ge is_contained
  holds a none = false
  holds a (some actual) = elim a.op [
    | exists ↦ true
    | eq ↦ same_value actual a.value
    | ne ↦ not (same_value actual a.value)
    | contains ↦ is_contained a.value actual
    | gte ↦ is_ge actual a.value
    | lte ↦ is_ge a.value actual
  ]

  unfoldable pub is_failure : Json fl.F → Assertion fl.F → Bool
  unfolding holds resolve_path
  is_failure output a = not (holds a (resolve_path output a.path))

  -- `max(0.0, 1.0 - len(failures) / len(assertions))`
  abbrev pub share_of_passed : ℕ → ℕ → fl.F
  share_of_passed failures assertions =
      fmax fl (nat fl 0) (fl.sub (nat fl 1) (fl.div (nat fl failures) (nat fl assertions)))

  abbrev pub assertions_result : ℕ → ℕ → ProbeResult fl.F
  assertions_result zero assertions = passed fl "assertions"
  assertions_result (suc failures) assertions = record {
    probe = "assertions";
    state = fail;
    score = some (share_of_passed (suc failures) assertions);
  }

  unfoldable pub assertions_probe : Json fl.F → List (Assertion fl.F) → ProbeResult fl.F
  unfolding is_failure
  assertions_probe output [] = undecided fl "assertions"
  assertions_probe output (a ∷ assertions) =
      assertions_result (length (filter (is_failure output) (a ∷ assertions)))
        (length (a ∷ assertions))
