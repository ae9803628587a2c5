-- ===== src/Requests.antt =====
-- The checks that `counterparty/models.py` declares of the bodies of requests: which keys they may have, the
-- lengths and ranges of the fields, and the validators. `none` is `ValidationError`, which FastAPI answers
-- with status 422.
pub mod Bodies
pub mod Accepted
pub mod Routable
use counterparty_sharedos.Prelude.{
  ℕ, leb, ◌==◌, Bool, true, false, not, ◌&&◌, ◌||◌, Option, none, some, List, [], ◌∷◌, map, any,
  length, String, str_eq, if◌then◌else◌,
}
use counterparty_sharedos.Prelude.Int.{ℤ, pos, negsuc}
use counterparty_sharedos.Floats.{Floats}
use counterparty_sharedos.Json.{
  Json, Items, Fields, null, text, arr, obj, nil, cons, end, field, get,
}
use counterparty_sharedos.Ingress.{text_length}
use counterparty_sharedos.Models.{
  EvidenceState, pass, fail, inconclusive, Op, eq, ne, contains, gte, lte, exists, Mode, safe,
  explore, Assertion, IndependentCheck, DeliveryVerificationRequest, ProbeObservationRequest,
  CandidateRequest, BestExecutionRequest, TrustSnapshotRequest, between,
}

-- What pydantic and Python make of a value: a text with the blanks at its ends stripped, an integer, a float
-- and an http url, each `none` for a value that it does not take for one, and the length of `repr(value)`.
-- Nothing is assumed of them.
pub record Pydantic (F : Type 0) : Type 0 where
  pub as_str : Json F → Option String
  pub as_int : Json F → Option ℤ
  pub as_float : Json F → Option F
  pub as_url : Json F → Option String
  pub repr_length : Json F → ℕ

infixl 5 ◌>>=◌ ◌>>◌
abbrev pub ◌>>=◌ : {A B : Type 0} → Option A → (A → Option B) → Option B
none >>= f = none
some a >>= f = f a

abbrev pub guard : Bool → Option (Unit {0})
guard true = some tt
guard false = none

abbrev pub ◌>>◌ : {B : Type 0} → Option (Unit {0}) → Option B → Option B
m >> k = m >>= λ _. k

module _ {F A : Type 0} where
  -- a field that must be there, and one with a default
  abbrev pub required_from : (Json F → Option A) → Option (Json F) → Option A
  required_from f none = none
  required_from f (some j) = f j

  abbrev pub required : String → (Json F → Option A) → Fields F → Option A
  required key f fs = required_from f (get key fs)

  abbrev pub defaulted_from : A → (Json F → Option A) → Option (Json F) → Option A
  defaulted_from default f none = some default
  defaulted_from default f (some j) = f j

  abbrev pub defaulted : String → A → (Json F → Option A) → Fields F → Option A
  defaulted key default f fs = defaulted_from default f (get key fs)

  -- `X | None`
  abbrev pub nullable : (Json F → Option A) → Json F → Option (Option A)
  nullable f null = some none
  nullable f j = do a ← f j; some (some a)

  unfoldable pub each_item : (Json F → Option A) → Items F → Option (List A)
  each_item f nil = some []
  each_item f (cons x xs) =
      let rest = each_item f xs in (do a ← f x; others ← rest; some (a ∷ others))

  -- `list[X]` with its `min_length` and `max_length`
  unfoldable pub list_of : ℕ → ℕ → (Json F → Option A) → Json F → Option (List A)
  unfolding each_item
  list_of low high f (arr items) = do
    values ← each_item f items
    guard (leb low (length values) && leb (length values) high)
    some values
  list_of low high f _ = none

-- `extra="forbid"`
unfoldable pub only_keys : {F : Type 0} → List String → Fields F → Bool
only_keys allowed end = true
only_keys allowed (field key value fs) = any (str_eq key) allowed && only_keys allowed fs

-- `set(ids)`, with one of each
unfoldable pub distinct : List String → List String
distinct [] = []
distinct (x ∷ xs) = let rest = distinct xs in if any (str_eq x) xs then rest else x ∷ rest

-- `not len(ids) != len(set(ids))`
unfoldable pub are_unique : List String → Bool
unfolding distinct
are_unique ids = length ids == length (distinct ids)

-- `Field(ge=low, le=high)` of an integer
abbrev pub within : ℕ → ℕ → ℤ → Option ℕ
within low high (pos n) = do guard (leb low n && leb n high); some n
within low high (negsuc n) = none

abbrev pub dict_of : {F : Type 0} → Json F → Option (Fields F)
dict_of (obj fs) = some fs
dict_of _ = none

-- the literals
abbrev pub named : {A : Type 0} → List (String × A) → String → Option A
named [] s = none
named ((name, a) ∷ rest) s = let other = named rest s in if str_eq s name then some a else other

abbrev pub literal : {F A : Type 0} → List (String × A) → Json F → Option A
literal table (text s) = named table s
literal table _ = none

abbrev pub state_of : {F : Type 0} → Json F → Option EvidenceState
state_of = literal (("PASS", pass) ∷ ("FAIL", fail) ∷ ("INCONCLUSIVE", inconclusive) ∷ [])

abbrev pub op_of : {F : Type 0} → Json F → Option Op
op_of = literal (
    ("eq", eq)
    ∷ ("ne", ne)
    ∷ ("contains", contains)
    ∷ ("gte", gte)
    ∷ ("lte", lte)
    ∷ ("exists", exists)
    ∷ [])

abbrev pub mode_of : {F : Type 0} → Json F → Option Mode
mode_of = literal (("safe", safe) ∷ ("explore", explore) ∷ [])

module _ (fl : Floats) (py : Pydantic fl.F) where
  -- `str = Field(min_length=low, max_length=high)`
  abbrev pub bounded_str : ℕ → ℕ → Json fl.F → Option String
  bounded_str low high j = do
    s ← py.as_str j
    guard (leb low (text_length s) && leb (text_length s) high)
    some s

  -- `int = Field(ge=low, le=high)`
  abbrev pub bounded_int : ℕ → ℕ → Json fl.F → Option ℕ
  bounded_int low high j = do n ← py.as_int j; within low high n

  -- `float = Field(ge=0, le=1)`
  abbrev pub fraction : Json fl.F → Option fl.F
  fraction j = do x ← py.as_float j; guard (between fl 1 x); some x

  -- the validator `output_must_be_bounded`
  abbrev pub output_must_be_bounded : Json fl.F → Option (Json fl.F)
  output_must_be_bounded value = do guard (leb (py.repr_length value) 120000); some value

  -- a model, from the keys that it knows and from its fields
  abbrev pub strict_model :
      {A : Type 0} → List String → (Fields fl.F → Option A) → Json fl.F → Option A
  strict_model keys f j = do fs ← dict_of j; guard (only_keys keys fs); f fs
