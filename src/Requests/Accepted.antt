-- ===== src/Requests/Accepted.antt =====
-- What a best-execution request that is accepted keeps to.
use counterparty_sharedos.Prelude.{
  ℕ, suc, ◌≤◌, ◌≡◌, refl, leb, ◌==◌, Bool, true, false, ◌&&◌, Option, none, some, List, [], ◌∷◌,
  map, any, length, All, All-map, String, str_eq, arith, Bool-cases, inl, inr, and_true,
}
use counterparty_sharedos.Prelude.Int.{ℤ, pos, negsuc}
use mathlib.Core.Path.{subst}
use counterparty_sharedos.Floats.{Floats, IsIeee, IsFraction, fge, nat}
use counterparty_sharedos.Floats.Order.{fge_iff}
use counterparty_sharedos.Json.{Json, Items, null, arr, nil, cons, get}
use counterparty_sharedos.Ingress.{text_length}
use counterparty_sharedos.Tables.Unique.{IsUnique}
use counterparty_sharedos.Models.{CandidateRequest, BestExecutionRequest, between, safe}
use counterparty_sharedos.Requests.{
  Pydantic, ◌>>=◌, ◌>>◌, guard, required, required_from, defaulted, defaulted_from, nullable,
  each_item, list_of, distinct, are_unique, within, dict_of, bounded_str, bounded_int, fraction,
  only_keys, mode_of,
}
use counterparty_sharedos.Requests.Bodies.{
  candidate_keys, execution_keys, candidate, execution_request,
}

bind-some :
    {A B : Type 0} (m : Option A) (f : A → Option B) {b : B}
    → (m >>= f) ≡ some b
    → (a : A) × (m ≡ some a) × (f a ≡ some b)
bind-some none f h = absurd (cc h)
bind-some (some a) f h = (a, refl, h)

guard-some :
    {B : Type 0} (t : Bool) (k : Option B) {b : B}
    → (guard t >> k) ≡ some b
    → (t ≡ true) × (k ≡ some b)
guard-some true k h = (refl, h)
guard-some false k h = absurd (cc h)

module _ {F A : Type 0} where
  required-some :
      (f : Json F → Option A) (o : Option (Json F)) {a : A}
      → required_from f o ≡ some a
      → (j : Json F) × (f j ≡ some a)
  required-some f none h = absurd (cc h)
  required-some f (some j) h = (j, h)

  -- each value comes from an item that the check takes
  each_item-some :
      (f : Json F → Option A) (items : Items F) {values : List A}
      → each_item f items ≡ some values
      → All (λ a. (j : Json F) × (f j ≡ some a)) values
  unfolding each_item
  each_item-some f nil {values} h =
      let e : [] ≡ values = cc h in subst (All (λ a. (j : Json F) × (f j ≡ some a))) e tt
  each_item-some f (cons x xs) {values} h =
      let (a, first, more) = bind-some (f x) _ h in
      let (others, rest, last) = bind-some (each_item f xs) _ more in
      let e : a ∷ others ≡ values = cc last in
      subst (All (λ b. (j : Json F) × (f j ≡ some b))) e ((x, first), each_item-some f xs rest)

  list_of-some :
      (low high : ℕ) (f : Json F → Option A) (j : Json F) {values : List A}
      → list_of low high f j ≡ some values
      → (low ≤ length values)
        × (length values ≤ high)
        × All (λ a. (j : Json F) × (f j ≡ some a)) values
  unfolding list_of
  list_of-some low high f (arr items) {values} h =
      let (found, items_ok, more) = bind-some (each_item f items) _ h in
      let (in_range, last) =
        guard-some (leb low (length found) && leb (length found) high) (some found) more in
      let e : found ≡ values = cc last in
      subst
        (λ vs. (low ≤ length vs) × (length vs ≤ high) × All (λ b. (j : Json F) × (f j ≡ some b)) vs)
        e (ground arith, ground arith, each_item-some f items items_ok)
  list_of-some low high f _ h = absurd (cc h)

distinct-length : (ids : List String) → length (distinct ids) ≤ length ids
unfolding distinct
distinct-length [] = omega arith
distinct-length (x ∷ xs) = ground (arith, distinct-length xs)

are_unique-IsUnique : (ids : List String) → are_unique ids ≡ true → IsUnique (λ b a. str_eq a b) ids
unfolding are_unique distinct
are_unique-IsUnique [] h = tt
are_unique-IsUnique (x ∷ xs) h = elim (Bool-cases (any (str_eq x) xs)) [
  | inl e ↦
      let full : (suc (length xs) == length (distinct xs)) ≡ true = rw e at h in
      absurd (ground (arith, distinct-length xs))
  | inr e ↦
      let full : (suc (length xs) == suc (length (distinct xs))) ≡ true = rw e at h in
      (e, are_unique-IsUnique xs (ground arith))
]

within-some : (low high : ℕ) (i : ℤ) {n : ℕ} → within low high i ≡ some n → (low ≤ n) × (n ≤ high)
within-some low high (pos n) h = ground arith
within-some low high (negsuc n) h = absurd (cc h)

module _ (fl : Floats) (law : IsIeee fl) (py : Pydantic fl.F) where
  bounded_str-some :
      (low high : ℕ) (j : Json fl.F) {s : String}
      → bounded_str fl py low high j ≡ some s
      → (low ≤ text_length s) × (text_length s ≤ high)
  bounded_str-some low high j {s} h =
      let (t, read, more) = bind-some (py.as_str j) _ h in
      let (in_range, last) =
        guard-some (leb low (text_length t) && leb (text_length t) high) (some t) more in
      let e : t ≡ s = cc last in
      subst (λ t. (low ≤ text_length t) × (text_length t ≤ high)) e (ground arith, ground arith)

  bounded_int-some :
      (low high : ℕ) (j : Json fl.F) {n : ℕ}
      → bounded_int fl py low high j ≡ some n
      → (low ≤ n) × (n ≤ high)
  bounded_int-some low high j h =
      let (i, read, more) = bind-some (py.as_int j) _ h in within-some low high i more

  fraction-some : (j : Json fl.F) {x : fl.F} → fraction fl py j ≡ some x → IsFraction fl x
  fraction-some j {x} h =
      let (y, read, more) = bind-some (py.as_float j) _ h in
      let (in_range, last) = guard-some (between fl 1 y) (some y) more in
      let (low, high) = and_true (fge fl y (nat fl 0)) (fge fl (nat fl 1) y) in_range in
      let e : y ≡ x = cc last in
      subst (IsFraction fl) e (fge_iff fl law _ _ low, fge_iff fl law _ _ high)

  -- a value that was given is in range
  abbrev pub OptionallyAtMost : ℕ → Option ℕ → Type 0
  OptionallyAtMost high none = Unit
  OptionallyAtMost high (some n) = n ≤ high

  pub record IsCandidate (r : CandidateRequest fl.F) : Type 0 where
    pub id_length : (1 ≤ text_length r.service_id) × (text_length r.service_id ≤ 200)
    pub price : r.price_credits ≤ 100
    pub fit : IsFraction fl r.task_fit
    pub latency : OptionallyAtMost 300000 r.latency_ms

  pub record IsRequest (req : BestExecutionRequest fl.F) : Type 0 where
    pub task_length : (1 ≤ text_length req.task) × (text_length req.task ≤ 12000)
    pub task_type_length : (1 ≤ text_length req.task_type) × (text_length req.task_type ≤ 100)
    pub budget : (1 ≤ req.budget_credits) × (req.budget_credits ≤ 100)
    pub count : (1 ≤ length req.candidates) × (length req.candidates ≤ 32)
    pub candidates : All IsCandidate req.candidates
    -- no service twice
    pub unique :
        IsUnique
          (λ b a. str_eq a b)
          (map (λ (r : CandidateRequest fl.F). r.service_id) req.candidates)

  half-IsFraction : IsFraction fl (fl.lit 5 1)
  half-IsFraction = (law.lit_mono 0 0 5 1 (omega arith), law.lit_mono 5 1 1 0 (omega arith))

  task_fit-IsFraction :
      (o : Option (Json fl.F)) {x : fl.F}
      → defaulted_from (fl.lit 5 1) (fraction fl py) o ≡ some x
      → IsFraction fl x
  task_fit-IsFraction none h =
      let e : fl.lit 5 1 ≡ _ = cc h in subst (IsFraction fl) e half-IsFraction
  task_fit-IsFraction (some j) h = fraction-some j h

  nullable-some :
      (high : ℕ) (j : Json fl.F) {o : Option ℕ}
      → nullable (bounded_int fl py 0 high) j ≡ some o
      → OptionallyAtMost high o
  nullable-some high null {o} h = let e : none ≡ o = cc h in subst (OptionallyAtMost high) e tt
  nullable-some high j {o} h =
      let (n, read, last) = bind-some (bounded_int fl py 0 high j) (λ a. some (some a)) h in
      let e : some n ≡ o = cc last in
      subst (OptionallyAtMost high) e (bounded_int-some 0 high j read).1

  latency-OptionallyAtMost :
      (o : Option (Json fl.F)) {l : Option ℕ}
      → defaulted_from none (nullable (bounded_int fl py 0 300000)) o ≡ some l
      → OptionallyAtMost 300000 l
  latency-OptionallyAtMost none {l} h =
      let e : none ≡ l = cc h in subst (OptionallyAtMost 300000) e tt
  latency-OptionallyAtMost (some j) h = nullable-some 300000 j h

  candidate-IsCandidate :
      (j : Json fl.F) {r : CandidateRequest fl.F} → candidate fl py j ≡ some r → IsCandidate r
  unfolding candidate
  candidate-IsCandidate j {r} h =
      let (fs, dict, h1) = bind-some (dict_of j) _ h in
      let (known, h2) = guard-some (only_keys candidate_keys fs) _ h1 in
      let (service_id, got_id, h3) =
        bind-some (required "service_id" (bounded_str fl py 1 200) fs) _ h2 in
      let (price, got_price, h4) =
        bind-some (required "price_credits" (bounded_int fl py 0 100) fs) _ h3 in
      let (fit, got_fit, h5) =
        bind-some (defaulted "task_fit" (fl.lit 5 1) (fraction fl py) fs) _ h4 in
      let (latency, got_latency, h6) =
        bind-some (defaulted "latency_ms" none (nullable (bounded_int fl py 0 300000)) fs) _ h5 in
      let (id_json, id_ok) = required-some _ (get "service_id" fs) got_id in
      let (price_json, price_ok) = required-some _ (get "price_credits" fs) got_price in
      let e : record {
        service_id = service_id;
        price_credits = price;
        task_fit = fit;
        latency_ms = latency;
      }
          ≡ r =
        cc h6 in
      subst IsCandidate e record {
        id_length = bounded_str-some 1 200 id_json id_ok;
        price = (bounded_int-some 0 100 price_json price_ok).1;
        fit = task_fit-IsFraction (get "task_fit" fs) got_fit;
        latency = latency-OptionallyAtMost (get "latency_ms" fs) got_latency;
      }

  candidates-IsCandidate :
      (rs : List (CandidateRequest fl.F))
      → All (λ r. (j : Json fl.F) × (candidate fl py j ≡ some r)) rs
      → All IsCandidate rs
  candidates-IsCandidate rs = All-map _ IsCandidate (λ r (j, h). candidate-IsCandidate j h) rs

  task_type-length :
      (o : Option (Json fl.F)) {s : String}
      → defaulted_from "general" (bounded_str fl py 1 100) o ≡ some s
      → (1 ≤ text_length s) × (text_length s ≤ 100)
  unfolding text_length
  task_type-length none {s} h =
      let e : "general" ≡ s = cc h in
      subst (λ t. (1 ≤ text_length t) × (text_length t ≤ 100)) e (omega arith, omega arith)
  task_type-length (some j) h = bounded_str-some 1 100 j h

  -- A body that `BestExecutionRequest` accepts gives a task of 1 to 12000 characters, a task type of 1 to
  -- 100, a budget of 1 to 100 credits and 1 to 32 candidates, no two with one service id; each candidate
  -- has an id of 1 to 200 characters, a price of at most 100 credits, a `task_fit` between 0 and 1, and a
  -- latency of at most 300000 ms if it has one.
  pub execution_request-IsRequest :
      (j : Json fl.F) (req : BestExecutionRequest fl.F)
      → execution_request fl py j ≡ some req
      → IsRequest req
  unfolding execution_request
  execution_request-IsRequest j req h =
      let (fs, dict, h1) = bind-some (dict_of j) _ h in
      let (known, h2) = guard-some (only_keys execution_keys fs) _ h1 in
      let (task, got_task, h3) = bind-some (required "task" (bounded_str fl py 1 12000) fs) _ h2 in
      let (task_type, got_type, h4) =
        bind-some (defaulted "task_type" "general" (bounded_str fl py 1 100) fs) _ h3 in
      let (budget, got_budget, h5) =
        bind-some (required "budget_credits" (bounded_int fl py 1 100) fs) _ h4 in
      let (rs, got_rs, h6) =
        bind-some (required "candidates" (list_of 1 32 (candidate fl py)) fs) _ h5 in
      let (mode, got_mode, h7) = bind-some (defaulted "mode" safe mode_of fs) _ h6 in
      let (unique, last) =
        guard-some (are_unique (map (λ (r : CandidateRequest fl.F). r.service_id) rs)) _ h7 in
      let (task_json, task_ok) = required-some _ (get "task" fs) got_task in
      let (budget_json, budget_ok) = required-some _ (get "budget_credits" fs) got_budget in
      let (rs_json, rs_ok) = required-some _ (get "candidates" fs) got_rs in
      let (few, many, each) = list_of-some 1 32 (candidate fl py) rs_json rs_ok in
      let e : record {
        task = task;
        task_type = task_type;
        budget_credits = budget;
        candidates = rs;
        mode = mode;
      }
          ≡ req =
        cc last in
      subst IsRequest e record {
        task_length = bounded_str-some 1 12000 task_json task_ok;
        task_type_length = task_type-length (get "task_type" fs) got_type;
        budget = bounded_int-some 1 100 budget_json budget_ok;
        count = (few, many);
        candidates = candidates-IsCandidate rs each;
        unique = are_unique-IsUnique _ unique;
      }
