-- ===== src/Store/Order.antt =====
-- What the store reports does not depend on the order of its rows, which SQLite does not promise: its
-- queries have no `ORDER BY`.
use mathlib.Core.List.{Perm, foldr, map}
use mathlib.Core.List.Perm
use counterparty_sharedos.Prelude.{
  ℕ, ◌+◌, ◌-◌, ◌/◌, ◌%◌, ◌≡◌, refl, sym, ap, ◌∙◌, Bool, true, false, Option, none, some, List, [],
  ◌∷◌, ◌++◌, String, str_eq, length, get_or, filter, ltb, ◌==◌, if◌then◌else◌, arith, Bool-cases,
  inl, inr,
}
use counterparty_sharedos.Sorting.{insert, sort}
use counterparty_sharedos.Tables.{Observation, ProtocolObservation}
use counterparty_sharedos.Reputation.{BayesianReputation}
use counterparty_sharedos.Store.{Db}
use counterparty_sharedos.Store.Query.{
  counts_for, present, median, reputation, protocol_reputation, with_outcome, with_protocol_outcome,
}

-- The middle of latencies that are in order.
abbrev pub middle : List ℕ → Option ℕ
middle [] = none
middle (x ∷ xs) =
    let mid = length (x ∷ xs) / 2 in
    some (
      if length (x ∷ xs) % 2 == 0
      then (get_or (x ∷ xs) (mid - 1) 0 + get_or (x ∷ xs) mid 0) / 2
      else get_or (x ∷ xs) mid 0)

insert_swap : (a b : ℕ) (l : List ℕ) → insert ltb a (insert ltb b l) ≡ insert ltb b (insert ltb a l)
unfolding insert
insert_swap a b [] = ground arith
insert_swap a b (x ∷ l) = ground (arith, insert_swap a b l)

-- What a query has seen: the successes, the failures and the latencies, in order.
abbrev pub Tally : Type 0
Tally = BayesianReputation × List ℕ

abbrev pub no_rows : Tally
no_rows = (record { successes = 0; failures = 0 }, [])

abbrev pub add_latency : Option ℕ → List ℕ → List ℕ
add_latency none l = l
add_latency (some n) l = insert ltb n l

-- one more row, of which the query reads the outcome and the latency
abbrev pub tally_row : Bool → String → Option ℕ → Tally → Tally
tally_row true outcome latency (r, l) = (
  record {
    successes = (if str_eq outcome "PASS" then 1 else 0) + r.successes;
    failures = (if str_eq outcome "FAIL" then 1 else 0) + r.failures;
  },
  add_latency latency l,
)
tally_row false outcome latency t = t

abbrev pub conclude : Tally → BayesianReputation × Option ℕ
conclude (r, l) = (r, middle l)

add_latency_swap :
    (m n : Option ℕ) (l : List ℕ)
    → add_latency m (add_latency n l) ≡ add_latency n (add_latency m l)
add_latency_swap none n l = refl
add_latency_swap (some a) none l = refl
add_latency_swap (some a) (some b) l = insert_swap a b l

pub tally_row_swap :
    (p q : Bool) (o o' : String) (m n : Option ℕ) (t : Tally)
    → tally_row p o m (tally_row q o' n t) ≡ tally_row q o' n (tally_row p o m t)
tally_row_swap false q o o' m n t = refl
tally_row_swap true false o o' m n t = refl
tally_row_swap true true o o' m n (r, l) = ground (arith, add_latency_swap m n l)

middle-insert :
    (x : ℕ) (l : List ℕ)
    → some (
        let latencies = insert ltb x l in
        let mid = length latencies / 2 in
        if length latencies % 2 == 0
        then (get_or latencies (mid - 1) 0 + get_or latencies mid 0) / 2
        else get_or latencies mid 0)
      ≡ middle (insert ltb x l)
unfolding insert
middle-insert x [] = refl
middle-insert x (y ∷ ys) = elim (Bool-cases (ltb y x)) [ inl e ↦ rw e | inr e ↦ rw e ]

median_lem : (l : List ℕ) → median l ≡ middle (sort ltb l)
unfolding median sort
median_lem [] = refl
median_lem (x ∷ xs) = middle-insert x (sort ltb xs)

sort-present :
    (m : Option ℕ) (ms : List (Option ℕ))
    → sort ltb (present (m ∷ ms)) ≡ add_latency m (sort ltb (present ms))
unfolding sort
sort-present none ms = refl
sort-present (some n) ms = refl

module _ (s k : String) where
  abbrev pub tally_observation : Observation → Tally → Tally
  tally_observation r = tally_row (counts_for s k r) r.outcome r.latency_ms

  tally_observation_swap :
      (r r' : Observation) (t : Tally)
      → tally_observation r (tally_observation r' t) ≡ tally_observation r' (tally_observation r t)
  tally_observation_swap r r' =
      tally_row_swap (counts_for s k r) (counts_for s k r') r.outcome r'.outcome r.latency_ms
        r'.latency_ms

  abbrev tally_of : List Observation → Tally
  tally_of table =
      let rows = filter (counts_for s k) table in
      (
        record {
          successes = length (with_outcome "PASS" rows);
          failures = length (with_outcome "FAIL" rows);
        },
        sort ltb (present (map (λ (r : Observation). r.latency_ms) rows)),
      )

  tally_of_lem : (table : List Observation) → foldr tally_observation no_rows table ≡ tally_of table
  unfolding sort
  tally_of_lem [] = refl
  tally_of_lem (r ∷ rows) = rw (tally_of_lem rows) (elim (Bool-cases (counts_for s k r)) [
    | inr e ↦ rw e
    | inl e ↦ rw (e, sort-present r.latency_ms _) (ground arith)
  ])

  pub reputation_tally :
      (table : List Observation)
      → reputation s k table ≡ conclude (foldr tally_observation no_rows table)
  unfolding reputation
  reputation_tally table = rw (tally_of_lem table) (
      ap (λ m. ((tally_of table).0, m))
        (median_lem
          (present (map (λ (r : Observation). r.latency_ms) (filter (counts_for s k) table)))))

module _ (s : String) where
  abbrev tally_canary : ProtocolObservation → Tally → Tally
  tally_canary r = tally_row (str_eq r.service_id s) r.outcome (some r.latency_ms)

  tally_canary_swap :
      (r r' : ProtocolObservation) (t : Tally)
      → tally_canary r (tally_canary r' t) ≡ tally_canary r' (tally_canary r t)
  tally_canary_swap r r' =
      tally_row_swap (str_eq r.service_id s) (str_eq r'.service_id s) r.outcome r'.outcome
        (some r.latency_ms) (some r'.latency_ms)

  abbrev protocol_tally_of : List ProtocolObservation → Tally
  protocol_tally_of table =
      let rows = filter (λ r. str_eq r.service_id s) table in
      (
        record {
          successes = length (with_protocol_outcome "PASS" rows);
          failures = length (with_protocol_outcome "FAIL" rows);
        },
        sort ltb (map (λ (r : ProtocolObservation). r.latency_ms) rows),
      )

  protocol_tally_of_lem :
      (table : List ProtocolObservation)
      → foldr tally_canary no_rows table ≡ protocol_tally_of table
  unfolding sort
  protocol_tally_of_lem [] = refl
  protocol_tally_of_lem (r ∷ rows) =
      rw (protocol_tally_of_lem rows)
        (elim (Bool-cases (str_eq r.service_id s)) [ inr e ↦ rw e | inl e ↦ rw e (ground arith) ])

  protocol_reputation_tally :
      (table : List ProtocolObservation)
      → protocol_reputation s table ≡ conclude (foldr tally_canary no_rows table)
  unfolding protocol_reputation
  protocol_reputation_tally table = rw (protocol_tally_of_lem table) (
      ap (λ m. ((protocol_tally_of table).0, m))
        (median_lem (
          map (λ (r : ProtocolObservation). r.latency_ms)
            (filter (λ r. str_eq r.service_id s) table))))

pub Tally-IsSet : IsSet Tally
Tally-IsSet = hlevel

-- The success and failure counts and the median latency that `reputation` and `protocol_reputation`
-- report are the same for two databases whose evidence tables hold the same rows in any order.
pub reputation-order :
    {Text : Type 0} (service_id task_type : String) (a b : Db Text)
    → Perm a.observations b.observations
    → Perm a.protocol_observations b.protocol_observations
    → (reputation service_id task_type a.observations
        ≡ reputation service_id task_type b.observations)
      × (protocol_reputation service_id a.protocol_observations
          ≡ protocol_reputation service_id b.protocol_observations)
reputation-order s k a b p q = (
  reputation_tally s k a.observations
      ∙ ap conclude
          (Perm.foldr-eq Tally-IsSet (tally_observation s k) (tally_observation_swap s k) p no_rows)
      ∙ sym (reputation_tally s k b.observations),
  protocol_reputation_tally s a.protocol_observations
      ∙ ap conclude (Perm.foldr-eq Tally-IsSet (tally_canary s) (tally_canary_swap s) q no_rows)
      ∙ sym (protocol_reputation_tally s b.protocol_observations),
)

pub snoc-perm : {A : Type 0} (x : A) (xs : List A) → Perm (xs ++ x ∷ []) (x ∷ xs)
snoc-perm x [] = Perm.refl (x ∷ [])
snoc-perm x (y ∷ ys) = Perm.trans (Perm.cons y (snoc-perm x ys)) (Perm.swap x y ys)

-- one more canary of the provider
pub protocol_reputation-snoc :
    (s : String) (row : ProtocolObservation) (table : List ProtocolObservation)
    → str_eq row.service_id s ≡ true
    → let before = (protocol_reputation s table).0 in
      (protocol_reputation s (table ++ row ∷ [])).0 ≡ record {
        successes = (if str_eq row.outcome "PASS" then 1 else 0) + before.successes;
        failures = (if str_eq row.outcome "FAIL" then 1 else 0) + before.failures;
      }
protocol_reputation-snoc s row table e = rw (
  protocol_reputation_tally s (table ++ row ∷ []),
  protocol_reputation_tally s table,
  Perm.foldr-eq Tally-IsSet (tally_canary s) (tally_canary_swap s) (snoc-perm row table) no_rows,
  e,
)
