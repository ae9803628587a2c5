-- ===== src/Store/Query.antt =====
-- The methods of `CounterpartyStore` that read reputation.
use counterparty_sharedos.Prelude.{
  ℕ, ◌+◌, ◌-◌, ◌/◌, ◌%◌, Bool, ◌&&◌, ◌||◌, Option, none, some, List, [], ◌∷◌, map, String, str_eq,
  filter, length, get_or, ltb, ◌==◌, if◌then◌else◌,
}
use counterparty_sharedos.Sorting.{sort}
use counterparty_sharedos.Tables.{Observation, ProtocolObservation}
use counterparty_sharedos.Reputation.{BayesianReputation}

-- the `WHERE` clause of `reputation`
unfoldable pub counts_for : String → String → Observation → Bool
counts_for service_id task_type row =
    if str_eq task_type "general"
    then str_eq row.service_id service_id && str_eq row.task_type "general"
    else str_eq row.service_id service_id
      && (str_eq row.task_type task_type || str_eq row.task_type "general")

-- the latencies that are not NULL
abbrev pub present : List (Option ℕ) → List ℕ
present [] = []
present (none ∷ xs) = present xs
present (some x ∷ xs) = x ∷ present xs

unfoldable pub median : List ℕ → Option ℕ
median [] = none
median (x ∷ xs) =
    let latencies = sort ltb (x ∷ xs) in
    let mid = length latencies / 2 in
    some (
      if length latencies % 2 == 0
      then (get_or latencies (mid - 1) 0 + get_or latencies mid 0) / 2
      else get_or latencies mid 0)

abbrev pub with_outcome : String → List Observation → List Observation
with_outcome outcome = filter (λ r. str_eq r.outcome outcome)

abbrev pub with_protocol_outcome : String → List ProtocolObservation → List ProtocolObservation
with_protocol_outcome outcome = filter (λ r. str_eq r.outcome outcome)

unfoldable pub reputation : String → String → List Observation → BayesianReputation × Option ℕ
unfolding counts_for median
reputation service_id task_type table =
    let rows = filter (counts_for service_id task_type) table in
    (
      record {
        successes = length (with_outcome "PASS" rows);
        failures = length (with_outcome "FAIL" rows);
      },
      median (present (map (λ r. r.latency_ms) rows)),
    )

unfoldable pub protocol_reputation :
    String → List ProtocolObservation → BayesianReputation × Option ℕ
unfolding median
protocol_reputation service_id table =
    let rows = filter (λ r. str_eq r.service_id service_id) table in
    (
      record {
        successes = length (with_protocol_outcome "PASS" rows);
        failures = length (with_protocol_outcome "FAIL" rows);
      },
      median (map (λ r. r.latency_ms) rows),
    )
