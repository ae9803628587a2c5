-- ===== src/Tables.antt =====
-- The two evidence tables of `counterparty/storage.py`: their rows, and `INSERT` under the tables'
-- constraints. `none` is `sqlite3.IntegrityError`.
pub mod Unique
use counterparty_sharedos.Prelude.{
  ℕ, Bool, not, ◌&&◌, ◌||◌, Option, none, some, List, [], ◌∷◌, ◌++◌, String, str_eq, any,
  if◌then◌else◌,
}

pub record Observation : Type 0 where
  pub id : String
  pub delivery_id : String
  pub service_id : String
  pub task_type : String
  pub outcome : String
  pub latency_ms : Option ℕ
  pub evidence_hash : String
  pub created_ns : ℕ

pub record ProtocolObservation : Type 0 where
  pub id : String
  pub probe_id : String
  pub service_id : String
  pub outcome : String
  pub latency_ms : ℕ
  pub evidence_hash : String
  pub created_ns : ℕ

-- `outcome in {"PASS", "FAIL"}`, which is also the tables' `CHECK`
abbrev pub decisive : String → Bool
decisive outcome = str_eq outcome "PASS" || str_eq outcome "FAIL"

-- `PRIMARY KEY`, `UNIQUE` and `UNIQUE(service_id, evidence_hash)`
abbrev pub conflicts : Observation → Observation → Bool
conflicts a b =
    str_eq a.id b.id
    || (str_eq a.delivery_id b.delivery_id
        || (str_eq a.service_id b.service_id && str_eq a.evidence_hash b.evidence_hash))

abbrev pub protocol_conflicts : ProtocolObservation → ProtocolObservation → Bool
protocol_conflicts a b =
    str_eq a.id b.id
    || (str_eq a.probe_id b.probe_id
        || (str_eq a.service_id b.service_id && str_eq a.evidence_hash b.evidence_hash))

unfoldable pub insert_observation : Observation → List Observation → Option (List Observation)
insert_observation row table =
    if decisive row.outcome && not (any (conflicts row) table)
    then some (table ++ row ∷ [])
    else none

unfoldable pub insert_protocol_observation :
    ProtocolObservation → List ProtocolObservation → Option (List ProtocolObservation)
insert_protocol_observation row table =
    if decisive row.outcome && not (any (protocol_conflicts row) table)
    then some (table ++ row ∷ [])
    else none
