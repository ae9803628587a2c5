-- ===== src/Store.antt =====
-- `class CounterpartyStore` of `counterparty/storage.py`: the database, transactions, and the methods
-- that write. A raise is the error of a `Result`; the database comes back beside it.
pub mod Query
pub mod Atomic
pub mod Writes
pub mod Invariant
pub mod Replay
pub mod Calls
pub mod Once
pub mod Order
pub mod Ledger
use counterparty_sharedos.Prelude.{
  ℕ, Bool, true, false, not, ◌&&◌, ◌||◌, Option, none, some, List, [], String, str_eq,
  if◌then◌else◌,
}
use counterparty_sharedos.Json.{Json, Fields, bool, obj, set_key, Codec}
use counterparty_sharedos.Tables.{
  Observation, ProtocolObservation, decisive, insert_observation, insert_protocol_observation,
}
use counterparty_sharedos.Audit.{AuditRow, Event, Stamp, append_audit_tx}

pub record Db (Text : Type 0) : Type 0 where
  pub observations : List Observation
  pub protocol_observations : List ProtocolObservation
  pub audit_events : List (AuditRow Text)

abbrev pub empty_db : {Text : Type 0} → Db Text
empty_db = record { observations = []; protocol_observations = []; audit_events = [] }

-- `ValueError` and `sqlite3.IntegrityError`
pub data StoreError : Type 0 where
  value_error integrity_error : StoreError

pub data Result (A : Type 0) : Type 0 where
  ok : A → Result A
  err : StoreError → Result A

-- `with self.transaction() as con`: the body's writes are kept by `COMMIT`, or `ROLLBACK` undoes them
unfoldable pub transaction :
    {Text A : Type 0} → (Db Text → Result (A × Db Text)) → Db Text → Result A × Db Text
transaction body db = elim (body db) [ ok (a, db') ↦ (ok a, db') | err e ↦ (err e, db) ]

-- the arguments of `record_verification` that become a row
pub record Verification : Type 0 where
  pub delivery_id : String
  pub service_id : String
  pub task_type : String
  pub outcome : String
  pub evidence_hash : String
  pub latency_ms : Option ℕ

-- the arguments of `record_protocol_observation` that become a row
pub record Canary : Type 0 where
  pub probe_id : String
  pub service_id : String
  pub outcome : String
  pub evidence_hash : String
  pub latency_ms : ℕ

-- the row that is inserted, with its `uuid.uuid4()` and `time.time_ns()`
abbrev pub observation_row : Stamp → Verification → Observation
observation_row stamp v = record {
  id = stamp.uuid;
  delivery_id = v.delivery_id;
  service_id = v.service_id;
  task_type = v.task_type;
  outcome = v.outcome;
  latency_ms = v.latency_ms;
  evidence_hash = v.evidence_hash;
  created_ns = stamp.now;
}

abbrev pub canary_row : Stamp → Canary → ProtocolObservation
canary_row stamp v = record {
  id = stamp.uuid;
  probe_id = v.probe_id;
  service_id = v.service_id;
  outcome = v.outcome;
  latency_ms = v.latency_ms;
  evidence_hash = v.evidence_hash;
  created_ns = stamp.now;
}

-- The `try` round an insert: the table afterwards, and whether the row went in.
abbrev pub tried : {A : Type 0} → Option A → A → A × Bool
tried none table = (table, false)
tried (some table') table = (table', true)

-- the guarded insert of `record_verification`, under its `try`
unfoldable pub verification_attempt :
    Stamp → Verification → Bool → List Observation → List Observation × Bool
unfolding insert_observation
verification_attempt stamp v reputation_eligible table =
    tried
      (if reputation_eligible && decisive v.outcome
        then insert_observation (observation_row stamp v) table
        else none)
      table

-- the insert of `record_protocol_observation`, under its `try`
unfoldable pub canary_attempt :
    Stamp → Canary → List ProtocolObservation → List ProtocolObservation × Bool
unfolding insert_protocol_observation
canary_attempt stamp v table = tried (insert_protocol_observation (canary_row stamp v) table) table

module _ {F : Type 0} where
  -- the dictionaries that are audited
  abbrev pub verification_payload : Fields F → String → Bool → Fields F
  verification_payload audit_payload outcome updated =
      set_key "replay_suppressed" (bool (decisive outcome && not updated))
        (set_key "reputation_updated" (bool updated) audit_payload)

  abbrev pub canary_payload : Fields F → Bool → Fields F
  canary_payload audit_payload updated =
      set_key "replay_suppressed" (bool (not updated))
        (set_key "protocol_reputation_updated" (bool updated) audit_payload)

  -- `return event, updated`
  abbrev pub with_flag :
      {Text : Type 0} → Bool → Result (Event F × Db Text) → Result ((Event F × Bool) × Db Text)
  with_flag updated (err e) = err e
  with_flag updated (ok (event, db)) = ok ((event, updated), db)

module _ {F : Type 0} (c : Codec F) where
  -- `_append_audit_tx` on the database, raising where the insert does
  abbrev pub append_to : Stamp → String → Fields F → Db c.Text → Result (Event F × Db c.Text)
  append_to stamp event_type payload db =
      elim (append_audit_tx c stamp event_type (obj payload) db.audit_events) [
        | none ↦ err integrity_error
        | some (event, rows) ↦ ok (event, record db { audit_events = rows })
      ]

  unfoldable pub append_audit : Stamp → String → Fields F → Db c.Text → Result (Event F) × Db c.Text
  unfolding transaction
  append_audit stamp event_type payload = transaction (append_to stamp event_type payload)

  -- the body of the transaction of `record_verification`
  unfoldable pub record_verification_tx :
      Stamp
      → Stamp
      → Verification
      → Fields F
      → Bool
      → Db c.Text
      → Result ((Event F × Bool) × Db c.Text)
  unfolding verification_attempt
  record_verification_tx row_stamp event_stamp v audit_payload reputation_eligible db =
      let attempt = verification_attempt row_stamp v reputation_eligible db.observations in
      with_flag attempt.1 (
        append_to event_stamp "verify_delivery"
          (verification_payload audit_payload v.outcome attempt.1)
          (record db { observations = attempt.0 }))

  unfoldable pub record_verification :
      Stamp
      → Stamp
      → Verification
      → Fields F
      → Bool
      → Db c.Text
      → Result (Event F × Bool) × Db c.Text
  unfolding transaction record_verification_tx
  record_verification row_stamp event_stamp v audit_payload reputation_eligible db =
      if decisive v.outcome || str_eq v.outcome "INCONCLUSIVE"
      then transaction
          (record_verification_tx row_stamp event_stamp v audit_payload reputation_eligible) db
      else (err value_error, db)

  -- the body of the transaction of `record_protocol_observation`
  unfoldable pub record_protocol_observation_tx :
      Stamp → Stamp → Canary → Fields F → Db c.Text → Result ((Event F × Bool) × Db c.Text)
  unfolding canary_attempt
  record_protocol_observation_tx row_stamp event_stamp v audit_payload db =
      let attempt = canary_attempt row_stamp v db.protocol_observations in
      with_flag attempt.1 (
        append_to event_stamp "protocol_probe" (canary_payload audit_payload attempt.1)
          (record db { protocol_observations = attempt.0 }))

  unfoldable pub record_protocol_observation :
      Stamp → Stamp → Canary → Fields F → Db c.Text → Result (Event F × Bool) × Db c.Text
  unfolding transaction record_protocol_observation_tx
  record_protocol_observation row_stamp event_stamp v audit_payload db =
      if decisive v.outcome
      then transaction (record_protocol_observation_tx row_stamp event_stamp v audit_payload) db
      else (err value_error, db)

-- `record_observation`: `False` for a row that the constraints refuse
unfoldable pub record_observation_tx :
    {Text : Type 0} → Stamp → Verification → Db Text → Result (Bool × Db Text)
unfolding insert_observation
record_observation_tx stamp v db =
    elim (insert_observation (observation_row stamp v) db.observations) [
      | none ↦ err integrity_error
      | some table ↦ ok (true, record db { observations = table })
    ]

abbrev pub except_integrity : {Text : Type 0} → Result Bool × Db Text → Result Bool × Db Text
except_integrity (ok b, db) = (ok b, db)
except_integrity (err integrity_error, db) = (ok false, db)
except_integrity (err value_error, db) = (err value_error, db)

unfoldable pub record_observation :
    {Text : Type 0} → Stamp → Verification → Db Text → Result Bool × Db Text
unfolding transaction record_observation_tx
record_observation stamp v db =
    if decisive v.outcome
    then except_integrity (transaction (record_observation_tx stamp v) db)
    else (err value_error, db)
