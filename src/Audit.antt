-- ===== src/Audit.antt =====
-- The audit chain of `counterparty/storage.py`: `_append_audit_tx`, `verify_audit`, `audit_head`,
-- `get_audit_event` and `audit_events`, over the table `audit_events`.
pub mod Chain
pub mod Tamper
pub mod Append
use counterparty_sharedos.Prelude.{
  ℕ, zero, suc, ◌+◌, Bool, true, false, ◌&&◌, ◌||◌, Option, none, some, List, [], ◌∷◌, ◌++◌, String,
  str_eq, any, find, get_last?, take, ltb, ◌==◌, if◌then◌else◌, max, min,
}
use mathlib.Core.List.{reverse}
use counterparty_sharedos.Prelude.Int.{pos}
use counterparty_sharedos.Sorting.{sort}
use counterparty_sharedos.Json.{
  Json, Fields, int, text, obj, end, field, Codec, dumps, dumps_compact,
}

abbrev pub zero_hash : String
zero_hash = "0000000000000000000000000000000000000000000000000000000000000000"

-- a row of the table; the payload is kept as text
pub record AuditRow (Text : Type 0) : Type 0 where
  pub seq : ℕ
  pub id : String
  pub ts_ns : ℕ
  pub event_type : String
  pub payload_json : Text
  pub previous_hash : String
  pub hash : String

-- the dictionary that is handed out for an event; its `hash` is the audit receipt
pub record Event (F : Type 0) : Type 0 where
  pub id : String
  pub seq : ℕ
  pub ts_ns : ℕ
  pub event_type : String
  pub payload : Json F
  pub previous_hash : String
  pub hash : String

-- `uuid.uuid4()` and `time.time_ns()`, as one call sees them
pub record Stamp : Type 0 where
  pub uuid : String
  pub now : ℕ

module _ {F : Type 0} where
  -- the dictionary `record` before its hash is added
  unfoldable pub record_json : String → ℕ → ℕ → String → Json F → String → Json F
  record_json id seq ts_ns event_type payload previous_hash = obj (
      field "id" (text id) (
        field "seq" (int (pos seq)) (
          field "ts_ns" (int (pos ts_ns)) (
            field "event_type" (text event_type)
              (field "payload" payload (field "previous_hash" (text previous_hash) end))))))

module _ {F : Type 0} (c : Codec F) where
  -- `hashlib.sha256(material).hexdigest()`
  unfoldable pub record_hash : String → ℕ → ℕ → String → Json F → String → String
  record_hash id seq ts_ns event_type payload previous_hash =
      c.sha256 (dumps_compact c (record_json id seq ts_ns event_type payload previous_hash))

  -- `ORDER BY seq`
  abbrev pub by_seq : List (AuditRow c.Text) → List (AuditRow c.Text)
  by_seq = sort (λ a b. ltb a.seq b.seq)

  -- `ORDER BY seq DESC LIMIT 1`
  abbrev pub last_row : List (AuditRow c.Text) → Option (AuditRow c.Text)
  last_row rows = get_last? (by_seq rows)

  abbrev pub next_seq : Option (AuditRow c.Text) → ℕ
  next_seq none = 1
  next_seq (some row) = row.seq + 1

  abbrev pub head_hash : Option (AuditRow c.Text) → String
  head_hash none = zero_hash
  head_hash (some row) = row.hash

  -- `PRIMARY KEY` and the two `UNIQUE`s
  abbrev pub row_conflicts : AuditRow c.Text → AuditRow c.Text → Bool
  row_conflicts a b = (a.seq == b.seq) || (str_eq a.id b.id || str_eq a.hash b.hash)

  unfoldable pub new_event : Stamp → String → Json F → List (AuditRow c.Text) → Event F
  unfolding record_hash
  new_event stamp event_type payload rows =
      let seq = next_seq (last_row rows) in
      let previous_hash = head_hash (last_row rows) in
      record {
        id = stamp.uuid;
        seq = seq;
        ts_ns = stamp.now;
        event_type = event_type;
        payload = payload;
        previous_hash = previous_hash;
        hash = record_hash stamp.uuid seq stamp.now event_type payload previous_hash;
      }

  -- the row that is inserted for an event
  abbrev pub row_of : Event F → AuditRow c.Text
  row_of e = record {
    seq = e.seq;
    id = e.id;
    ts_ns = e.ts_ns;
    event_type = e.event_type;
    payload_json = dumps c e.payload;
    previous_hash = e.previous_hash;
    hash = e.hash;
  }

  -- `_append_audit_tx`; `none` is `sqlite3.IntegrityError`
  unfoldable pub append_audit_tx :
      Stamp → String → Json F → List (AuditRow c.Text) → Option (Event F × List (AuditRow c.Text))
  append_audit_tx stamp event_type payload rows =
      let event = new_event stamp event_type payload rows in
      if any (row_conflicts (row_of event)) rows
      then none
      else some (event, rows ++ row_of event ∷ [])

  -- the loop of `verify_audit`; `none` is the exception of a payload that is no JSON
  unfoldable pub verify_rows : String → ℕ → List (AuditRow c.Text) → Option Bool
  verify_rows previous expected_seq [] = some true
  verify_rows previous expected_seq (row ∷ rows) =
      let rest = verify_rows row.hash (expected_seq + 1) rows in
      if (row.seq == expected_seq) && str_eq row.previous_hash previous
      then elim (c.loads row.payload_json) [
        | none ↦ none
        | some payload ↦
            if str_eq
              (record_hash row.id row.seq row.ts_ns row.event_type payload row.previous_hash)
              row.hash
            then rest
            else some false
      ]
      else some false

  unfoldable pub verify_audit : List (AuditRow c.Text) → Option Bool
  unfolding verify_rows
  verify_audit rows = verify_rows zero_hash 1 (by_seq rows)

  abbrev pub head_of_row : Option (AuditRow c.Text) → ℕ × String
  head_of_row none = (0, zero_hash)
  head_of_row (some row) = (row.seq, row.hash)

  -- the count and the head
  unfoldable pub audit_head : List (AuditRow c.Text) → ℕ × String
  audit_head rows = head_of_row (last_row rows)

  -- a row as it is handed out; `none` is the exception of a payload that is no JSON
  abbrev pub event_of : AuditRow c.Text → Option (Event F)
  event_of row = elim (c.loads row.payload_json) [
    | none ↦ none
    | some payload ↦ some (record {
      id = row.id;
      seq = row.seq;
      ts_ns = row.ts_ns;
      event_type = row.event_type;
      payload = payload;
      previous_hash = row.previous_hash;
      hash = row.hash;
    })
  ]

  -- The outer `none` is the exception, the inner one that there is no such receipt.
  unfoldable pub get_audit_event : String → List (AuditRow c.Text) → Option (Option (Event F))
  get_audit_event receipt rows = elim (find (λ row. str_eq row.hash receipt) rows) [
    | none ↦ some none
    | some row ↦ elim (event_of row) [ none ↦ none | some event ↦ some (some event) ]
  ]

  abbrev pub events_of : List (AuditRow c.Text) → Option (List (Event F))
  events_of [] = some []
  events_of (row ∷ rows) =
      let rest = events_of rows in
      elim (event_of row) [
        | none ↦ none
        | some event ↦ elim rest [ none ↦ none | some events ↦ some (event ∷ events) ]
      ]

  -- the newest `limit` events, oldest first
  unfoldable pub audit_events : ℕ → List (AuditRow c.Text) → Option (List (Event F))
  audit_events limit rows =
      events_of (reverse (take (min (max limit 1) 1000) (reverse (by_seq rows))))
