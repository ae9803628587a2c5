-- ===== src/Store/Calls.antt =====
-- Any number of calls of the writing methods, one after the other, from an empty database: however
-- they are ordered, and whether each of them returns or raises.
use counterparty_sharedos.Prelude.{◌≡◌, Bool, true, some, List, [], ◌∷◌, All, String}
use counterparty_sharedos.Json.{Fields, Codec, IsDictFields}
use counterparty_sharedos.Audit.{Stamp, verify_audit}
use counterparty_sharedos.Audit.Chain.{verify_audit-IsChain}
use counterparty_sharedos.Store.{
  Db, empty_db, Verification, Canary, append_audit, record_verification,
  record_protocol_observation, record_observation,
}
use counterparty_sharedos.Store.Invariant.{
  IsValid, HasUniqueRows, empty_db-IsValid, record_verification-IsValid,
  record_protocol_observation-IsValid, append_audit-IsValid, record_observation-IsValid,
}

-- one call, with its arguments and what `uuid.uuid4()` and `time.time_ns()` gave
pub data Call (F : Type 0) : Type 0 where
  audit : Stamp → String → Fields F → Call F
  verification : Stamp → Stamp → Verification → Fields F → Bool → Call F
  canary : Stamp → Stamp → Canary → Fields F → Call F
  observation : Stamp → Verification → Call F

-- the payload that is handed in has each key once
abbrev pub HasDict : {F : Type 0} → Call F → Type 0
HasDict (audit _ _ payload) = IsDictFields payload
HasDict (verification _ _ _ payload _) = IsDictFields payload
HasDict (canary _ _ _ payload) = IsDictFields payload
HasDict (observation _ _) = Unit

module _ {F : Type 0} (c : Codec F) where
  -- the database after a call
  unfoldable pub run : Call F → Db c.Text → Db c.Text
  run (audit stamp type payload) db = (append_audit c stamp type payload db).1
  run (verification row_stamp event_stamp v payload eligible) db =
      (record_verification c row_stamp event_stamp v payload eligible db).1
  run (canary row_stamp event_stamp v payload) db =
      (record_protocol_observation c row_stamp event_stamp v payload db).1
  run (observation stamp v) db = (record_observation stamp v db).1

  unfoldable pub run_all : List (Call F) → Db c.Text → Db c.Text
  unfolding run
  run_all [] db = db
  run_all (call ∷ calls) db = run_all calls (run call db)

  run-IsValid :
      (call : Call F) (db : Db c.Text) → HasDict call → IsValid c db → IsValid c (run call db)
  unfolding run
  run-IsValid (audit stamp type payload) db d h = append_audit-IsValid c stamp type payload db d h
  run-IsValid (verification row_stamp event_stamp v payload eligible) db d h =
      record_verification-IsValid c row_stamp event_stamp v payload eligible db d h
  run-IsValid (canary row_stamp event_stamp v payload) db d h =
      record_protocol_observation-IsValid c row_stamp event_stamp v payload db d h
  run-IsValid (observation stamp v) db d h = record_observation-IsValid c stamp v db h

  pub run_all-IsValid :
      (calls : List (Call F)) (db : Db c.Text)
      → All HasDict calls
      → IsValid c db
      → IsValid c (run_all calls db)
  unfolding run_all
  run_all-IsValid [] db d h = h
  run_all-IsValid (call ∷ calls) db d h =
      run_all-IsValid calls (run call db) d.1 (run-IsValid call db d.0 h)

  -- After any sequence of calls of the writing methods on an empty database, each returning or
  -- raising, with payloads that have no key twice: `verify_audit` accepts the audit table, no two
  -- rows of an evidence table share an id, a delivery or probe id, or a provider and evidence hash,
  -- and every evidence row is PASS or FAIL.
  pub calls_keep_audit :
      (calls : List (Call F))
      → All HasDict calls
      → (verify_audit c (run_all calls empty_db).audit_events ≡ some true)
        × HasUniqueRows (run_all calls empty_db)
  calls_keep_audit calls d =
      let valid = run_all-IsValid calls empty_db d (empty_db-IsValid c) in
      (verify_audit-IsChain c (run_all calls empty_db).audit_events valid.chain, valid.rows)
