-- ===== src/Store/Invariant.antt =====
-- The invariant of the database, kept by every writing method, and what it gives every reader after
-- any calls in any order (`BEGIN IMMEDIATE` runs the transactions one after the other).
use counterparty_sharedos.Prelude.{
  ◌≡◌, Bool, true, false, [], ◌∷◌, ◌++◌, any, All, All-append, String, if◌then◌else◌, arith,
  Bool-cases, inl, inr,
}
use counterparty_sharedos.Json.{Fields, obj, Codec, IsDict, IsDictFields}
use counterparty_sharedos.Json.Dict.{set_key-IsDict}
use counterparty_sharedos.Tables.{
  Observation, ProtocolObservation, decisive, conflicts, protocol_conflicts,
}
use counterparty_sharedos.Tables.Unique.{IsUnique, IsUnique-snoc}
use counterparty_sharedos.Audit.{Event, Stamp, zero_hash}
use counterparty_sharedos.Audit.Chain.{IsChain}
use counterparty_sharedos.Audit.Append.{append_audit_tx-IsChain}
use counterparty_sharedos.Store.{
  Db, empty_db, value_error, integrity_error, Result, ok, err, Verification, Canary,
  observation_row, canary_row, append_audit, verification_payload, canary_payload,
  record_verification, record_protocol_observation, record_observation,
}
use counterparty_sharedos.Store.Atomic.{
  counts, canary_counts, VerificationDone, record_verification_lem,
}
use counterparty_sharedos.Store.Writes.{
  CanaryDone, record_protocol_observation_lem, AuditDone, append_audit_lem, record_observation_lem,
}

-- The evidence tables meet their constraints.
pub record HasUniqueRows {Text : Type 0} (db : Db Text) : Type 0 where
  pub delivery_rows : IsUnique conflicts db.observations
  pub delivery_outcomes : All (λ (r : Observation). decisive r.outcome ≡ true) db.observations
  pub canary_rows : IsUnique protocol_conflicts db.protocol_observations
  pub canary_outcomes :
      All (λ (r : ProtocolObservation). decisive r.outcome ≡ true) db.protocol_observations

pub record IsValid {F : Type 0} (c : Codec F) (db : Db c.Text) : Type 0 where
  pub chain : IsChain c zero_hash 1 db.audit_events
  pub rows : HasUniqueRows db

HasUniqueRows_add :
    {Text : Type 0} (db : Db Text) (row : Observation)
    → decisive row.outcome ≡ true
    → any (conflicts row) db.observations ≡ false
    → HasUniqueRows db
    → HasUniqueRows (record db { observations = db.observations ++ row ∷ [] })
HasUniqueRows_add db row d n h = record {
  delivery_rows = IsUnique-snoc conflicts db.observations row n h.delivery_rows;
  delivery_outcomes = All-append _ db.observations (row ∷ []) h.delivery_outcomes (d, tt);
  canary_rows = h.canary_rows;
  canary_outcomes = h.canary_outcomes;
}

HasUniqueRows_add_canary :
    {Text : Type 0} (db : Db Text) (row : ProtocolObservation)
    → decisive row.outcome ≡ true
    → any (protocol_conflicts row) db.protocol_observations ≡ false
    → HasUniqueRows db
    → HasUniqueRows (record db { protocol_observations = db.protocol_observations ++ row ∷ [] })
HasUniqueRows_add_canary db row d n h = record {
  delivery_rows = h.delivery_rows;
  delivery_outcomes = h.delivery_outcomes;
  canary_rows = IsUnique-snoc protocol_conflicts db.protocol_observations row n h.canary_rows;
  canary_outcomes = All-append _ db.protocol_observations (row ∷ []) h.canary_outcomes (d, tt);
}

-- The constraints speak of the two evidence tables alone.
HasUniqueRows_same :
    {Text : Type 0} (a b : Db Text)
    → b.observations ≡ a.observations
    → b.protocol_observations ≡ a.protocol_observations
    → HasUniqueRows a
    → HasUniqueRows b
HasUniqueRows_same a b p q h = record {
  delivery_rows = rw p h.delivery_rows;
  delivery_outcomes = rw p h.delivery_outcomes;
  canary_rows = rw q h.canary_rows;
  canary_outcomes = rw q h.canary_outcomes;
}

-- A submission that is not counted leaves the table, and one that is counted adds a fresh decisive row.
HasUniqueRows_counted :
    {Text : Type 0} (stamp : Stamp) (v : Verification) (eligible : Bool) (a b : Db Text)
    → b.observations ≡ (
        if counts stamp v eligible a.observations
        then a.observations ++ observation_row stamp v ∷ []
        else a.observations)
    → b.protocol_observations ≡ a.protocol_observations
    → HasUniqueRows a
    → HasUniqueRows b
HasUniqueRows_counted stamp v eligible a b p q h =
    elim (Bool-cases (counts stamp v eligible a.observations)) [
      | inr e ↦ HasUniqueRows_same a b (rw e at p) q h
      | inl e ↦
          HasUniqueRows_same
            (record a { observations = a.observations ++ observation_row stamp v ∷ [] }) b
            (rw e at p) q
            (HasUniqueRows_add a (observation_row stamp v) (ground arith) (ground arith) h)
    ]

HasUniqueRows_counted_canary :
    {Text : Type 0} (stamp : Stamp) (v : Canary) (a b : Db Text)
    → b.protocol_observations ≡ (
        if canary_counts stamp v a.protocol_observations
        then a.protocol_observations ++ canary_row stamp v ∷ []
        else a.protocol_observations)
    → b.observations ≡ a.observations
    → HasUniqueRows a
    → HasUniqueRows b
HasUniqueRows_counted_canary stamp v a b p q h =
    elim (Bool-cases (canary_counts stamp v a.protocol_observations)) [
      | inr e ↦ HasUniqueRows_same a b q (rw e at p) h
      | inl e ↦
          HasUniqueRows_same
            (record a {
              protocol_observations = a.protocol_observations ++ canary_row stamp v ∷ [];
            })
            b q (rw e at p)
            (HasUniqueRows_add_canary a (canary_row stamp v) (ground arith) (ground arith) h)
    ]

module _ {F : Type 0} (c : Codec F) where
  pub empty_db-IsValid : IsValid c empty_db
  empty_db-IsValid = record {
    chain = tt;
    rows = record {
      delivery_rows = tt;
      delivery_outcomes = tt;
      canary_rows = tt;
      canary_outcomes = tt;
    };
  }

  verification_payload-IsDict :
      (payload : Fields F) (outcome : String) (updated : Bool)
      → IsDictFields payload
      → IsDict (obj (verification_payload payload outcome updated))
  unfolding IsDict
  verification_payload-IsDict payload outcome updated d =
      set_key-IsDict _ _ _ tt (set_key-IsDict _ _ _ tt d)

  canary_payload-IsDict :
      (payload : Fields F) (updated : Bool)
      → IsDictFields payload
      → IsDict (obj (canary_payload payload updated))
  unfolding IsDict
  canary_payload-IsDict payload updated d = set_key-IsDict _ _ _ tt (set_key-IsDict _ _ _ tt d)

  obj-IsDict : (payload : Fields F) → IsDictFields payload → IsDict (obj payload)
  unfolding IsDict
  obj-IsDict payload d = d

  VerificationDone-IsValid :
      (row_stamp event_stamp : Stamp) (v : Verification) (payload : Fields F) (eligible : Bool)
      (db : Db c.Text) (r : Result (Event F × Bool) × Db c.Text)
      → IsDictFields payload
      → IsValid c db
      → VerificationDone c row_stamp event_stamp v payload eligible db r
      → IsValid c r.1
  VerificationDone-IsValid row_stamp event_stamp v payload eligible db (err value_error, db') d h
        done =
      rw done.1 h
  VerificationDone-IsValid row_stamp event_stamp v payload eligible db (err integrity_error, db') d
        h done =
      rw done.2 h
  VerificationDone-IsValid row_stamp event_stamp v payload eligible db (ok (event, updated), db') d
        h (known, flag, table, other, appended) =
      record {
        chain =
            append_audit_tx-IsChain c event_stamp "verify_delivery" _ db.audit_events
              (verification_payload-IsDict payload v.outcome _ d) h.chain appended;
        rows = HasUniqueRows_counted row_stamp v eligible db db' table other h.rows;
      }

  CanaryDone-IsValid :
      (row_stamp event_stamp : Stamp) (v : Canary) (payload : Fields F) (db : Db c.Text)
      (r : Result (Event F × Bool) × Db c.Text)
      → IsDictFields payload
      → IsValid c db
      → CanaryDone c row_stamp event_stamp v payload db r
      → IsValid c r.1
  CanaryDone-IsValid row_stamp event_stamp v payload db (err value_error, db') d h done =
      rw done.1 h
  CanaryDone-IsValid row_stamp event_stamp v payload db (err integrity_error, db') d h done =
      rw done.2 h
  CanaryDone-IsValid row_stamp event_stamp v payload db (ok (event, updated), db') d h
        (known, flag, table, other, appended) =
      record {
        chain =
            append_audit_tx-IsChain c event_stamp "protocol_probe" _ db.audit_events
              (canary_payload-IsDict payload _ d) h.chain appended;
        rows = HasUniqueRows_counted_canary row_stamp v db db' table other h.rows;
      }

  AuditDone-IsValid :
      (stamp : Stamp) (type : String) (payload : Fields F) (db : Db c.Text)
      (r : Result (Event F) × Db c.Text)
      → IsDictFields payload
      → IsValid c db
      → AuditDone c stamp type payload db r
      → IsValid c r.1
  AuditDone-IsValid stamp type payload db (err e, db') d h done = rw done.1 h
  AuditDone-IsValid stamp type payload db (ok event, db') d h (appended, p, q) = record {
    chain =
        append_audit_tx-IsChain c stamp type _ db.audit_events (obj-IsDict payload d) h.chain
          appended;
    rows = HasUniqueRows_same db db' p q h.rows;
  }

  pub record_observation-IsValid :
      (stamp : Stamp) (v : Verification) (db : Db c.Text)
      → IsValid c db
      → IsValid c (record_observation stamp v db).1
  record_observation-IsValid stamp v db h =
      rw (record_observation_lem stamp v db) (elim (Bool-cases (decisive v.outcome)) [
        | inr e ↦ rw e h
        | inl e ↦ elim (Bool-cases (any (conflicts (observation_row stamp v)) db.observations)) [
          | inl e' ↦ rw (e, e') h
          | inr e' ↦
              rw (e, e')
                (record {
                  chain = h.chain;
                  rows = HasUniqueRows_add db (observation_row stamp v) e e' h.rows;
                })
        ]
      ])

  pub record_verification-IsValid :
      (row_stamp event_stamp : Stamp) (v : Verification) (payload : Fields F) (eligible : Bool)
      (db : Db c.Text)
      → IsDictFields payload
      → IsValid c db
      → IsValid c (record_verification c row_stamp event_stamp v payload eligible db).1
  record_verification-IsValid row_stamp event_stamp v payload eligible db d h =
      VerificationDone-IsValid row_stamp event_stamp v payload eligible db _ d h
        (record_verification_lem c row_stamp event_stamp v payload eligible db)

  pub record_protocol_observation-IsValid :
      (row_stamp event_stamp : Stamp) (v : Canary) (payload : Fields F) (db : Db c.Text)
      → IsDictFields payload
      → IsValid c db
      → IsValid c (record_protocol_observation c row_stamp event_stamp v payload db).1
  record_protocol_observation-IsValid row_stamp event_stamp v payload db d h =
      CanaryDone-IsValid row_stamp event_stamp v payload db _ d h
        (record_protocol_observation_lem c row_stamp event_stamp v payload db)

  pub append_audit-IsValid :
      (stamp : Stamp) (type : String) (payload : Fields F) (db : Db c.Text)
      → IsDictFields payload
      → IsValid c db
      → IsValid c (append_audit c stamp type payload db).1
  append_audit-IsValid stamp type payload db d h =
      AuditDone-IsValid stamp type payload db _ d h (append_audit_lem c stamp type payload db)
