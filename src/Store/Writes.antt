-- ===== src/Store/Writes.antt =====
-- `record_protocol_observation` is atomic, and so are `append_audit` and `record_observation`; each says
-- exactly what it wrote.
use counterparty_sharedos.Prelude.{
  ◌≡◌, refl, Bool, true, false, none, List, [], ◌∷◌, ◌++◌, any, String, if◌then◌else◌, arith,
  Bool-cases, inl, inr,
}
use counterparty_sharedos.Json.{Fields, obj, Codec}
use counterparty_sharedos.Tables.{ProtocolObservation, decisive, conflicts, insert_observation}
use counterparty_sharedos.Audit.{Event, Stamp, append_audit_tx}
use counterparty_sharedos.Store.{
  Db, StoreError, value_error, integrity_error, Result, ok, err, Verification, Canary,
  observation_row, canary_row, append_audit, canary_payload, record_protocol_observation,
  record_protocol_observation_tx, record_observation, append_to, canary_attempt,
}
use counterparty_sharedos.Store.Atomic.{
  canary_counts, transaction_induction, Appended, append_to-Appended, append_to_err, with_flag_err,
}

canary_attempt_lem :
    (stamp : Stamp) (v : Canary) (table : List ProtocolObservation)
    → let (table', updated) = canary_attempt stamp v table in
      (updated ≡ canary_counts stamp v table)
      × (table' ≡ (if updated then table ++ canary_row stamp v ∷ [] else table))
unfolding canary_attempt
canary_attempt_lem stamp v table = ground arith

module _ {F : Type 0} (c : Codec F) where
  -- What a call of `record_protocol_observation` did, by how it ended.
  abbrev pub CanaryDone :
      Stamp → Stamp → Canary → Fields F → Db c.Text → Result (Event F × Bool) × Db c.Text → Type 0
  CanaryDone row_stamp event_stamp v audit_payload db (err value_error, db') =
      (decisive v.outcome ≡ false) × (db' ≡ db)
  CanaryDone row_stamp event_stamp v audit_payload db (err integrity_error, db') =
      let counted = canary_counts row_stamp v db.protocol_observations in
      (decisive v.outcome ≡ true)
      × (append_audit_tx c event_stamp "protocol_probe" (obj (canary_payload audit_payload counted))
            db.audit_events
          ≡ none)
      × (db' ≡ db)
  CanaryDone row_stamp event_stamp v audit_payload db (ok (event, updated), db') =
      let counted = canary_counts row_stamp v db.protocol_observations in
      (decisive v.outcome ≡ true)
      × (updated ≡ counted)
      × (db'.protocol_observations ≡ (
          if counted
          then db.protocol_observations ++ canary_row row_stamp v ∷ []
          else db.protocol_observations))
      × (db'.observations ≡ db.observations)
      × Appended c event_stamp "protocol_probe" (canary_payload audit_payload counted) event
          db.audit_events db'.audit_events

  module _ (row_stamp event_stamp : Stamp) (v : Canary) (audit_payload : Fields F)
      (db : Db c.Text) where
    canary_tx_done :
        decisive v.outcome ≡ true
        → {event : Event F} {updated : Bool} {db' : Db c.Text}
        → record_protocol_observation_tx c row_stamp event_stamp v audit_payload db
          ≡ ok ((event, updated), db')
        → CanaryDone row_stamp event_stamp v audit_payload db (ok (event, updated), db')
    unfolding record_protocol_observation_tx
    canary_tx_done known {event} {updated} {db'} h =
        let attempt = canary_attempt row_stamp v db.protocol_observations in
        ground (
          arith,
          canary_attempt_lem row_stamp v db.protocol_observations,
          append_to-Appended c event_stamp "protocol_probe" (canary_payload audit_payload attempt.1)
              (record db { protocol_observations = attempt.0 }) {event = event} {db' = db'},
        )

    canary_tx_failed :
        decisive v.outcome ≡ true
        → (e : StoreError)
        → record_protocol_observation_tx c row_stamp event_stamp v audit_payload db ≡ err e
        → CanaryDone row_stamp event_stamp v audit_payload db (err e, db)
    unfolding record_protocol_observation_tx
    canary_tx_failed known value_error h =
        absurd (cc ((append_to_err c _ _ _ _ (with_flag_err c _ _ h)).0))
    canary_tx_failed known integrity_error h = (
      known,
      rw (← (canary_attempt_lem row_stamp v db.protocol_observations).0)
          (append_to_err c _ _ _ _ (with_flag_err c _ _ h)).1,
      refl,
    )

    -- `record_protocol_observation` raises `ValueError` just for an outcome that is not PASS or FAIL
    -- and changes nothing; it raises `IntegrityError` just when its audit row is refused and changes
    -- nothing; otherwise it counts the canary just when it is no replay, adds the canary row just
    -- then, appends one audit event that says so, and leaves the delivery table alone.
    pub record_protocol_observation_lem :
        CanaryDone row_stamp event_stamp v audit_payload db
          (record_protocol_observation c row_stamp event_stamp v audit_payload db)
    unfolding record_protocol_observation
    record_protocol_observation_lem = elim (Bool-cases (decisive v.outcome)) [
      | inr e ↦ rw e (e, refl)
      | inl e ↦ rw e (
          transaction_induction (CanaryDone row_stamp event_stamp v audit_payload db)
            (record_protocol_observation_tx c row_stamp event_stamp v audit_payload) db
            (canary_tx_failed e) (λ a db' h. canary_tx_done e h))
    ]

  -- What a call of `append_audit` did, by how it ended.
  abbrev pub AuditDone :
      Stamp → String → Fields F → Db c.Text → Result (Event F) × Db c.Text → Type 0
  AuditDone stamp type payload db (err e, db') = (e ≡ integrity_error) × (db' ≡ db)
  AuditDone stamp type payload db (ok event, db') =
      Appended c stamp type payload event db.audit_events db'.audit_events
      × (db'.observations ≡ db.observations)
      × (db'.protocol_observations ≡ db.protocol_observations)

  pub append_audit_lem :
      (stamp : Stamp) (type : String) (payload : Fields F) (db : Db c.Text)
      → AuditDone stamp type payload db (append_audit c stamp type payload db)
  unfolding append_audit
  append_audit_lem stamp type payload db =
      transaction_induction (AuditDone stamp type payload db) (append_to c stamp type payload) db
        (λ e h. ((append_to_err c stamp type payload db h).0, refl))
        (λ event db' h. append_to-Appended c stamp type payload db h)

-- `record_observation` raises just for an outcome that is not PASS or FAIL; otherwise it returns
-- whether the row was new, and adds it just then.
pub record_observation_lem :
    {Text : Type 0} (stamp : Stamp) (v : Verification) (db : Db Text)
    → record_observation stamp v db ≡ (
        if decisive v.outcome
        then (if any (conflicts (observation_row stamp v)) db.observations
            then (ok false, db)
            else (
              ok true,
              record db { observations = db.observations ++ observation_row stamp v ∷ [] },
            ))
        else (err value_error, db))
unfolding record_observation insert_observation
record_observation_lem stamp v db = ground arith
