-- ===== src/Store/Atomic.antt =====
-- The writing methods are atomic, and say exactly what they wrote.
use counterparty_sharedos.Prelude.{
  ◌≡◌, refl, Bool, true, false, not, ◌&&◌, ◌||◌, none, some, List, [], ◌∷◌, ◌++◌, any, String,
  str_eq, if◌then◌else◌, arith, Bool-cases, inl, inr,
}
use counterparty_sharedos.Json.{Fields, obj, Codec}
use counterparty_sharedos.Tables.{
  Observation, ProtocolObservation, decisive, conflicts, protocol_conflicts,
}
use counterparty_sharedos.Audit.{AuditRow, Event, Stamp, append_audit_tx}
use counterparty_sharedos.Store.{
  Db, StoreError, value_error, integrity_error, Result, ok, err, transaction, Verification, Canary,
  observation_row, canary_row, verification_payload, record_verification, record_verification_tx,
  append_to, with_flag, verification_attempt,
}

-- Whether `record_verification` and `record_protocol_observation` count a submission: it is eligible
-- and decisive, and no earlier row has its id, its delivery or its evidence.
abbrev pub counts : Stamp → Verification → Bool → List Observation → Bool
counts stamp v eligible table =
    eligible && (decisive v.outcome && not (any (conflicts (observation_row stamp v)) table))

abbrev pub canary_counts : Stamp → Canary → List ProtocolObservation → Bool
canary_counts stamp v table =
    decisive v.outcome && not (any (protocol_conflicts (canary_row stamp v)) table)

-- `outcome in {"PASS", "FAIL", "INCONCLUSIVE"}`
abbrev pub known_outcome : String → Bool
known_outcome outcome = decisive outcome || str_eq outcome "INCONCLUSIVE"

verification_attempt_lem :
    (stamp : Stamp) (v : Verification) (eligible : Bool) (table : List Observation)
    → let (table', updated) = verification_attempt stamp v eligible table in
      (updated ≡ counts stamp v eligible table)
      × (table' ≡ (if updated then table ++ observation_row stamp v ∷ [] else table))
unfolding verification_attempt
verification_attempt_lem stamp v eligible table = ground arith

module _ {Text A : Type 0} (P : Result A × Db Text → Type 0) where
  -- to know what a transaction did, it is enough to look at how its body ended
  pub transaction_induction :
      (body : Db Text → Result (A × Db Text)) (db : Db Text)
      → ((e : StoreError) → body db ≡ err e → P (err e, db))
      → ((a : A) (db' : Db Text) → body db ≡ ok (a, db') → P (ok a, db'))
      → P (transaction body db)
  unfolding transaction
  transaction_induction body db on_err on_ok = go (body db) on_err on_ok
    where
      go :
          (r : Result (A × Db Text))
          → ((e : StoreError) → r ≡ err e → P (err e, db))
          → ((a : A) (db' : Db Text) → r ≡ ok (a, db') → P (ok a, db'))
          → P (elim r [ ok (a, db') ↦ (ok a, db') | err e ↦ (err e, db) ])
      go (ok (a, db')) on_err on_ok = on_ok a db' refl
      go (err e) on_err on_ok = on_err e refl

module _ {F : Type 0} (c : Codec F) where
  -- The audit table `after` is `before` with the row of `event`, which `_append_audit_tx` made.
  abbrev pub Appended :
      Stamp → String → Fields F → Event F → List (AuditRow c.Text) → List (AuditRow c.Text) → Type 0
  Appended stamp type payload event before after =
      append_audit_tx c stamp type (obj payload) before ≡ some (event, after)

  pub append_to-Appended :
      (stamp : Stamp) (type : String) (payload : Fields F) (db : Db c.Text) {event : Event F}
      {db' : Db c.Text}
      → append_to c stamp type payload db ≡ ok (event, db')
      → Appended stamp type payload event db.audit_events db'.audit_events
        × (db'.observations ≡ db.observations)
        × (db'.protocol_observations ≡ db.protocol_observations)
  append_to-Appended stamp type payload db {event} {db'} h = ground arith

  pub append_to_err :
      (stamp : Stamp) (type : String) (payload : Fields F) (db : Db c.Text) {e : StoreError}
      → append_to c stamp type payload db ≡ err e
      → (e ≡ integrity_error) × (append_audit_tx c stamp type (obj payload) db.audit_events ≡ none)
  append_to_err stamp type payload db h = ground arith

  pub with_flag_err :
      (updated : Bool) (r : Result (Event F × Db c.Text)) {e : StoreError}
      → with_flag updated r ≡ err e
      → r ≡ err e
  with_flag_err updated r h = ground arith

  -- What a call of `record_verification` did, by how it ended.
  abbrev pub VerificationDone :
      Stamp
      → Stamp
      → Verification
      → Fields F
      → Bool
      → Db c.Text
      → Result (Event F × Bool) × Db c.Text
      → Type 0
  VerificationDone row_stamp event_stamp v audit_payload eligible db (err value_error, db') =
      (known_outcome v.outcome ≡ false) × (db' ≡ db)
  VerificationDone row_stamp event_stamp v audit_payload eligible db (err integrity_error, db') =
      let counted = counts row_stamp v eligible db.observations in
      (known_outcome v.outcome ≡ true)
      × (append_audit_tx c event_stamp "verify_delivery"
            (obj (verification_payload audit_payload v.outcome counted)) db.audit_events
          ≡ none)
      × (db' ≡ db)
  VerificationDone row_stamp event_stamp v audit_payload eligible db (ok (event, updated), db') =
      let counted = counts row_stamp v eligible db.observations in
      (known_outcome v.outcome ≡ true)
      × (updated ≡ counted)
      × (db'.observations ≡ (
          if counted then db.observations ++ observation_row row_stamp v ∷ [] else db.observations))
      × (db'.protocol_observations ≡ db.protocol_observations)
      × Appended event_stamp "verify_delivery"
          (verification_payload audit_payload v.outcome counted) event db.audit_events
          db'.audit_events

  module _ (row_stamp event_stamp : Stamp) (v : Verification) (audit_payload : Fields F)
      (eligible : Bool) (db : Db c.Text) where
    verification_tx_done :
        known_outcome v.outcome ≡ true
        → {event : Event F} {updated : Bool} {db' : Db c.Text}
        → record_verification_tx c row_stamp event_stamp v audit_payload eligible db
          ≡ ok ((event, updated), db')
        → VerificationDone row_stamp event_stamp v audit_payload eligible db
            (ok (event, updated), db')
    unfolding record_verification_tx
    verification_tx_done known {event} {updated} {db'} h =
        let attempt = verification_attempt row_stamp v eligible db.observations in
        ground (
          arith,
          verification_attempt_lem row_stamp v eligible db.observations,
          append_to-Appended event_stamp "verify_delivery"
              (verification_payload audit_payload v.outcome attempt.1)
              (record db { observations = attempt.0 }) {event = event} {db' = db'},
        )

    verification_tx_failed :
        known_outcome v.outcome ≡ true
        → (e : StoreError)
        → record_verification_tx c row_stamp event_stamp v audit_payload eligible db ≡ err e
        → VerificationDone row_stamp event_stamp v audit_payload eligible db (err e, db)
    unfolding record_verification_tx
    verification_tx_failed known value_error h =
        absurd (cc ((append_to_err _ _ _ _ (with_flag_err _ _ h)).0))
    verification_tx_failed known integrity_error h = (
      known,
      rw (← (verification_attempt_lem row_stamp v eligible db.observations).0)
          (append_to_err _ _ _ _ (with_flag_err _ _ h)).1,
      refl,
    )

    -- `record_verification` raises `ValueError` just for an unknown outcome and changes nothing; it
    -- raises `IntegrityError` just when its audit row is refused and changes nothing; otherwise it
    -- counts the submission just when it is eligible, decisive and no replay, adds the evidence row
    -- just then, appends one audit event that says so, and leaves the canary table alone.
    pub record_verification_lem :
        VerificationDone row_stamp event_stamp v audit_payload eligible db
          (record_verification c row_stamp event_stamp v audit_payload eligible db)
    unfolding record_verification
    record_verification_lem = elim (Bool-cases (known_outcome v.outcome)) [
      | inr e ↦ rw e (e, refl)
      | inl e ↦ rw e (
          transaction_induction (VerificationDone row_stamp event_stamp v audit_payload eligible db)
            (record_verification_tx c row_stamp event_stamp v audit_payload eligible) db
            (verification_tx_failed e) (λ a db' h. verification_tx_done e h))
    ]
