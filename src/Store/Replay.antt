-- ===== src/Store/Replay.antt =====
-- What a submission does to every reputation that the store reports.
use counterparty_sharedos.Prelude.{
  ◌+◌, ◌≡◌, refl, ap, Bool, false, ◌&&◌, List, [], ◌∷◌, ◌++◌, filter, filter-append, length-append,
  String, str_eq, if◌then◌else◌, arith, Bool-cases, inl, inr,
}
use mathlib.Core.List.{append-nil}
use counterparty_sharedos.Json.{Fields, Codec}
use counterparty_sharedos.Tables.{Observation}
use counterparty_sharedos.Audit.{Event, Stamp}
use counterparty_sharedos.Reputation.{BayesianReputation}
use counterparty_sharedos.Store.{
  Db, Result, ok, err, value_error, integrity_error, Verification, observation_row,
  record_verification,
}
use counterparty_sharedos.Store.Query.{reputation, protocol_reputation, counts_for, with_outcome}
use counterparty_sharedos.Store.Atomic.{counts, VerificationDone, record_verification_lem}

-- one more success or failure, as the row says, if the row is one that the question is about
abbrev pub credited : String → Bool → BayesianReputation → BayesianReputation
credited outcome relevant r =
    if relevant
    then record {
      successes = r.successes + (if str_eq outcome "PASS" then 1 else 0);
      failures = r.failures + (if str_eq outcome "FAIL" then 1 else 0);
    }
    else r

reputation-snoc :
    (service_id task_type : String) (row : Observation) (table : List Observation)
    → (reputation service_id task_type (table ++ row ∷ [])).0
      ≡ credited row.outcome
          (counts_for service_id task_type row)
          (reputation service_id task_type table).0
unfolding reputation
reputation-snoc service_id task_type row table =
    let rows = filter (counts_for service_id task_type) table in
    rw (filter-append (counts_for service_id task_type) table (row ∷ []))
      (elim (Bool-cases (counts_for service_id task_type row)) [
        | inr e ↦ rw (e, append-nil)
        | inl e ↦
            rw
              (
                e,
                filter-append (λ (r : Observation). str_eq r.outcome "PASS") rows (row ∷ []),
                filter-append (λ (r : Observation). str_eq r.outcome "FAIL") rows (row ∷ []),
                length-append (with_outcome "PASS" rows) (with_outcome "PASS" (row ∷ [])),
                length-append (with_outcome "FAIL" rows) (with_outcome "FAIL" (row ∷ [])),
              )
              (ground arith)
      ])

-- the flag that a call returned, if it returned
abbrev pub was_updated : {A : Type 0} → Result (A × Bool) → Bool
was_updated (ok (_, updated)) = updated
was_updated (err _) = false

module _ {F : Type 0} (c : Codec F) where
  VerificationDone-reputation :
      (row_stamp event_stamp : Stamp) (v : Verification) (payload : Fields F) (eligible : Bool)
      (db : Db c.Text) (service_id task_type : String) (r : Result (Event F × Bool) × Db c.Text)
      → VerificationDone c row_stamp event_stamp v payload eligible db r
      → ((reputation service_id task_type r.1.observations).0
          ≡ credited v.outcome
              (was_updated r.0 && counts_for service_id task_type (observation_row row_stamp v))
              (reputation service_id task_type db.observations).0)
        × (r.1.protocol_observations ≡ db.protocol_observations)
  VerificationDone-reputation row_stamp event_stamp v payload eligible db s t (err value_error, db')
        done =
      rw done.1 (refl, refl)
  VerificationDone-reputation row_stamp event_stamp v payload eligible db s t
        (err integrity_error, db') done =
      rw done.2 (refl, refl)
  VerificationDone-reputation row_stamp event_stamp v payload eligible db s t
        (ok (event, updated), db') (known, flag, table, other, appended) =
      rw (flag, table)
        (elim (Bool-cases (counts row_stamp v eligible db.observations)) [
          | inr e ↦ rw e (refl, other)
          | inl e ↦ rw e (reputation-snoc s t (observation_row row_stamp v) db.observations, other)
        ])

  -- Whatever `record_verification` is given, and whether it returns or raises, the reputation of every
  -- provider for every task type gains one success (PASS) or one failure (FAIL) if the call returned
  -- `updated` and the new row is one that the question counts, and is otherwise what it was; the
  -- protocol reputations stay.
  pub record_verification-reputation :
      (row_stamp event_stamp : Stamp) (v : Verification) (payload : Fields F) (eligible : Bool)
      (db : Db c.Text) (service_id task_type : String)
      → let (r, db') = record_verification c row_stamp event_stamp v payload eligible db in
        ((reputation service_id task_type db'.observations).0
          ≡ credited v.outcome
              (was_updated r && counts_for service_id task_type (observation_row row_stamp v))
              (reputation service_id task_type db.observations).0)
        × (protocol_reputation service_id db'.protocol_observations
            ≡ protocol_reputation service_id db.protocol_observations)
  record_verification-reputation row_stamp event_stamp v payload eligible db service_id task_type =
      let (gained, same) =
        VerificationDone-reputation row_stamp event_stamp v payload eligible db service_id task_type
          _ (record_verification_lem c row_stamp event_stamp v payload eligible db) in
      (gained, ap (protocol_reputation service_id) same)
