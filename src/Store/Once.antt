-- ===== src/Store/Once.antt =====
-- A delivery is counted at most once, whatever happens between two submissions of it.
use counterparty_sharedos.Prelude.{
  ◌≡◌, refl, sym, ap, ◌∙◌, Bool, true, false, not, ◌&&◌, ◌||◌, List, [], ◌∷◌, ◌++◌, any, any-append,
  String, str_eq, str_eq_iff, if◌then◌else◌, arith,
}
use mathlib.Core.List.{append-nil, append_assoc}
use counterparty_sharedos.Json.{Fields, Codec}
use counterparty_sharedos.Tables.{Observation, decisive, conflicts}
use counterparty_sharedos.Audit.{Event, Stamp}
use counterparty_sharedos.Store.{
  Db, Result, ok, err, value_error, integrity_error, Verification, Canary, observation_row,
  record_verification, record_observation,
}
use counterparty_sharedos.Store.Query.{reputation, counts_for}
use counterparty_sharedos.Store.Atomic.{counts, VerificationDone, record_verification_lem}
use counterparty_sharedos.Store.Writes.{
  CanaryDone, record_protocol_observation_lem, AuditDone, append_audit_lem, record_observation_lem,
}
use counterparty_sharedos.Store.Replay.{was_updated, credited, record_verification-reputation}
use counterparty_sharedos.Store.Calls.{Call, audit, verification, canary, observation, run, run_all}

-- one delivery id, or one provider with one evidence hash
abbrev pub same_submission : Verification → Verification → Bool
same_submission v w =
    str_eq v.delivery_id w.delivery_id
    || (str_eq v.service_id w.service_id && str_eq v.evidence_hash w.evidence_hash)

-- the table has a row of the same submission
abbrev claims : Verification → Observation → Bool
claims w r =
    str_eq w.delivery_id r.delivery_id
    || (str_eq w.service_id r.service_id && str_eq w.evidence_hash r.evidence_hash)

-- the rows that were added, so that a table only grows
abbrev Grown : List Observation → List Observation → Type 0
Grown before after = (added : List Observation) × (after ≡ before ++ added)

Grown-if :
    (b : Bool) (table after : List Observation) (row : Observation)
    → after ≡ (if b then table ++ row ∷ [] else table)
    → Grown table after
Grown-if true table after row h = (row ∷ [], h)
Grown-if false table after row h = ([], h ∙ sym (append-nil table))

module _ {F : Type 0} (c : Codec F) where
  VerificationDone-Grown :
      (row_stamp event_stamp : Stamp) (v : Verification) (payload : Fields F) (eligible : Bool)
      (db : Db c.Text) (r : Result (Event F × Bool) × Db c.Text)
      → VerificationDone c row_stamp event_stamp v payload eligible db r
      → Grown db.observations r.1.observations
  VerificationDone-Grown _ _ v payload eligible db (err value_error, db') done =
      ([], rw done.1 (sym (append-nil _)))
  VerificationDone-Grown _ _ v payload eligible db (err integrity_error, db') done =
      ([], rw done.2 (sym (append-nil _)))
  VerificationDone-Grown row_stamp _ v payload eligible db (ok (event, updated), db') done =
      Grown-if (counts row_stamp v eligible db.observations) db.observations db'.observations _
        done.2

  pub CanaryDone-same :
      (row_stamp event_stamp : Stamp) (v : Canary) (payload : Fields F) (db : Db c.Text)
      (r : Result (Event F × Bool) × Db c.Text)
      → CanaryDone c row_stamp event_stamp v payload db r
      → r.1.observations ≡ db.observations
  CanaryDone-same _ _ v payload db (err value_error, db') done = rw done.1
  CanaryDone-same _ _ v payload db (err integrity_error, db') done = rw done.2
  CanaryDone-same _ _ v payload db (ok (event, updated), db') done = done.3

  pub AuditDone-same :
      (stamp : Stamp) (type : String) (payload : Fields F) (db : Db c.Text)
      (r : Result (Event F) × Db c.Text)
      → AuditDone c stamp type payload db r
      → r.1.observations ≡ db.observations
  AuditDone-same stamp type payload db (err e, db') done = rw done.1
  AuditDone-same stamp type payload db (ok event, db') done = done.1

  record_observation-Grown :
      (stamp : Stamp) (v : Verification) (db : Db c.Text)
      → Grown db.observations (record_observation stamp v db).1.observations
  record_observation-Grown stamp v db =
      Grown-if
        (decisive v.outcome && not (any (conflicts (observation_row stamp v)) db.observations))
        db.observations _ (observation_row stamp v)
        (rw (record_observation_lem stamp v db) (ground arith))

  run-Grown : (call : Call F) (db : Db c.Text) → Grown db.observations (run c call db).observations
  unfolding run
  run-Grown (audit stamp type payload) db = (
    [],
    AuditDone-same stamp type payload db _ (append_audit_lem c stamp type payload db)
        ∙ sym (append-nil _),
  )
  run-Grown (verification row_stamp event_stamp v payload eligible) db =
      VerificationDone-Grown row_stamp event_stamp v payload eligible db _
        (record_verification_lem c row_stamp event_stamp v payload eligible db)
  run-Grown (canary row_stamp event_stamp v payload) db = (
    [],
    CanaryDone-same row_stamp event_stamp v payload db _
          (record_protocol_observation_lem c row_stamp event_stamp v payload db)
        ∙ sym (append-nil _),
  )
  run-Grown (observation stamp v) db = record_observation-Grown stamp v db

  run_all-Grown :
      (calls : List (Call F)) (db : Db c.Text)
      → Grown db.observations (run_all c calls db).observations
  unfolding run_all
  run_all-Grown [] db = ([], sym (append-nil _))
  run_all-Grown (call ∷ calls) db =
      let (first, e) = run-Grown call db in
      let (rest, f) = run_all-Grown calls (run c call db) in
      (first ++ rest, f ∙ rw e (append_assoc db.observations first rest))

  any-Grown :
      (p : Observation → Bool) (xs ys : List Observation)
      → Grown xs ys
      → any p xs ≡ true
      → any p ys ≡ true
  any-Grown p xs ys (added, e) h = rw e (ground (arith, any-append p xs added))

  claimed_row :
      (row_stamp event_stamp : Stamp) (v w : Verification) (payload : Fields F) (eligible : Bool)
      (db : Db c.Text) (r : Result (Event F × Bool) × Db c.Text)
      → same_submission v w ≡ true
      → VerificationDone c row_stamp event_stamp v payload eligible db r
      → was_updated r.0 ≡ true
      → any (claims w) r.1.observations ≡ true
  claimed_row _ _ v w payload eligible db (err value_error, db') same done up = cc
  claimed_row _ _ v w payload eligible db (err integrity_error, db') same done up = cc
  claimed_row row_stamp _ v w payload eligible db (ok (event, updated), db') same
        (known, flag, table, other, appended) up =
      let counted : counts row_stamp v eligible db.observations ≡ true = sym flag ∙ up in
      rw table (
        rw counted (
          ground (
            arith,
            any-append (claims w) db.observations (observation_row row_stamp v ∷ []),
            str_eq_iff v.delivery_id w.delivery_id,
            str_eq_iff w.delivery_id v.delivery_id,
            str_eq_iff v.service_id w.service_id,
            str_eq_iff w.service_id v.service_id,
            str_eq_iff v.evidence_hash w.evidence_hash,
            str_eq_iff w.evidence_hash v.evidence_hash,
          )))

  claims-conflicts :
      (stamp : Stamp) (w : Verification) (table : List Observation)
      → any (claims w) table ≡ true
      → any (conflicts (observation_row stamp w)) table ≡ true
  claims-conflicts stamp w [] h = cc
  claims-conflicts stamp w (r ∷ table) h = ground (arith, claims-conflicts stamp w table)

  not_counted :
      (row_stamp event_stamp : Stamp) (v : Verification) (payload : Fields F) (eligible : Bool)
      (db : Db c.Text) (r : Result (Event F × Bool) × Db c.Text)
      → any (claims v) db.observations ≡ true
      → VerificationDone c row_stamp event_stamp v payload eligible db r
      → was_updated r.0 ≡ false
  not_counted _ _ v payload eligible db (err value_error, db') claimed done = refl
  not_counted _ _ v payload eligible db (err integrity_error, db') claimed done = refl
  not_counted row_stamp _ v payload eligible db (ok (event, updated), db') claimed done =
      ground (arith, done.1, claims-conflicts row_stamp v db.observations claimed)

  -- Take two submissions of the same delivery id, or of the same provider with the same evidence hash,
  -- of which the first was counted. Whatever calls of the writing methods run in between, the second
  -- one is not counted, and it leaves the reputation of every provider for every task type as it was.
  pub delivery_counted_once :
      (s₁ s₂ t₁ t₂ : Stamp) (v w : Verification) (payload payload' : Fields F)
      (eligible eligible' : Bool) (db : Db c.Text) (calls : List (Call F))
      (service_id task_type : String)
      → same_submission v w ≡ true
      → was_updated (record_verification c s₁ s₂ v payload eligible db).0 ≡ true
      → let before = run_all c calls (record_verification c s₁ s₂ v payload eligible db).1 in
        let (r, after) = record_verification c t₁ t₂ w payload' eligible' before in
        (was_updated r ≡ false)
        × ((reputation service_id task_type after.observations).0
            ≡ (reputation service_id task_type before.observations).0)
  delivery_counted_once s₁ s₂ t₁ t₂ v w payload payload' eligible eligible' db calls service_id
        task_type same up =
      let first = record_verification c s₁ s₂ v payload eligible db in
      let before = run_all c calls first.1 in
      let claimed =
        any-Grown (claims w) first.1.observations before.observations (run_all-Grown calls first.1)
          (claimed_row s₁ s₂ v w payload eligible db first same
            (record_verification_lem c s₁ s₂ v payload eligible db) up) in
      let refused =
        not_counted t₁ t₂ w payload' eligible' before _ claimed
          (record_verification_lem c t₁ t₂ w payload' eligible' before) in
      (
        refused,
        (record_verification-reputation c t₁ t₂ w payload' eligible' before service_id task_type).0
            ∙ ap
                (λ b.
                  credited w.outcome (b && counts_for service_id task_type (observation_row t₁ w))
                    (reputation service_id task_type before.observations).0)
                refused,
      )
