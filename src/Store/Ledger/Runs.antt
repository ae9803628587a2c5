-- ===== src/Store/Ledger/Runs.antt =====
-- Runs of the store's writing methods, against the ledger.
use counterparty_sharedos.Prelude.{
  ◌≡◌, refl, sym, ap, ◌∙◌, Bool, true, List, [], ◌∷◌, ◌++◌, String, any, Bool-cases, inl, inr,
}
use counterparty_sharedos.Json.{Codec}
use counterparty_sharedos.Audit.{Event, Stamp}
use counterparty_sharedos.Tables.{decisive, conflicts}
use counterparty_sharedos.Store.{
  Db, empty_db, Result, ok, err, Verification, observation_row, record_verification,
  record_observation,
}
use counterparty_sharedos.Store.Writes.{
  record_protocol_observation_lem, append_audit_lem, record_observation_lem,
}
use counterparty_sharedos.Store.Once.{CanaryDone-same, AuditDone-same}
use counterparty_sharedos.Store.Query.{reputation}
use counterparty_sharedos.Store.Calls.{Call, audit, verification, canary, observation, run, run_all}
use counterparty_sharedos.Store.Ledger.{Ledger, empty_ledger, submit, standing}
use counterparty_sharedos.Store.Ledger.Refines.{
  view, is_fresh, standing-view, view-submit, LedgerDone, record_verification-refines,
}

-- a delivery that is submitted, if the call returns
abbrev pub if_returned :
    {A B : Type 0} → Verification → Bool → Result A × B → List (Verification × Bool)
if_returned v eligible (ok _, _) = (v, eligible) ∷ []
if_returned v eligible (err _, _) = []

abbrev pub submit_all : List (Verification × Bool) → Ledger → Ledger
submit_all [] ledger = ledger
submit_all ((v, eligible) ∷ rest) ledger = submit_all rest (submit v eligible ledger).0

submit_all-append :
    (xs ys : List (Verification × Bool)) (ledger : Ledger)
    → submit_all (xs ++ ys) ledger ≡ submit_all ys (submit_all xs ledger)
submit_all-append [] ys ledger = refl
submit_all-append ((v, eligible) ∷ xs) ys ledger =
    submit_all-append xs ys (submit v eligible ledger).0

module _ {F : Type 0} (c : Codec F) where
  abbrev pub submission : Call F → Db c.Text → List (Verification × Bool)
  submission (audit _ _ _) db = []
  submission (canary _ _ _ _) db = []
  submission (verification row_stamp event_stamp v payload eligible) db =
      if_returned v eligible (record_verification c row_stamp event_stamp v payload eligible db)
  submission (observation stamp v) db = if_returned v true (record_observation stamp v db)

  -- the deliveries that the calls submit, without those whose call raises
  unfoldable pub submissions : List (Call F) → Db c.Text → List (Verification × Bool)
  submissions [] db = []
  submissions (call ∷ calls) db = submission call db ++ submissions calls (run c call db)

  -- the row that a call may add has an id that no row has
  abbrev pub is_fresh_call : Call F → Db c.Text → Bool
  is_fresh_call (verification row_stamp _ _ _ _) db = is_fresh row_stamp db.observations
  is_fresh_call (observation stamp _) db = is_fresh stamp db.observations
  is_fresh_call (audit _ _ _) db = true
  is_fresh_call (canary _ _ _ _) db = true

  abbrev pub HasFreshIds : List (Call F) → Db c.Text → Type 0
  HasFreshIds [] db = Unit
  HasFreshIds (call ∷ calls) db = (is_fresh_call call db ≡ true) × HasFreshIds calls (run c call db)

  LedgerDone-submit_all :
      (v : Verification) (eligible : Bool) (ledger : Ledger)
      (r : Result (Event F × Bool) × Db c.Text)
      → LedgerDone c v eligible ledger r
      → view r.1.observations ≡ submit_all (if_returned v eligible r) ledger
  LedgerDone-submit_all v eligible ledger (err e, db') h = h
  LedgerDone-submit_all v eligible ledger (ok (event, updated), db') h = ap (λ p. p.0) h

  record_observation-submit_all :
      (stamp : Stamp) (v : Verification) (db : Db c.Text)
      → is_fresh stamp db.observations ≡ true
      → let r = record_observation stamp v db in
        view r.1.observations ≡ submit_all (if_returned v true r) (view db.observations)
  record_observation-submit_all stamp v db h =
      let s = ap (λ p. p.0) (view-submit stamp v true db.observations h) in
      rw (record_observation_lem stamp v db) (elim (Bool-cases (decisive v.outcome)) [
        | inr e ↦ rw e
        | inl e ↦ elim (Bool-cases (any (conflicts (observation_row stamp v)) db.observations)) [
          | inl d ↦ rw (e, d) (rw (e, d) at s)
          | inr d ↦ rw (e, d) (rw (e, d) at s)
        ]
      ])

  run-refines :
      (call : Call F) (db : Db c.Text)
      → is_fresh_call call db ≡ true
      → view (run c call db).observations ≡ submit_all (submission call db) (view db.observations)
  unfolding run
  run-refines (audit stamp type payload) db h =
      ap view (AuditDone-same c stamp type payload db _ (append_audit_lem c stamp type payload db))
  run-refines (canary row_stamp event_stamp v payload) db h = ap view (
      CanaryDone-same c row_stamp event_stamp v payload db _
        (record_protocol_observation_lem c row_stamp event_stamp v payload db))
  run-refines (verification row_stamp event_stamp v payload eligible) db h =
      LedgerDone-submit_all v eligible (view db.observations) _
        (record_verification-refines c row_stamp event_stamp v payload eligible db "" "" h).0
  run-refines (observation stamp v) db h = record_observation-submit_all stamp v db h

  run_all-view :
      (calls : List (Call F)) (db : Db c.Text)
      → HasFreshIds calls db
      → view (run_all c calls db).observations
        ≡ submit_all (submissions calls db) (view db.observations)
  unfolding run_all submissions
  run_all-view [] db h = refl
  run_all-view (call ∷ calls) db h =
      run_all-view calls (run c call db) h.1
      ∙ ap (submit_all (submissions calls (run c call db))) (run-refines call db h.0)
      ∙ sym (
          submit_all-append (submission call db) (submissions calls (run c call db))
            (view db.observations))

  -- After any sequence of calls of the writing methods on an empty database, each returning or
  -- raising, where each new row's id is fresh, the reputation that the store reports of any provider
  -- for any task type is what the ledger promises after the deliveries of the calls that returned.
  pub run_all-refines :
      (calls : List (Call F)) (service_id task_type : String)
      → HasFreshIds calls empty_db
      → reputation service_id task_type (run_all c calls empty_db).observations
        ≡ standing service_id task_type (submit_all (submissions calls empty_db) empty_ledger)
  run_all-refines calls service_id task_type h =
      standing-view service_id task_type (run_all c calls empty_db).observations
      ∙ ap (standing service_id task_type) (run_all-view calls empty_db h)
