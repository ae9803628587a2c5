-- ===== src/Store/Ledger/Refines.antt =====
-- The table of deliveries does what the ledger promises.
use mathlib.Core.List.{foldr, map}
use mathlib.Core.Quot
use mathlib.Core.Quot.{Quot, Quot-set}
use counterparty_sharedos.Prelude.{
  ◌≡◌, refl, ap, ◌∙◌, Bool, true, not, List, [], ◌∷◌, ◌++◌, String, str_eq, str_eq_iff, any,
  if◌then◌else◌, arith, Bool-cases, inl, inr,
}
use counterparty_sharedos.Json.{Fields, Codec}
use counterparty_sharedos.Audit.{Event, Stamp}
use counterparty_sharedos.Tables.{Observation, conflicts}
use counterparty_sharedos.Store.{
  Db, Result, ok, err, value_error, integrity_error, Verification, observation_row,
  record_verification,
}
use counterparty_sharedos.Store.Atomic.{counts, VerificationDone, record_verification_lem}
use counterparty_sharedos.Store.Query.{counts_for, reputation}
use counterparty_sharedos.Store.Order.{
  no_rows, conclude, reputation_tally, snoc-perm, tally_observation,
}
use counterparty_sharedos.Store.Ledger.{
  Ledger, of_list, repeats, answers, holds, enter, submit, standing, tally_delivery,
}

-- what the ledger keeps of a row
abbrev pub delivery_of : Observation → Verification
delivery_of r = record {
  delivery_id = r.delivery_id;
  service_id = r.service_id;
  task_type = r.task_type;
  outcome = r.outcome;
  evidence_hash = r.evidence_hash;
  latency_ms = r.latency_ms;
}

abbrev pub view : List Observation → Ledger
view table = of_list (map delivery_of table)

-- no row has the id: `uuid.uuid4()` does not repeat one
abbrev pub is_fresh : Stamp → List Observation → Bool
is_fresh stamp table = not (any (λ r. str_eq stamp.uuid r.id) table)

map-snoc :
    (r : Observation) (table : List Observation)
    → map delivery_of (table ++ r ∷ []) ≡ map delivery_of table ++ delivery_of r ∷ []
map-snoc r [] = refl
map-snoc r (x ∷ table) = ap (λ vs. delivery_of x ∷ vs) (map-snoc r table)

view-snoc :
    (r : Observation) (table : List Observation)
    → view (table ++ r ∷ []) ≡ enter (delivery_of r) (view table)
unfolding enter
view-snoc r table =
    ap of_list (map-snoc r table) ∙ Quot.sound (snoc-perm (delivery_of r) (map delivery_of table))

-- with a fresh id, the table's constraints refuse just what the ledger holds
any-repeats :
    (stamp : Stamp) (v : Verification) (table : List Observation)
    → is_fresh stamp table ≡ true
    → any (conflicts (observation_row stamp v)) table ≡ any (repeats v) (map delivery_of table)
any-repeats stamp v [] h = refl
any-repeats stamp v (r ∷ table) h = ground (arith, any-repeats stamp v table)

-- what a counted submission, or one that is not, does to the view
pub view-submit :
    (stamp : Stamp) (v : Verification) (eligible : Bool) (table : List Observation)
    → is_fresh stamp table ≡ true
    → let counted = counts stamp v eligible table in
      (view (if counted then table ++ observation_row stamp v ∷ [] else table), counted)
      ≡ submit v eligible (view table)
unfolding submit holds
view-submit stamp v eligible table h =
    let same = any-repeats stamp v table h in
    elim (Bool-cases (counts stamp v eligible table)) [
      | inl e ↦ rw (← same, e, view-snoc (observation_row stamp v) table)
      | inr e ↦ rw (← same, e)
    ]

counts_for_lem : (s k : String) (r : Observation) → counts_for s k r ≡ answers s k (delivery_of r)
unfolding counts_for
counts_for_lem s k r = elim (Bool-cases (str_eq k "general")) [
  | inl e ↦ rw ((str_eq_iff k "general").0 e) (ground arith)
  | inr e ↦ rw e
]

module _ (s k : String) where
  foldr-view :
      (table : List Observation)
      → foldr (tally_observation s k) no_rows table
        ≡ foldr (tally_delivery s k) no_rows (map delivery_of table)
  foldr-view [] = refl
  foldr-view (r ∷ table) = rw (counts_for_lem s k r, foldr-view table)

  pub standing-view : (table : List Observation) → reputation s k table ≡ standing s k (view table)
  unfolding standing
  standing-view table = reputation_tally s k table ∙ ap conclude (foldr-view table)

module _ {F : Type 0} (c : Codec F) where
  -- What a call did to the ledger, by how it ended.
  abbrev pub LedgerDone :
      Verification → Bool → Ledger → Result (Event F × Bool) × Db c.Text → Type 0
  LedgerDone v eligible ledger (err e, db') = view db'.observations ≡ ledger
  LedgerDone v eligible ledger (ok (event, updated), db') =
      (view db'.observations, updated) ≡ submit v eligible ledger

  VerificationDone-LedgerDone :
      (row_stamp event_stamp : Stamp) (v : Verification) (payload : Fields F) (eligible : Bool)
      (db : Db c.Text) (r : Result (Event F × Bool) × Db c.Text)
      → is_fresh row_stamp db.observations ≡ true
      → VerificationDone c row_stamp event_stamp v payload eligible db r
      → LedgerDone v eligible (view db.observations) r
  VerificationDone-LedgerDone _ _ v payload eligible db (err value_error, db') h done =
      ap (λ d. view d.observations) done.1
  VerificationDone-LedgerDone _ _ v payload eligible db (err integrity_error, db') h done =
      ap (λ d. view d.observations) done.2
  VerificationDone-LedgerDone row_stamp _ v payload eligible db (ok (event, updated), db') h done =
      rw (done.1, done.2) (view-submit row_stamp v eligible db.observations h)

  -- The table of deliveries refines the ledger, which forgets row ids, times and the order of rows:
  -- where the new row's id is fresh, a call of `record_verification` that returns has the effect and
  -- the flag of `submit`, one that raises leaves the ledger as it was, and every reputation that the
  -- table reports is the ledger's.
  pub record_verification-refines :
      (row_stamp event_stamp : Stamp) (v : Verification) (payload : Fields F) (eligible : Bool)
      (db : Db c.Text) (service_id task_type : String)
      → is_fresh row_stamp db.observations ≡ true
      → let r = record_verification c row_stamp event_stamp v payload eligible db in
        LedgerDone v eligible (view db.observations) r
        × (reputation service_id task_type r.1.observations
            ≡ standing service_id task_type (view r.1.observations))
  record_verification-refines row_stamp event_stamp v payload eligible db service_id task_type h =
      let r = record_verification c row_stamp event_stamp v payload eligible db in
      (
        VerificationDone-LedgerDone row_stamp event_stamp v payload eligible db r h
            (record_verification_lem c row_stamp event_stamp v payload eligible db),
        standing-view service_id task_type r.1.observations,
      )
