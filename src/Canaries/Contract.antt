-- ===== src/Canaries/Contract.antt =====
-- What a canary that counts rests on.
use counterparty_sharedos.Prelude.{
  false, Bool-cases, ap, ◌⊎◌, inl, inr, [], ◌∷◌, ◌++◌, String, all, if◌then◌else◌, arith, ◌≡◌, refl,
  sym, ◌∙◌, Bool, true, Option, none, some, List,
}
use mathlib.Core.Path.{subst}
use mathlib.Core.Bool.{false≢true}
use counterparty_sharedos.Floats.{Floats}
use counterparty_sharedos.Json.{Fields, text, get, Codec}
use counterparty_sharedos.Models.{
  EvidenceState, pass, fail, inconclusive, state_value, ProbeResult, ProbeObservationRequest,
}
use counterparty_sharedos.Tables.{decisive, ProtocolObservation}
use counterparty_sharedos.Probes.{Jsonschema, Printer}
use counterparty_sharedos.Audit.{Event, Stamp}
use counterparty_sharedos.Store.{
  Db, Result, ok, err, value_error, integrity_error, Canary, canary_row,
}
use counterparty_sharedos.Store.Writes.{CanaryDone, record_protocol_observation_lem}
use counterparty_sharedos.Verification.{aggregate}
use counterparty_sharedos.Verification.Verdict.{worst, worst_of, aggregate_state-eq-worst_of}
use counterparty_sharedos.Canaries.{
  fail_closed, canary_probes, canary_reply, canary_record, canary_audit, observe, record_canary,
  probe_observation,
}

fail_closed-decisive : (state : EvidenceState) → decisive (state_value (fail_closed state)) ≡ true
fail_closed-decisive pass = refl
fail_closed-decisive fail = refl
fail_closed-decisive inconclusive = refl

abbrev is_pass : EvidenceState → Bool
is_pass pass = true
is_pass fail = false
is_pass inconclusive = false

-- PASS where every probe passed, and FAIL otherwise
abbrev pub judged_outcome : {F : Type 0} → List (ProbeResult F) → String
judged_outcome probes = if all (λ p. is_pass p.state) probes then "PASS" else "FAIL"

fail_closed-worst :
    (a b : EvidenceState) → fail_closed (worst a b) ≡ (if is_pass a then fail_closed b else fail)
fail_closed-worst a b = ground arith

worst_of-judged_outcome :
    {F : Type 0} (probes : List (ProbeResult F))
    → state_value (fail_closed (worst_of probes)) ≡ judged_outcome probes
worst_of-judged_outcome [] = refl
worst_of-judged_outcome (p ∷ probes) =
    ap state_value (fail_closed-worst p.state (worst_of probes))
    ∙ elim (Bool-cases (is_pass p.state)) [
      | inl e ↦ rw e (worst_of-judged_outcome probes)
      | inr e ↦ rw e
    ]

module _ (fl : Floats) (js : Jsonschema fl.F) (pr : Printer fl.F) (c : Codec fl.F) where
  -- a reply that leaves the delivery evidence alone, or an `IntegrityError` that changes nothing
  abbrev pub IsRecorded : {A : Type 0} → Db c.Text → Result A × Db c.Text → Type 0
  IsRecorded db (ok a, db') = db'.observations ≡ db.observations
  IsRecorded db (err e, db') = (e ≡ integrity_error) × (db' ≡ db)

  done-IsRecorded :
      (row_stamp event_stamp : Stamp) (v : Canary) (payload : Fields fl.F) (db : Db c.Text)
      (r : Result (Event fl.F × Bool) × Db c.Text)
      → decisive v.outcome ≡ true
      → CanaryDone c row_stamp event_stamp v payload db r
      → IsRecorded db r
  done-IsRecorded row_stamp event_stamp v payload db (ok (event, updated), db') d h = h.3
  done-IsRecorded row_stamp event_stamp v payload db (err value_error, db') d h =
      absurd (false≢true (sym h.0 ∙ d))
  done-IsRecorded row_stamp event_stamp v payload db (err integrity_error, db') d h = (refl, h.2)

  reply-IsRecorded :
      (req : ProbeObservationRequest fl.F) (probes : List (ProbeResult fl.F))
      (state : EvidenceState) (figures : fl.F × fl.F) (db : Db c.Text)
      (r : Result (Event fl.F × Bool) × Db c.Text)
      → IsRecorded db r
      → IsRecorded db (canary_reply fl js pr c req probes state figures r)
  reply-IsRecorded req probes state figures db (ok (event, updated), db') h = h
  reply-IsRecorded req probes state figures db (err e, db') h = h

  canary-IsRecorded :
      (row_stamp event_stamp : Stamp) (req : ProbeObservationRequest fl.F)
      (probes : List (ProbeResult fl.F)) (db : Db c.Text)
      → IsRecorded db (record_canary fl js pr c row_stamp event_stamp req probes db)
  unfolding record_canary
  canary-IsRecorded row_stamp event_stamp req probes db =
      let state = fail_closed (aggregate fl probes).0 in
      done-IsRecorded row_stamp event_stamp (canary_record fl js pr c req state)
        (canary_audit fl js pr c req probes state
          ((aggregate fl probes).1, (aggregate fl probes).2))
        db _ (fail_closed-decisive (aggregate fl probes).0)
        (record_protocol_observation_lem c row_stamp event_stamp
          (canary_record fl js pr c req state)
          (canary_audit fl js pr c req probes state
            ((aggregate fl probes).1, (aggregate fl probes).2))
          db)

  observe-IsRecorded :
      (row_stamp event_stamp : Stamp) (req : ProbeObservationRequest fl.F) (db : Db c.Text)
      (r : Result (Fields fl.F) × Db c.Text) (o : Option (List (ProbeResult fl.F)))
      → observe fl js pr c row_stamp event_stamp req db o ≡ some r
      → IsRecorded db r
  observe-IsRecorded row_stamp event_stamp req db r none h = absurd (cc h)
  observe-IsRecorded row_stamp event_stamp req db r (some probes) h =
      let verdict = aggregate fl probes in
      let recorded = record_canary fl js pr c row_stamp event_stamp req probes db in
      let same : canary_reply fl js pr c req probes (fail_closed verdict.0) (verdict.1, verdict.2)
            recorded
          ≡ r =
        cc h in
      subst (IsRecorded db) same (
        reply-IsRecorded req probes (fail_closed verdict.0) (verdict.1, verdict.2) db recorded
          (canary-IsRecorded row_stamp event_stamp req probes db))

  pub probe_observation-IsRecorded :
      (row_stamp event_stamp : Stamp) (req : ProbeObservationRequest fl.F) (db : Db c.Text)
      (r : Result (Fields fl.F) × Db c.Text)
      → probe_observation fl js pr c row_stamp event_stamp req db ≡ some r
      → IsRecorded db r
  unfolding probe_observation
  probe_observation-IsRecorded row_stamp event_stamp req db r h =
      observe-IsRecorded row_stamp event_stamp req db r (canary_probes fl js pr req) h

  module _ (row_stamp event_stamp : Stamp) (req : ProbeObservationRequest fl.F)
      (db : Db c.Text) where
    -- A reply shows the outcome; of the table of canaries, it has kept the rows and has added at most one,
    -- with this outcome, for this provider. The delivery evidence is as it was.
    abbrev pub ShowsOutcome : String → Result (Fields fl.F) × Db c.Text → Type 0
    ShowsOutcome outcome (ok reply, db') =
        (db'.observations ≡ db.observations)
        × (get "state" reply ≡ some (text outcome))
        × ((db'.protocol_observations ≡ db.protocol_observations)
            ⊎ ((row : ProtocolObservation) × (db'.protocol_observations
                  ≡ db.protocol_observations ++ row ∷ [])
                × (row.service_id ≡ req.provider_id)
                × (row.outcome ≡ outcome)))
    ShowsOutcome outcome (err e, db') = (e ≡ integrity_error) × (db' ≡ db)

    reply-ShowsOutcome :
        (probes : List (ProbeResult fl.F)) (state : EvidenceState) (figures : fl.F × fl.F)
        (payload : Fields fl.F) (r : Result (Event fl.F × Bool) × Db c.Text)
        → decisive (state_value state) ≡ true
        → CanaryDone c row_stamp event_stamp (canary_record fl js pr c req state) payload db r
        → ShowsOutcome (state_value state) (canary_reply fl js pr c req probes state figures r)
    unfolding get
    reply-ShowsOutcome probes state figures payload (err value_error, db') d h =
        absurd (false≢true (sym h.0 ∙ d))
    reply-ShowsOutcome probes state figures payload (err integrity_error, db') d h = (refl, h.2)
    reply-ShowsOutcome probes state figures payload (ok (event, true), db') d h =
        let row = canary_row row_stamp (canary_record fl js pr c req state) in
        let grown : db'.protocol_observations ≡ db.protocol_observations ++ row ∷ [] =
          rw (← h.1) at h.2 in
        (h.3, refl, inr (row, grown, refl, refl))
    reply-ShowsOutcome probes state figures payload (ok (event, false), db') d h =
        let kept : db'.protocol_observations ≡ db.protocol_observations = rw (← h.1) at h.2 in
        (h.3, refl, inl kept)

    observe-ShowsOutcome :
        (probes : List (ProbeResult fl.F))
        → (r : Result (Fields fl.F) × Db c.Text) × (observe fl js pr c row_stamp event_stamp req db
              (some probes)
            ≡ some r)
          × ShowsOutcome (state_value (fail_closed (aggregate fl probes).0)) r
    unfolding record_canary
    observe-ShowsOutcome probes =
        let (state, score, confidence) = aggregate fl probes in
        let payload = canary_audit fl js pr c req probes (fail_closed state) (score, confidence) in
        (
          _,
          refl,
          reply-ShowsOutcome probes (fail_closed state) (score, confidence) payload _
              (fail_closed-decisive state)
              (record_protocol_observation_lem c row_stamp event_stamp
                (canary_record fl js pr c req (fail_closed state)) payload db),
        )

  fail_closed-judged_outcome :
      (probes : List (ProbeResult fl.F))
      → state_value (fail_closed (aggregate fl probes).0) ≡ judged_outcome probes
  unfolding aggregate
  fail_closed-judged_outcome probes =
      ap (λ state. state_value (fail_closed state)) (aggregate_state-eq-worst_of probes)
      ∙ worst_of-judged_outcome probes

  -- Once its probes have run, `probe_observation` ends in one of two ways. It replies, and then it has
  -- left the delivery evidence alone, the reply shows PASS if every probe passed and FAIL if any failed
  -- or was inconclusive, and the table of canaries has gained a row of the provider with that outcome,
  -- or nothing. Or the store raises `IntegrityError`, never `ValueError`, and nothing is changed.
  pub probe_observation_lem :
      (row_stamp event_stamp : Stamp) (req : ProbeObservationRequest fl.F) (db : Db c.Text)
      (probes : List (ProbeResult fl.F))
      → canary_probes fl js pr req ≡ some probes
      → (r : Result (Fields fl.F) × Db c.Text) × (probe_observation fl js pr c row_stamp event_stamp
            req db
          ≡ some r)
        × ShowsOutcome row_stamp event_stamp req db (judged_outcome probes) r
  unfolding probe_observation
  probe_observation_lem row_stamp event_stamp req db probes h =
      let (r, replied, shown) = observe-ShowsOutcome row_stamp event_stamp req db probes in
      (
        r,
        ap (observe fl js pr c row_stamp event_stamp req db) h ∙ replied,
        subst (λ outcome. ShowsOutcome row_stamp event_stamp req db outcome r)
            (fail_closed-judged_outcome probes) shown,
      )
