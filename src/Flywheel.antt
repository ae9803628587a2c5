-- ===== src/Flywheel.antt =====
-- The handlers of `counterparty/app.py` one after the other: a first canary, and then a trust snapshot.
use counterparty_sharedos.Prelude.{
  ◌+◌, ◌≡◌, ◌⊎◌, sym, ap, ◌∙◌, inl, inr, Bool, true, false, Option, none, some, List, [], ◌∷◌, ◌++◌,
  String, str_eq, str_eq_refl, if◌then◌else◌, arith,
}
use mathlib.Core.Path.{subst}
use counterparty_sharedos.Floats.{Floats}
use counterparty_sharedos.Json.{Fields, bool, text, get, Codec}
use counterparty_sharedos.Models.{
  EvidenceState, pass, fail, inconclusive, state_value, ProbeResult, ProbeObservationRequest,
  rejected, provisional,
}
use counterparty_sharedos.Probes.{Jsonschema, Printer}
use counterparty_sharedos.Reputation.{BayesianReputation, observations}
use counterparty_sharedos.Audit.{Event, Stamp}
use counterparty_sharedos.Store.{Db, Result, ok, err, canary_row}
use counterparty_sharedos.Store.Query.{reputation, protocol_reputation}
use counterparty_sharedos.Store.Order.{protocol_reputation-snoc}
use counterparty_sharedos.Store.Writes.{CanaryDone, record_protocol_observation_lem}
use counterparty_sharedos.Verification.{aggregate}
use counterparty_sharedos.Canaries.{
  fail_closed, canary_probes, canary_reply, canary_record, canary_audit, observe, record_canary,
  probe_observation,
}
use counterparty_sharedos.TrustSnapshot.{
  verdict, canary_verdict, snapshot_tier, try_small, avoid, skip, buy_small_then_verify,
}

module _ (fl : Floats) where
  -- what a snapshot says after a first canary that ended in this state
  abbrev pub SnapshotAfter : EvidenceState → BayesianReputation → BayesianReputation → Type 0
  SnapshotAfter pass rep protocol_rep =
      (verdict fl rep protocol_rep ≡ (try_small, buy_small_then_verify))
      × (snapshot_tier rep protocol_rep ≡ provisional)
  SnapshotAfter _ rep protocol_rep =
      (verdict fl rep protocol_rep ≡ (avoid, skip)) × (snapshot_tier rep protocol_rep ≡ rejected)

  snapshot_after :
      (state : EvidenceState) (rep before : BayesianReputation)
      → observations rep ≡ 0
      → observations before ≡ 0
      → SnapshotAfter (fail_closed state) rep record {
        successes =
            (if str_eq (state_value (fail_closed state)) "PASS" then 1 else 0) + before.successes;
        failures =
            (if str_eq (state_value (fail_closed state)) "FAIL" then 1 else 0) + before.failures;
      }
  unfolding verdict canary_verdict snapshot_tier observations
  snapshot_after pass rep before h k = (ground arith, ground arith)
  snapshot_after fail rep before h k = (ground arith, ground arith)
  snapshot_after inconclusive rep before h k = (ground arith, ground arith)

  -- the state that a reply shows, and what a snapshot says after it
  abbrev pub Decided : Fields fl.F → BayesianReputation → BayesianReputation → Type 0
  Decided reply rep protocol_rep =
      ((get "state" reply ≡ some (text "PASS")) × SnapshotAfter pass rep protocol_rep)
      ⊎ ((get "state" reply ≡ some (text "FAIL")) × SnapshotAfter fail rep protocol_rep)

  state-Decided :
      (state : EvidenceState) (reply : Fields fl.F) (rep protocol_rep : BayesianReputation)
      → get "state" reply ≡ some (text (state_value (fail_closed state)))
      → SnapshotAfter (fail_closed state) rep protocol_rep
      → Decided reply rep protocol_rep
  state-Decided pass reply rep protocol_rep e h = inl (e, h)
  state-Decided fail reply rep protocol_rep e h = inr (e, h)
  state-Decided inconclusive reply rep protocol_rep e h = inr (e, h)

returned_same :
    {A D : Type 0} (a b : A) (d e : D)
    → ◌≡◌ {A = Result A × D} (ok a, d) (ok b, e)
    → (a ≡ b) × (d ≡ e)
returned_same a b d e h = (cc h, cc h)

module _ (fl : Floats) (js : Jsonschema fl.F) (pr : Printer fl.F) (c : Codec fl.F) where
  -- the two reputations that a snapshot reads in a database
  abbrev pub DecidedIn : ProbeObservationRequest fl.F → String → Fields fl.F → Db c.Text → Type 0
  DecidedIn req task_type reply after =
      Decided fl reply (reputation req.provider_id task_type after.observations).0
        (protocol_reputation req.provider_id after.protocol_observations).0

  module _ (row_stamp event_stamp : Stamp) (req : ProbeObservationRequest fl.F) (task_type : String)
      (db : Db c.Text)
      (no_deliveries : observations (reputation req.provider_id task_type db.observations).0 ≡ 0)
      (no_canaries : observations (protocol_reputation req.provider_id db.protocol_observations).0
        ≡ 0) where
    recorded_decides :
        (state : EvidenceState) (payload : Fields fl.F) (reply : Fields fl.F) (event : Event fl.F)
        (after : Db c.Text)
        → get "state" reply ≡ some (text (state_value (fail_closed state)))
        → CanaryDone c row_stamp event_stamp
            (canary_record fl js pr c req (fail_closed state))
            payload
            db
            (ok (event, true), after)
        → DecidedIn req task_type reply after
    recorded_decides state payload reply event after e (known, counted, table, other, appended) =
        let row = canary_row row_stamp (canary_record fl js pr c req (fail_closed state)) in
        let grown : after.protocol_observations ≡ db.protocol_observations ++ row ∷ [] =
          rw (← counted) at table in
        state-Decided fl state reply _ _ e (
          rw
            (
              other,
              grown,
              protocol_reputation-snoc req.provider_id row db.protocol_observations
                  (str_eq_refl req.provider_id),
            )
            (snapshot_after fl state _ _ no_deliveries no_canaries))

    reply_decides :
        (probes : List (ProbeResult fl.F)) (state : EvidenceState) (figures : fl.F × fl.F)
        (payload : Fields fl.F) (r : Result (Event fl.F × Bool) × Db c.Text) (reply : Fields fl.F)
        (after : Db c.Text)
        → canary_reply fl js pr c req probes (fail_closed state) figures r ≡ (ok reply, after)
        → get "protocol_reputation_updated" reply ≡ some (bool true)
        → CanaryDone c row_stamp event_stamp
            (canary_record fl js pr c req (fail_closed state))
            payload
            db
            r
        → DecidedIn req task_type reply after
    unfolding get
    reply_decides probes state figures payload (err e, db') reply after h u done = absurd (cc h)
    reply_decides probes state figures payload (ok (event, true), db') reply after h u done =
        let (same, same_db) = returned_same _ reply db' after h in
        recorded_decides state payload reply event after (ap (get "state") (sym same)) (
          subst
            (λ d.
              CanaryDone c row_stamp event_stamp (canary_record fl js pr c req (fail_closed state))
                payload db (ok (event, true), d))
            same_db done)
    reply_decides probes state figures payload (ok (event, false), db') reply after h u done =
        let (same, _) = returned_same _ reply db' after h in
        let shown : some (bool false) ≡ some (bool true) =
          ap (get "protocol_reputation_updated") same ∙ u in
        absurd (cc shown)

    observe_decides :
        (reply : Fields fl.F) (after : Db c.Text) (o : Option (List (ProbeResult fl.F)))
        → observe fl js pr c row_stamp event_stamp req db o ≡ some (ok reply, after)
        → get "protocol_reputation_updated" reply ≡ some (bool true)
        → DecidedIn req task_type reply after
    unfolding record_canary
    observe_decides reply after none h u = absurd (cc h)
    observe_decides reply after (some probes) h u =
        let (state, score, confidence) = aggregate fl probes in
        let payload = canary_audit fl js pr c req probes (fail_closed state) (score, confidence) in
        reply_decides probes state (score, confidence) payload _ reply after (cc h) u
          (record_protocol_observation_lem c row_stamp event_stamp
            (canary_record fl js pr c req (fail_closed state)) payload db)

    -- After a first canary of a provider that has no deliveries for the task and no canaries yet, where
    -- `probe_observation` replies that the protocol reputation was updated: the reply shows PASS and a
    -- trust snapshot then says TRY_SMALL with BUY_SMALL_THEN_VERIFY and the tier PROVISIONAL, or the
    -- reply shows FAIL and the snapshot says AVOID with SKIP and the tier REJECTED.
    pub first_canary_decides :
        (reply : Fields fl.F) (after : Db c.Text)
        → probe_observation fl js pr c row_stamp event_stamp req db ≡ some (ok reply, after)
        → get "protocol_reputation_updated" reply ≡ some (bool true)
        → DecidedIn req task_type reply after
    unfolding probe_observation
    first_canary_decides reply after h u =
        observe_decides reply after (canary_probes fl js pr req) h u
