-- ===== src/Stress/Once.antt =====
-- A replayed delivery counts once.
use mathlib.Core.Path.{subst}
use counterparty_sharedos.Prelude.{
  ℕ, suc, ◌≡◌, ◌⊎◌, inl, inr, refl, sym, ap, ◌∙◌, Bool, true, false, Option, none, some, List, [],
  ◌∷◌, any, if◌then◌else◌,
}
use counterparty_sharedos.Floats.{Floats}
use counterparty_sharedos.Json.{get, Codec}
use counterparty_sharedos.Models.{
  EvidenceState, pass, fail, inconclusive, state_value, ProbeResult, DeliveryVerificationRequest,
}
use counterparty_sharedos.Probes.{Jsonschema, Printer}
use counterparty_sharedos.Verification.{aggregate}
use counterparty_sharedos.Audit.{Event}
use counterparty_sharedos.Tables.{decisive}
use counterparty_sharedos.Store.{Db, Result, ok, err, Verification, record_verification}
use counterparty_sharedos.Store.Ledger.{
  Ledger, holds, enter, submit, holds-enter, holds_latency, submit_held, submit_new,
}
use counterparty_sharedos.Store.Ledger.Refines.{
  view, is_fresh, LedgerDone, record_verification-refines,
}
use counterparty_sharedos.Delivery.{
  is_decided, is_eligible, delivery_probes, delivery_reply, delivery_row, delivery_audit, deliver,
  record_delivery, verify_delivery,
}
use counterparty_sharedos.Reputation.{observations}
use counterparty_sharedos.Store.Query.{reputation}
use counterparty_sharedos.Store.Ledger.{standing, standing-enter}
use counterparty_sharedos.Store.Ledger.Refines.{standing-view}
use counterparty_sharedos.Prelude.{◌+◌, str_eq_refl, arith}
use counterparty_sharedos.Stress.{
  Attempt, is_update, is_reply, updates, flag_of, db_after, attempt, storm, HasFreshAttempts,
}

module _ (fl : Floats) (js : Jsonschema fl.F) (pr : Printer fl.F) (c : Codec fl.F)
    (req : DeliveryVerificationRequest fl.F) where
  is_decided-decisive :
      (state : EvidenceState) → is_decided state ≡ true → decisive (state_value state) ≡ true
  is_decided-decisive pass h = refl
  is_decided-decisive fail h = refl
  is_decided-decisive inconclusive h = absurd (cc h)

  module _ (probes : List (ProbeResult fl.F)) where
    -- the delivery that the requests submit, with the latency of one of them
    abbrev pub delivered : ℕ → Verification
    delivered latency_ms = delivery_row fl js pr c req (aggregate fl probes).0 latency_ms

    -- how an attempt may end
    abbrev Attempted : Verification → Ledger → Option Bool → Ledger → Type 0
    Attempted v before flag after =
        ((flag ≡ none) × (after ≡ before))
        ⊎ ((flag ≡ some (submit v true before).1) × (after ≡ (submit v true before).0))

    held_attempt :
        (v : Verification) (before : Ledger) (flag : Option Bool) (after : Ledger)
        → holds v before ≡ true
        → Attempted v before flag after
        → (is_update flag ≡ false) × (after ≡ before)
    held_attempt v before flag after h (inl (e, same)) = (ap is_update e, same)
    held_attempt v before flag after h (inr (e, same)) =
        let held = submit_held v before h in
        (ap is_update e ∙ ap (λ p. p.1) held, same ∙ ap (λ p. p.0) held)

    new_attempt :
        (v : Verification) (before : Ledger) (flag : Option Bool) (after : Ledger)
        → decisive v.outcome ≡ true
        → holds v before ≡ false
        → Attempted v before flag after
        → ((flag ≡ none) × (after ≡ before)) ⊎ ((flag ≡ some true) × (after ≡ enter v before))
    new_attempt v before flag after d h (inl done) = inl done
    new_attempt v before flag after d h (inr (e, same)) =
        let new = submit_new v before d h in
        inr (e ∙ ap (λ p. some p.1) new, same ∙ ap (λ p. p.0) new)

    reply-Attempted :
        (v : Verification) (before : Ledger) (db : Db c.Text)
        (r : Result (Event fl.F × Bool) × Db c.Text)
        → LedgerDone c v true before r
        → let o = some (delivery_reply fl js pr c req probes (aggregate fl probes) r) in
          Attempted v before (flag_of o) (view (db_after db o).observations)
    unfolding flag_of get
    reply-Attempted v before db (err e, db') done = inl (refl, done)
    reply-Attempted v before db (ok (event, updated), db') done =
        inr (ap (λ p. some p.1) done, ap (λ p. p.0) done)

    -- an attempt whose probes ran is the store's call and the reply to it
    attempt_lem :
        (a : Attempt) (db : Db c.Text)
        → delivery_probes fl js pr req ≡ some probes
        → attempt fl js pr c req a db
          ≡ some (
              delivery_reply fl js pr c req probes
                (aggregate fl probes)
                (record_delivery fl js pr c a.row_stamp a.event_stamp a.latency_ms req probes db))
    unfolding verify_delivery
    attempt_lem a db e = ap (deliver fl js pr c a.row_stamp a.event_stamp a.latency_ms req db) e

    record_delivery_lem :
        (a : Attempt) (db : Db c.Text)
        → is_eligible req.expected_schema req.assertions ≡ true
        → record_delivery fl js pr c a.row_stamp a.event_stamp a.latency_ms req probes db
          ≡ record_verification c a.row_stamp a.event_stamp
              (delivered a.latency_ms)
              (delivery_audit fl js pr c req probes (aggregate fl probes))
              true
              db
    unfolding record_delivery
    record_delivery_lem a db eligible =
        ap
          (λ b.
            record_verification c a.row_stamp a.event_stamp (delivered a.latency_ms)
              (delivery_audit fl js pr c req probes (aggregate fl probes)) b db)
          eligible

    attempt-Attempted :
        (a : Attempt) (db : Db c.Text)
        → delivery_probes fl js pr req ≡ some probes
        → is_eligible req.expected_schema req.assertions ≡ true
        → is_fresh a.row_stamp db.observations ≡ true
        → Attempted
            (delivered a.latency_ms)
            (view db.observations)
            (flag_of (attempt fl js pr c req a db))
            (view (db_after db (attempt fl js pr c req a db)).observations)
    attempt-Attempted a db e eligible fresh =
        let v = delivered a.latency_ms in
        let payload = delivery_audit fl js pr c req probes (aggregate fl probes) in
        let r = record_verification c a.row_stamp a.event_stamp v payload true db in
        subst
          (λ o. Attempted v (view db.observations) (flag_of o) (view (db_after db o).observations))
          (sym (
            attempt_lem a db e
            ∙ ap (λ r. some (delivery_reply fl js pr c req probes (aggregate fl probes) r))
                (record_delivery_lem a db eligible)))
          (reply-Attempted v (view db.observations) db r
            (record_verification-refines c a.row_stamp a.event_stamp v payload true db "" ""
              fresh).0)

    storm_held :
        (attempts : List Attempt) (db : Db c.Text) (latency_ms : ℕ)
        → delivery_probes fl js pr req ≡ some probes
        → is_eligible req.expected_schema req.assertions ≡ true
        → HasFreshAttempts fl js pr c req attempts db
        → holds (delivered latency_ms) (view db.observations) ≡ true
        → let (replies, after) = storm fl js pr c req attempts db in
          (updates replies ≡ 0) × (view after.observations ≡ view db.observations)
    unfolding storm updates
    storm_held [] db latency_ms e eligible fresh h = (refl, refl)
    storm_held (a ∷ attempts) db latency_ms e eligible fresh h =
        let (quiet, same) =
          held_attempt (delivered a.latency_ms) (view db.observations)
            (flag_of (attempt fl js pr c req a db)) _
            (holds_latency (delivered latency_ms) (some a.latency_ms) (view db.observations) ∙ h)
            (attempt-Attempted a db e eligible fresh.0) in
        let (none_more, rest) =
          storm_held attempts (db_after db (attempt fl js pr c req a db)) latency_ms e eligible
            fresh.1 (ap (holds (delivered latency_ms)) same ∙ h) in
        (rw (quiet) none_more, rest ∙ same)

    -- what the ledger has gained
    abbrev pub GainedOnce : Bool → Ledger → Ledger → Type 0
    GainedOnce false before after = after ≡ before
    GainedOnce true before after = (latency_ms : ℕ) × (after ≡ enter (delivered latency_ms) before)

    storm_lem :
        (attempts : List Attempt) (db : Db c.Text)
        → delivery_probes fl js pr req ≡ some probes
        → is_decided (aggregate fl probes).0 ≡ true
        → is_eligible req.expected_schema req.assertions ≡ true
        → HasFreshAttempts fl js pr c req attempts db
        → holds (delivered 0) (view db.observations) ≡ false
        → let (replies, after) = storm fl js pr c req attempts db in
          (updates replies ≡ (if any is_reply replies then 1 else 0))
          × GainedOnce (any is_reply replies) (view db.observations) (view after.observations)
    unfolding storm updates
    storm_lem [] db e d eligible fresh h = (refl, refl)
    storm_lem (a ∷ attempts) db e d eligible fresh h =
        let ledger = view db.observations in
        let v = delivered a.latency_ms in
        let next = db_after db (attempt fl js pr c req a db) in
        elim (new_attempt v ledger (flag_of (attempt fl js pr c req a db)) (view next.observations)
          (is_decided-decisive (aggregate fl probes).0 d)
          (holds_latency (delivered 0) (some a.latency_ms) ledger ∙ h)
          (attempt-Attempted a db e eligible fresh.0)) [
            | inl (raised, same) ↦
                let rest =
                  storm_lem attempts next e d eligible fresh.1
                    (ap (holds (delivered 0)) same ∙ h) in
                (
                  rw (raised) (rest.0),
                  rw (raised) (
                      subst
                        (λ l.
                          GainedOnce (any is_reply (storm fl js pr c req attempts next).0) l
                            (view (storm fl js pr c req attempts next).1.observations))
                        same rest.1),
                )
            | inr (new, entered) ↦
                let rest =
                  storm_held attempts next a.latency_ms e eligible fresh.1
                    (ap (holds v) entered ∙ holds-enter v ledger) in
                (rw (new) (ap suc rest.0), rw (new) (a.latency_ms, rest.1 ∙ entered))
          ]

    gained :
        (answered : Bool) (before after : Ledger)
        → decisive (state_value (aggregate fl probes).0) ≡ true
        → GainedOnce answered before after
        → observations (standing req.provider_id req.task_type after).0
          ≡ observations (standing req.provider_id req.task_type before).0
            + (if answered then 1 else 0)
    gained false before after d same = rw (same) (omega arith)
    gained true before after d (latency_ms, entered) =
        let v = delivered latency_ms in
        let one_more =
          standing-enter req.provider_id req.task_type v d
            (rw (str_eq_refl req.provider_id, str_eq_refl req.task_type)) before in
        rw (entered, one_more) (omega arith)

    -- When a delivery whose probes run, that ends in PASS or FAIL, comes with a schema and assertions
    -- and is new to the table, is sent again and again, each time with a fresh row id, some requests
    -- raising and some replying, then: exactly one reply reports a reputation update if there is any
    -- reply, and none does otherwise; the ledger has gained the delivery once, or nothing; and the
    -- provider's reputation for the task type has one observation more, or as many as before.
    pub replay_storm :
        (attempts : List Attempt) (db : Db c.Text)
        → delivery_probes fl js pr req ≡ some probes
        → is_decided (aggregate fl probes).0 ≡ true
        → is_eligible req.expected_schema req.assertions ≡ true
        → HasFreshAttempts fl js pr c req attempts db
        → holds (delivered 0) (view db.observations) ≡ false
        → let (replies, after) = storm fl js pr c req attempts db in
          let once : ℕ = if any is_reply replies then 1 else 0 in
          (updates replies ≡ once)
          × GainedOnce (any is_reply replies) (view db.observations) (view after.observations)
          × (observations (reputation req.provider_id req.task_type after.observations).0
              ≡ observations (reputation req.provider_id req.task_type db.observations).0 + once)
    replay_storm attempts db e d eligible fresh h =
        let (replies, after) = storm fl js pr c req attempts db in
        let (counted, once) = storm_lem attempts db e d eligible fresh h in
        (
          counted,
          once,
          rw
              (
                standing-view req.provider_id req.task_type after.observations,
                standing-view req.provider_id req.task_type db.observations,
              )
              (gained (any is_reply replies) (view db.observations) (view after.observations)
                (is_decided-decisive (aggregate fl probes).0 d) once),
        )
