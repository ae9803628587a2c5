-- ===== src/Demo.antt =====
-- `scripts/arena_demo.py`: the demonstration of how evidence compounds. A failed `assert` is an exception.
-- Its printed story is left out.
pub mod Outcome
use Prim.Native.String.{◌++◌ as concat}
use counterparty_sharedos.Prelude.{
  ℕ, zero, suc, ◌+◌, ◌/◌, ◌%◌, ltb, leb, ◌==◌, Bool, true, false, not, ◌&&◌, ◌||◌, Option, none,
  some, List, [], ◌∷◌, map, any, all, length, get_or, String, str_eq, if◌then◌else◌,
}
use counterparty_sharedos.Prelude.Int.{pos}
use counterparty_sharedos.Floats.{Floats}
use counterparty_sharedos.Json.{
  Json, Fields, null, bool, int, text, arr, obj, nil, cons, end, field, get, Codec,
}
use counterparty_sharedos.Models.{
  Assertion, eq, safe, DeliveryVerificationRequest, ProbeObservationRequest, CandidateRequest,
  BestExecutionRequest, TrustSnapshotRequest,
}
use counterparty_sharedos.Probes.{Jsonschema, Printer}
use counterparty_sharedos.Audit.{Stamp, verify_audit, audit_head}
use counterparty_sharedos.Store.{Db, Result, ok, err}
use counterparty_sharedos.BestExecution.{best_execution}
use counterparty_sharedos.TrustSnapshot.{trust_snapshot}
use counterparty_sharedos.Delivery.{verify_delivery}
use counterparty_sharedos.Canaries.{probe_observation}
use counterparty_sharedos.Requests.{distinct}
use counterparty_sharedos.Stress.{is_true}
use counterparty_sharedos.Driver.{
  Session, Script, ◌>>=◌, canary_of, alpha_seller, offer, post_probe, post_delivery, post_snapshot,
  post_route, promote, unless_failed, delivery, checked_audit, is_text, or_null,
}

-- what the demonstration keeps
pub record Demo (F : Type 0) : Type 0 where
  pub initial_a : Fields F
  pub initial_b : Fields F
  pub canary_a : Fields F
  pub canary_b : Fields F
  pub after_canary_a : Fields F
  pub after_canary_b : Fields F
  pub provisional_route : Fields F
  pub promotion_deliveries : ℕ
  pub mature_a : Fields F
  pub verified_route : Fields F
  pub audit : ℕ × String

module _ {F : Type 0} where
  abbrev pub canary_a_request : ProbeObservationRequest F
  canary_a_request =
      canary_of "arena-probe-alpha" "seller-alpha" "arena-alpha-12345678" "arena-alpha-12345678" 84

  abbrev pub canary_b_request : ProbeObservationRequest F
  canary_b_request =
      canary_of "arena-probe-beta" "seller-beta" "arena-beta-12345678" "wrong-nonce" 61

  -- `reply[key] == value`
  abbrev pub shows : String → String → Fields F → Bool
  shows key value reply = is_text value (get key reply)

  unfoldable pub demo_json : Demo F → Json F
  unfolding get
  demo_json d = obj (
      field "product" (text "Counterparty") (
        field "story" (text "UNPROVEN -> active canary -> TRY_SMALL -> verified deliveries -> BUY")
          (field "before"
            (obj (
              field "seller_alpha" (or_null (get "verdict" d.initial_a))
                (field "seller_beta" (or_null (get "verdict" d.initial_b)) end)))
            (field "fresh_canary"
              (obj (
                field "seller_alpha" (or_null (get "state" d.canary_a))
                  (field "seller_beta" (or_null (get "state" d.canary_b)) end)))
              (field "after_canary"
                (obj (
                  field "seller_alpha" (or_null (get "verdict" d.after_canary_a)) (
                    field "seller_beta" (or_null (get "verdict" d.after_canary_b)) (
                      field "safe_route" (or_null (get "recommended" d.provisional_route)) (
                        field "route_tier" (or_null (get "evidence_tier" d.provisional_route))
                          end)))))
                (field "after_verified_market_history"
                  (obj (
                    field "seller_alpha" (or_null (get "verdict" d.mature_a)) (
                      field "verified_observations" (or_null (get "observations" d.mature_a)) (
                        field "promotion_deliveries" (int (pos d.promotion_deliveries)) (
                          field "safe_route" (or_null (get "recommended" d.verified_route)) (
                            field "route_tier" (or_null (get "evidence_tier" d.verified_route))
                              end))))))
                  (field "audit"
                    (obj (field "count" (int (pos d.audit.0)) (field "head" (text d.audit.1) end)))
                    (field "audit_valid" (bool true) end))))))))

abbrev pub beta_seller : TrustSnapshotRequest
beta_seller = record { service_id = "seller-beta"; task_type = "general" }

module _ (fl : Floats) (js : Jsonschema fl.F) (pr : Printer fl.F) (c : Codec fl.F)
    (stamps : ℕ → Stamp) (latency : ℕ → ℕ) where
  abbrev pub research : BestExecutionRequest fl.F
  research = record {
    task = "research a time-sensitive fact";
    task_type = "general";
    budget_credits = 20;
    candidates =
        offer fl js pr c stamps latency "seller-alpha" 8 (fl.lit 9 1)
        ∷ offer fl js pr c stamps latency "seller-beta" 6 (fl.lit 9 1)
        ∷ offer fl js pr c stamps latency "seller-gamma" 3 (fl.lit 10 1)
        ∷ [];
    mode = safe;
  }

  abbrev pub bounded_task : BestExecutionRequest fl.F
  bounded_task = record {
    task = "bounded paid task";
    task_type = "general";
    budget_credits = 20;
    candidates =
        offer fl js pr c stamps latency "seller-alpha" 8 (fl.lit 9 1)
        ∷ offer fl js pr c stamps latency "seller-gamma" 3 (fl.lit 10 1)
        ∷ [];
    mode = safe;
  }

  -- the two sellers after their canaries
  abbrev pub both_judged : Fields fl.F → Fields fl.F → Bool
  both_judged after_a after_b =
      shows "verdict" "TRY_SMALL" after_a
      && shows "evidence_tier" "PROVISIONAL" after_a
      && shows "verdict" "AVOID" after_b
      && shows "evidence_tier" "REJECTED" after_b

  abbrev pub is_provisional : Fields fl.F → Bool
  is_provisional route =
      shows "state" "PASS" route
      && shows "recommended" "seller-alpha" route
      && shows "evidence_tier" "PROVISIONAL" route

  abbrev pub is_mature : ℕ × Fields fl.F → Bool
  is_mature (made, snapshot) =
      shows "verdict" "BUY" snapshot
      && shows "evidence_tier" "VERIFIED" snapshot
      && leb 1 made
      && leb made 32

  abbrev pub is_verified : Fields fl.F → Bool
  is_verified route =
      shows "recommended" "seller-alpha" route && shows "evidence_tier" "VERIFIED" route

  abbrev pub demo_of :
      Fields fl.F
      → Fields fl.F
      → Fields fl.F
      → Fields fl.F
      → Fields fl.F
      → Fields fl.F
      → Fields fl.F
      → ℕ × Fields fl.F
      → Fields fl.F
      → ℕ × String
      → Demo fl.F
  demo_of initial_a initial_b canary_a canary_b after_a after_b route (made, mature) verified head =
      record {
        initial_a = initial_a;
        initial_b = initial_b;
        canary_a = canary_a;
        canary_b = canary_b;
        after_canary_a = after_a;
        after_canary_b = after_b;
        provisional_route = route;
        promotion_deliveries = made;
        mature_a = mature;
        verified_route = verified;
        audit = head;
      }

  -- what comes after the loop
  unfoldable pub close :
      Fields fl.F
      → Fields fl.F
      → Fields fl.F
      → Fields fl.F
      → Fields fl.F
      → Fields fl.F
      → Fields fl.F
      → ℕ × Fields fl.F
      → Script (Db c.Text) (Demo fl.F)
  unfolding get best_execution verify_audit audit_head
  close initial_a initial_b canary_a canary_b after_canary_a after_canary_b provisional_route
        promoted =
      unless_failed (is_mature promoted) (do
        verified_route ← post_route fl js pr c stamps latency bounded_task
        unless_failed (is_verified verified_route) (do
          valid ← checked_audit fl js pr c stamps latency
          unless_failed valid (λ s. some (
            demo_of initial_a initial_b canary_a canary_b after_canary_a after_canary_b
                provisional_route promoted verified_route (audit_head c s.db.audit_events),
            s,
          ))))

  unfoldable pub run_demo : Script (Db c.Text) (Demo fl.F)
  unfolding promote close get probe_observation trust_snapshot best_execution
  run_demo = do
    initial_a ← post_snapshot fl js pr c stamps latency alpha_seller
    initial_b ← post_snapshot fl js pr c stamps latency beta_seller
    unless_failed (shows "verdict" "UNPROVEN" initial_a && shows "verdict" "UNPROVEN" initial_b) (do
      canary_a ← post_probe fl js pr c stamps latency canary_a_request
      unless_failed (shows "state" "PASS" canary_a) (do
        canary_b ← post_probe fl js pr c stamps latency canary_b_request
        unless_failed (shows "state" "FAIL" canary_b) (do
          after_a ← post_snapshot fl js pr c stamps latency alpha_seller
          after_b ← post_snapshot fl js pr c stamps latency beta_seller
          unless_failed (both_judged after_a after_b) (do
            route ← post_route fl js pr c stamps latency research
            unless_failed (is_provisional route) (do
              promoted ←
                  promote fl js pr c stamps latency "arena-paid-alpha-" "bounded paid task" 32 0
                    after_a
              close initial_a initial_b canary_a canary_b after_a after_b route promoted)))))
