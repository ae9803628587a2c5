-- ===== src/Rehearsal.antt =====
-- `scripts/arena_rehearsal.py`: two rounds of the Arena against the service.
pub mod Report
pub mod Outcome
use Prim.Native.String.{◌++◌ as concat}
use counterparty_sharedos.Prelude.{
  ℕ, zero, suc, ◌+◌, ◌/◌, ◌%◌, ltb, leb, ◌==◌, Bool, true, false, not, ◌&&◌, ◌||◌, Option, none,
  some, List, [], ◌∷◌, map, any, all, length, get_or, String, str_eq, if◌then◌else◌,
}
use counterparty_sharedos.Prelude.Int.{pos}
use counterparty_sharedos.Floats.{Floats}
use counterparty_sharedos.Json.{
  Json, Fields, null, bool, int, text, arr, obj, nil, cons, end, field, get, Codec,
}
use counterparty_sharedos.Models.{
  Assertion, eq, safe, DeliveryVerificationRequest, ProbeObservationRequest, CandidateRequest,
  BestExecutionRequest, TrustSnapshotRequest,
}
use counterparty_sharedos.Probes.{Jsonschema, Printer}
use counterparty_sharedos.Audit.{Stamp, verify_audit, audit_head}
use counterparty_sharedos.Store.{Db, Result, ok, err}
use counterparty_sharedos.BestExecution.{best_execution}
use counterparty_sharedos.TrustSnapshot.{trust_snapshot}
use counterparty_sharedos.Delivery.{verify_delivery}
use counterparty_sharedos.Canaries.{probe_observation}
use counterparty_sharedos.Requests.{distinct}
use counterparty_sharedos.Stress.{is_true}
use counterparty_sharedos.Driver.{
  Session, Script, ◌>>=◌, canary_of, alpha_seller, offer, post_probe, post_delivery, post_snapshot,
  post_route, promote, checked_audit, is_text, or_null,
}

module _ {F : Type 0} where
  abbrev pub alpha_canary : ProbeObservationRequest F
  alpha_canary =
      canary_of "rehearsal-alpha" "seller-alpha" "rehearsal-alpha-nonce" "rehearsal-alpha-nonce" 80

  abbrev pub beta_canary : ProbeObservationRequest F
  beta_canary =
      canary_of "rehearsal-beta" "seller-beta" "rehearsal-beta-nonce" "wrong-beta-nonce" 20

-- what the script keeps
pub record Rehearsed (F : Type 0) : Type 0 where
  pub alpha_probe : Fields F
  pub beta_probe : Fields F
  pub first_route : Fields F
  pub deliveries : ℕ
  pub snapshot : Fields F
  pub final_route : Fields F
  pub audit_valid : Bool
  pub audit_events : ℕ

module _ (fl : Floats) (js : Jsonschema fl.F) (pr : Printer fl.F) (c : Codec fl.F)
    (stamps : ℕ → Stamp) (latency : ℕ → ℕ) where
  abbrev pub purchase : BestExecutionRequest fl.F
  purchase = record {
    task = "buy a bounded service";
    task_type = "general";
    budget_credits = 20;
    candidates =
        offer fl js pr c stamps latency "seller-alpha" 8 (fl.lit 9 1)
        ∷ offer fl js pr c stamps latency "seller-beta" 1 (fl.lit 10 1)
        ∷ offer fl js pr c stamps latency "seller-gamma" 3 (fl.lit 95 2)
        ∷ [];
    mode = safe;
  }

  abbrev pub rehearsed :
      Fields fl.F
      → Fields fl.F
      → Fields fl.F
      → ℕ × Fields fl.F
      → Fields fl.F
      → Bool
      → ℕ
      → Rehearsed fl.F
  rehearsed alpha_probe beta_probe first_route (deliveries, snapshot) final_route audit_valid
        audit_events =
      record {
        alpha_probe = alpha_probe;
        beta_probe = beta_probe;
        first_route = first_route;
        deliveries = deliveries;
        snapshot = snapshot;
        final_route = final_route;
        audit_valid = audit_valid;
        audit_events = audit_events;
      }

  -- what comes after the loop
  unfoldable pub finish :
      Fields fl.F
      → Fields fl.F
      → Fields fl.F
      → ℕ × Fields fl.F
      → Script (Db c.Text) (Rehearsed fl.F)
  unfolding best_execution verify_audit audit_head
  finish alpha_probe beta_probe first_route promoted = do
    final_route ← post_route fl js pr c stamps latency purchase
    audit_valid ← checked_audit fl js pr c stamps latency
    λ s. some (
      rehearsed alpha_probe beta_probe first_route promoted final_route audit_valid
          (audit_head c s.db.audit_events).0,
      s,
    )

  unfoldable pub rehearse : Script (Db c.Text) (Rehearsed fl.F)
  unfolding promote finish probe_observation trust_snapshot best_execution
  rehearse = do
    alpha_probe ← post_probe fl js pr c stamps latency alpha_canary
    beta_probe ← post_probe fl js pr c stamps latency beta_canary
    first_route ← post_route fl js pr c stamps latency purchase
    snapshot ← post_snapshot fl js pr c stamps latency alpha_seller
    promoted ←
        promote fl js pr c stamps latency "rehearsal-delivery-" "return ok=true" 32 0 snapshot
    finish alpha_probe beta_probe first_route promoted
