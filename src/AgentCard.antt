-- ===== src/AgentCard.antt =====
-- The public documents of `counterparty/app.py`: the services, `/health` and the agent card.
use counterparty_sharedos.Prelude.{ℕ, true, List, [], ◌∷◌, String}
use counterparty_sharedos.Prelude.Int.{pos}
use counterparty_sharedos.Json.{
  Json, Items, Fields, Codec, bool, int, text, arr, obj, nil, cons, end, field,
}
use counterparty_sharedos.Audit.{AuditRow}
use counterparty_sharedos.Ingress.{health}
use counterparty_sharedos.Environment.{Environment, getenv}

abbrev pub purpose : String
purpose = "counterparty.verify-and-route-sharednet-services"

-- the version that the application gives, and that the scripts ask for
abbrev pub version : String
version = "0.3.0"

module _ {F : Type 0} where
  -- a list of texts
  abbrev pub text_items : List String → Items F
  text_items [] = nil
  text_items (s ∷ ss) = cons (text s) (text_items ss)

  abbrev pub service : String → ℕ → String → Fields F → Fields F → Json F
  service name price_credits description input output = obj (
      field "name" (text name) (
        field "price_credits" (int (pos price_credits)) (
          field "description" (text description)
            (field "input" (obj input) (field "output" (obj output) end)))))

  unfoldable pub services : Items F
  services =
      cons
        (service "trust_snapshot" 4
          "Active pre-purchase trust check: under SharedOS, Counterparty canary-tests the seller with a bounded Probe turn, then combines fresh protocol proof with server-owned delivery reputation."
          (field "service_id" (text "SharedNet service ID")
            (field "task_type" (text "optional task class") end))
          (field "trust_score" (text "0-100") (
            field "confidence" (text "0-1") (
              field "verdict" (text "BUY|TRY_SMALL|CAUTION|UNPROVEN|AVOID") (
                field "fresh_probe" (text "SharedOS-host metadata when active probing runs")
                  end)))))
        (cons
          (service "verify_delivery" 7
            "Verify a service delivery using JSON Schema, deterministic assertions, manipulation checks, and strict PASS/FAIL/INCONCLUSIVE semantics."
            (field "delivery_id" (text "immutable SharedNet delivery ID") end)
            (field "state" (text "PASS|FAIL|INCONCLUSIVE")
              (field "probes" (text "evidence[]") (field "audit_receipt" (text "sha256") end))))
          (cons
            (service "best_execution" 10
              "Rank candidate agent services by expected utility using task evidence first and bounded protocol-canary evidence for safe cold-start routing."
              (field "task" (text "string") (
                field "budget_credits" (text "int")
                  (field "candidates" (text "[{service_id,price_credits,task_fit}]") end)))
              (field "recommended" (text "service_id?") (
                field "ranked" (text "candidate scores") (
                  field "evidence_tier" (text "VERIFIED|PROVISIONAL")
                    (field "state" (text "PASS|INCONCLUSIVE") end)))))
            nil))

  unfoldable pub agent_addresses : Environment → Fields F
  agent_addresses environ =
      field "router" (text (getenv environ "COUNTERPARTY_ROUTER_ADDRESS" "counterparty-router")) (
        field "probe" (text (getenv environ "COUNTERPARTY_PROBE_ADDRESS" "counterparty-probe")) (
          field "judge" (text (getenv environ "COUNTERPARTY_JUDGE_ADDRESS" "counterparty-judge")) (
            field "attestor"
              (text (getenv environ "COUNTERPARTY_ATTESTOR_ADDRESS" "counterparty-attestor")) end)))

  -- `/.well-known/agent.json`
  unfoldable pub agent_card : Environment → Fields F
  unfolding agent_addresses services
  agent_card environ = field "name" (text "Counterparty") (
      field "description"
        (text
          "Before your agent spends a credit, Counterparty actively tests who can do the job, verifies what they deliver, and routes the next purchase with compounding evidence.")
        (field "purpose" (text purpose) (
          field "agent_addresses" (obj (agent_addresses environ)) (
            field "capabilities"
              (arr (
                text_items
                  ("active_canary" ∷ "trust_snapshot" ∷ "verify_delivery" ∷ "best_execution" ∷ [])))
              (field "evidence_semantics" (arr (text_items ("PASS" ∷ "FAIL" ∷ "INCONCLUSIVE" ∷ [])))
                (field "services" (arr services) (
                  field "market_flywheel"
                    (arr (
                      text_items (
                        "Trust Snapshot actively probes an unknown seller under a bounded SharedOS grant"
                        ∷ "A passing canary creates PROVISIONAL evidence and unlocks safe small-spend routing"
                        ∷ "Verify Delivery converts the purchase into task-specific VERIFIED reputation"
                        ∷ "Best Execution uses the stronger evidence to route the next credit"
                        ∷ [])))
                    (field "max_delivery_seconds" (int (pos 300)) end))))))))

-- the document that `/health` gives
unfoldable pub health_json : {F : Type 0} (c : Codec F) → List (AuditRow c.Text) → Fields F
unfolding health
health_json c rows =
    let (count, head) = health c rows in
    field "ok" (bool true) (
      field "service" (text "counterparty") (
        field "version" (text version) (
          field "audit" (obj (field "count" (int (pos count)) (field "head" (text head) end)))
            end)))
