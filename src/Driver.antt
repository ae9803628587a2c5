-- ===== src/Driver.antt =====
-- What `scripts/arena_rehearsal.py` and `scripts/arena_demo.py` share: the requests they send to the service,
-- and the loop of verified deliveries. A request is the model that FastAPI makes of a script's JSON body.
-- `none` is an exception: `TestClient` raises what the application raises.
pub mod Promotion
pub mod Compounds
use Prim.Native.String.{◌++◌ as concat}
use counterparty_sharedos.Prelude.{
  ℕ, zero, suc, ◌+◌, ◌/◌, ◌%◌, ltb, leb, ◌==◌, Bool, true, false, not, ◌&&◌, ◌||◌, Option, none,
  some, List, [], ◌∷◌, map, any, all, length, get_or, String, str_eq, ◌≤◌, ◌<◌, ◌≡◌, Bool-cases,
  inl, inr, arith, if◌then◌else◌,
}
use counterparty_sharedos.Prelude.Int.{pos}
use counterparty_sharedos.Floats.{Floats}
use counterparty_sharedos.Json.{
  Json, Fields, null, bool, int, text, arr, obj, nil, cons, end, field, get, Codec,
}
use counterparty_sharedos.Models.{
  Assertion, eq, safe, DeliveryVerificationRequest, ProbeObservationRequest, CandidateRequest,
  BestExecutionRequest, TrustSnapshotRequest,
}
use counterparty_sharedos.Probes.{Jsonschema, Printer}
use counterparty_sharedos.Audit.{Stamp, verify_audit, audit_head}
use counterparty_sharedos.Store.{Db, Result, ok, err}
use counterparty_sharedos.BestExecution.{best_execution}
use counterparty_sharedos.TrustSnapshot.{trust_snapshot}
use counterparty_sharedos.Delivery.{verify_delivery}
use counterparty_sharedos.Canaries.{probe_observation}
use counterparty_sharedos.Requests.{distinct}
use counterparty_sharedos.Stress.{is_true}

-- `str` of an integer
abbrev pub digits : List String
digits = "0" ∷ "1" ∷ "2" ∷ "3" ∷ "4" ∷ "5" ∷ "6" ∷ "7" ∷ "8" ∷ "9" ∷ []

unfoldable pub decimal_from : ℕ → ℕ → String → String
decimal_from zero n acc = acc
decimal_from (suc fuel) n acc =
    let more = concat (get_or digits (n % 10) "") acc in
    let rest = decimal_from fuel (n / 10) more in if ltb n 10 then more else rest

abbrev pub str_of : ℕ → String
str_of n = decimal_from (suc n) n ""

-- Any fuel above the number gives the same digits.
pub decimal_from_enough :
    (fuel more n : ℕ) (acc : String)
    → n < fuel
    → n < more
    → decimal_from fuel n acc ≡ decimal_from more n acc
unfolding decimal_from
decimal_from_enough zero more n acc h k = absurd (omega (arith, h))
decimal_from_enough (suc fuel) zero n acc h k = absurd (omega (arith, k))
decimal_from_enough (suc fuel) (suc more) n acc h k = elim (Bool-cases (ltb n 10)) [
  | inl e ↦ rw e
  | inr e ↦
      let large : 10 ≤ n = ground (arith, e) in
      rw (e) (
        decimal_from_enough fuel more (n / 10) (concat (get_or digits (n % 10) "") acc)
          (omega (arith, large, h)) (omega (arith, large, k)))
]

-- `reply[key] == value` of a text
abbrev pub is_text : {F : Type 0} → String → Option (Json F) → Bool
is_text value (some (text t)) = str_eq t value
is_text value _ = false

abbrev pub or_null : {F : Type 0} → Option (Json F) → Json F
or_null none = null
or_null (some j) = j

-- the service, and how many stamps it has taken
pub record Session (D : Type 0) : Type 0 where
  pub next : ℕ
  pub db : D

-- a part of the script
abbrev pub Script : Type 0 → Type 0 → Type 0
Script D A = Session D → Option (A × Session D)

infixl 5 ◌>>=◌
abbrev pub ◌>>=◌ : {D A B : Type 0} → Script D A → (A → Script D B) → Script D B
(m >>= f) s = elim (m s) [ none ↦ none | some (a, s') ↦ f a s' ]

abbrev pub done : {D A : Type 0} → A → Script D A
done a s = some (a, s)

-- `raise RuntimeError` unless a test holds
abbrev pub unless_failed : {D A : Type 0} → Bool → Script D A → Script D A
unless_failed false m s = none
unless_failed true m s = m s

abbrev pub answered : {D A : Type 0} → ℕ → Option (Result A × D) → Option (A × Session D)
answered next none = none
answered next (some (err e, db)) = none
answered next (some (ok a, db)) = some (a, record { next = next; db = db })

module _ {F : Type 0} where
  abbrev pub canary_of : String → String → String → String → ℕ → ProbeObservationRequest F
  canary_of probe_id provider_id nonce returned latency_ms = record {
    probe_id = probe_id;
    provider_id = provider_id;
    nonce = nonce;
    output = obj (field "counterparty_probe_id" (text returned) (field "ack" (bool true) end));
    latency_ms = latency_ms;
  }

  abbrev pub contract : Fields F
  contract = field "type" (text "object") (
      field "properties" (obj (field "ok" (obj (field "const" (bool true) end)) end)) (
        field "required" (arr (cons (text "ok") nil))
          (field "additionalProperties" (bool false) end)))

  abbrev pub delivery : String → String → ℕ → DeliveryVerificationRequest F
  delivery prefix task deliveries = record {
    delivery_id = concat prefix (str_of deliveries);
    provider_id = "seller-alpha";
    task = task;
    task_type = "general";
    output = obj (field "ok" (bool true) end);
    expected_schema = some contract;
    assertions = record { path = "/ok"; op = eq; value = bool true } ∷ [];
    cited_urls = [];
    independent_checks = [];
  }

abbrev pub alpha_seller : TrustSnapshotRequest
alpha_seller = record { service_id = "seller-alpha"; task_type = "general" }

module _ (fl : Floats) (js : Jsonschema fl.F) (pr : Printer fl.F) (c : Codec fl.F)
    (stamps : ℕ → Stamp) (latency : ℕ → ℕ) where
  -- the four requests, each with stamps of its own
  abbrev pub post_probe : ProbeObservationRequest fl.F → Script (Db c.Text) (Fields fl.F)
  post_probe req s =
      answered (s.next + 2)
        (probe_observation fl js pr c (stamps s.next) (stamps (s.next + 1)) req s.db)

  abbrev pub post_delivery : DeliveryVerificationRequest fl.F → Script (Db c.Text) (Fields fl.F)
  post_delivery req s =
      answered (s.next + 2)
        (verify_delivery fl js pr c (stamps s.next) (stamps (s.next + 1)) (latency s.next) req s.db)

  abbrev pub post_snapshot : TrustSnapshotRequest → Script (Db c.Text) (Fields fl.F)
  post_snapshot req s = answered (s.next + 1) (some (trust_snapshot fl c (stamps s.next) req s.db))

  abbrev pub post_route : BestExecutionRequest fl.F → Script (Db c.Text) (Fields fl.F)
  post_route req s = answered (s.next + 1) (best_execution fl c (stamps s.next) req s.db)

  abbrev pub offer : String → ℕ → fl.F → CandidateRequest fl.F
  offer service_id price_credits task_fit = record {
    service_id = service_id;
    price_credits = price_credits;
    task_fit = task_fit;
    latency_ms = none;
  }

  -- the deliveries that remain of MAX_PROMOTION_DELIVERIES, and those made
  unfoldable pub promote :
      String → String → ℕ → ℕ → Fields fl.F → Script (Db c.Text) (ℕ × Fields fl.F)
  unfolding get verify_delivery trust_snapshot
  promote prefix task zero deliveries snapshot = done (deliveries, snapshot)
  promote prefix task (suc left) deliveries snapshot =
      elim (is_text "BUY" (get "verdict" snapshot)) [
        | true ↦ done (deliveries, snapshot)
        | false ↦ do
          result ← post_delivery (delivery prefix task deliveries)
          unless_failed
              (is_text "PASS" (get "state" result) && is_true (get "reputation_updated" result))
              (do
                next_snapshot ← post_snapshot alpha_seller
                promote prefix task left (suc deliveries) next_snapshot)
      ]

  abbrev pub checked_audit : Script (Db c.Text) Bool
  checked_audit s = elim (verify_audit c s.db.audit_events) [
    | none ↦ none
    | some valid ↦ some (valid, s)
  ]
