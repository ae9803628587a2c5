-- ===== src/Models.antt =====
-- `counterparty/models.py`: the states, the probe results and the routing models, with the checks
-- that pydantic makes of their fields.
use counterparty_sharedos.Prelude.{
  ℕ, Bool, true, false, ◌&&◌, Option, none, some, List, String, if◌then◌else◌,
}
use counterparty_sharedos.Json.{Json, Fields}
use counterparty_sharedos.Floats.{Floats, nat, fge}

-- `EvidenceState`
pub data EvidenceState : Type 0 where
  pass fail inconclusive : EvidenceState

-- `state.value`
abbrev pub state_value : EvidenceState → String
state_value pass = "PASS"
state_value fail = "FAIL"
state_value inconclusive = "INCONCLUSIVE"

-- `==` on states
abbrev pub state_eq : EvidenceState → EvidenceState → Bool
state_eq pass pass = true
state_eq fail fail = true
state_eq inconclusive inconclusive = true
state_eq _ _ = false

-- `ProbeResult`, without its reason and evidence, which are for people to read
pub record ProbeResult (F : Type 0) : Type 0 where
  pub probe : String
  pub state : EvidenceState
  pub score : Option F

-- the literal of `op`
pub data Op : Type 0 where
  eq ne contains gte lte exists : Op

abbrev pub op_value : Op → String
op_value eq = "eq"
op_value ne = "ne"
op_value contains = "contains"
op_value gte = "gte"
op_value lte = "lte"
op_value exists = "exists"

-- `Assertion`; a value that is None is `null`
pub record Assertion (F : Type 0) : Type 0 where
  pub path : String
  pub op : Op
  pub value : Json F

-- `IndependentCheck`
pub record IndependentCheck (F : Type 0) : Type 0 where
  pub probe : String
  pub state : EvidenceState
  pub score : Option F
  pub reason : String
  pub evidence : Fields F

-- `DeliveryVerificationRequest`, its urls as texts
pub record DeliveryVerificationRequest (F : Type 0) : Type 0 where
  pub delivery_id : String
  pub provider_id : String
  pub task : String
  pub task_type : String
  pub output : Json F
  pub expected_schema : Option (Fields F)
  pub assertions : List (Assertion F)
  pub cited_urls : List String
  pub independent_checks : List (IndependentCheck F)

-- `ProbeObservationRequest`
pub record ProbeObservationRequest (F : Type 0) : Type 0 where
  pub probe_id : String
  pub provider_id : String
  pub nonce : String
  pub output : Json F
  pub latency_ms : ℕ

-- the literal of `mode`
pub data Mode : Type 0 where
  safe explore : Mode

abbrev pub mode_value : Mode → String
mode_value safe = "safe"
mode_value explore = "explore"

abbrev pub is_safe : Mode → Bool
is_safe safe = true
is_safe explore = false

-- the literal of `evidence_tier`
pub data Tier : Type 0 where
  verified provisional rejected unproven : Tier

abbrev pub tier_value : Tier → String
tier_value verified = "VERIFIED"
tier_value provisional = "PROVISIONAL"
tier_value rejected = "REJECTED"
tier_value unproven = "UNPROVEN"

-- `CandidateRequest`
pub record CandidateRequest (F : Type 0) : Type 0 where
  pub service_id : String
  pub price_credits : ℕ
  pub task_fit : F
  pub latency_ms : Option ℕ

-- `CandidateScore`
pub record CandidateScore (F : Type 0) : Type 0 where
  pub service_id : String
  pub price_credits : ℕ
  pub trust_score : F
  pub confidence : F
  pub task_fit : F
  pub latency_ms : ℕ
  pub observations : ℕ
  pub protocol_observations : ℕ
  pub evidence_tier : Tier

-- `BestExecutionRequest`
pub record BestExecutionRequest (F : Type 0) : Type 0 where
  pub task : String
  pub task_type : String
  pub budget_credits : ℕ
  pub candidates : List (CandidateRequest F)
  pub mode : Mode

-- `TrustSnapshotRequest`
pub record TrustSnapshotRequest : Type 0 where
  pub service_id : String
  pub task_type : String

module _ (fl : Floats) where
  -- `Field(ge=0, le=n)` of a float
  abbrev pub between : ℕ → fl.F → Bool
  between n x = fge fl x (nat fl 0) && fge fl (nat fl n) x

  -- the checks of `CandidateScore` on its floats
  abbrev pub score_in_range : CandidateScore fl.F → Bool
  score_in_range c = between 100 c.trust_score && (between 1 c.confidence && between 1 c.task_fit)

  -- `CandidateScore(...)`; `none` is `ValidationError`
  unfoldable pub make_score : CandidateScore fl.F → Option (CandidateScore fl.F)
  make_score c = if score_in_range c then some c else none
