-- ===== src/Preflight.antt =====
-- `scripts/arena_preflight.py`: the checks of a deployment.
pub mod Remote
pub mod Ready
pub mod Card
use Prim.Native.String.{◌++◌ as concat}
use text.Mathlib.Text.{starts_with}
use counterparty_sharedos.Prelude.{
  ℕ, leb, ◌==◌, Bool, true, false, not, ◌&&◌, ◌||◌, Option, none, some, List, [], ◌∷◌, ◌++◌, map,
  all, any, String, str_eq, if◌then◌else◌,
}
use counterparty_sharedos.Ingress.{text_length}
use counterparty_sharedos.Environment.{
  Environment, getenv, strip, rstrip, is_slash, text_take, text_drop, Unicode, isalnum,
}

-- a role, its address, and the variable that may repeat it: an entry of `CANONICAL_AGENT_ADDRESSES`
-- and `ADDRESS_ENV`
pub record Agent : Type 0 where
  pub role : String
  pub canonical : String
  pub env_name : String

abbrev pub agent : String → String → String → Agent
agent role canonical env_name = record { role = role; canonical = canonical; env_name = env_name }

abbrev pub canonical_agents : List Agent
canonical_agents =
    agent "router" "counterparty-router" "COUNTERPARTY_ROUTER_ADDRESS"
    ∷ agent "probe" "counterparty-probe" "COUNTERPARTY_PROBE_ADDRESS"
    ∷ agent "judge" "counterparty-judge" "COUNTERPARTY_JUDGE_ADDRESS"
    ∷ agent "attestor" "counterparty-attestor" "COUNTERPARTY_ATTESTOR_ADDRESS"
    ∷ []

pub record Check : Type 0 where
  pub name : String
  pub ok : Bool
  pub detail : String

abbrev pub check : String → Bool → String → Check
check name ok detail = record { name = name; ok = ok; detail = detail }

-- `a or b` of texts
abbrev pub or_text : String → String → String
or_text a b = if str_eq a "" then b else a

-- `env(name)`
abbrev pub env : Environment → String → String
env environ name = strip (getenv environ name "")

module _ (u : Unicode) where
  unfoldable pub sharednet_address : String → Bool
  unfolding text_length text_take text_drop isalnum
  sharednet_address value =
      (text_length value == 12)
      && (any (str_eq (text_take 2 value)) ("i_" ∷ "a_" ∷ "p_" ∷ [])
          && isalnum u (text_drop 2 value))

  unfoldable pub sharednet_seat : String → Bool
  unfolding text_length text_drop isalnum
  sharednet_seat value =
      (text_length value == 12) && (starts_with value "i_" && isalnum u (text_drop 2 value))

  unfoldable pub truthy : Environment → String → Bool
  unfolding strip
  truthy environ name = any (str_eq (u.lower (env environ name))) ("1" ∷ "true" ∷ "yes" ∷ "on" ∷ [])

  -- `repr` prints a text with `{...!r}`
  module _ (repr : String → String) (environ : Environment) where
    -- the checks that every run makes
    unfoldable pub token_check : Check
    unfolding text_length strip
    token_check =
        let long = leb 32 (text_length (env environ "COUNTERPARTY_INTERNAL_TOKEN")) in
        check "private ingress token" long
          (if long then "configured" else "missing or shorter than 32 chars")

    unfoldable pub node_check : Check
    unfolding strip sharednet_seat
    node_check =
        let node_id = env environ "SHAREDNET_NODE_ID" in
        check "SHAREDNET_NODE_ID" (sharednet_seat node_id) (or_text node_id "missing")

    unfoldable pub payee_check : Check
    unfolding strip sharednet_address
    payee_check =
        let payee = env environ "SHAREDNET_PAYEE_ADDRESS" in
        check "SHAREDNET_PAYEE_ADDRESS" (sharednet_address payee) (or_text payee "missing")

    unfoldable pub audit_check : Check
    unfolding truthy
    audit_check =
        let confirmed = truthy environ "SHAREDOS_AUDIT_CONFIRMED" in
        check "SharedOS Cloud audit confirmed" confirmed (
          if confirmed
          then "confirmed"
          else "set SHAREDOS_AUDIT_CONFIRMED=1 only after a real Counterparty turn is visible in SharedOS Cloud audit")

    unfoldable pub call_check : Check
    unfolding truthy
    call_check =
        let confirmed = truthy environ "SHAREDNET_EXTERNAL_CALL_CONFIRMED" in
        check "SharedNet external call confirmed" confirmed (
          if confirmed
          then "confirmed"
          else "set SHAREDNET_EXTERNAL_CALL_CONFIRMED=1 only after another seat calls Counterparty and receives a reply")

    unfoldable pub agent_check : Agent → Check
    unfolding strip
    agent_check a =
        let configured = env environ a.env_name in
        let known = any (str_eq configured) ("" ∷ a.canonical ∷ []) in
        check (concat "SharedOS " (concat a.role " address")) known (
          if known
          then a.canonical
          else concat "must be " (concat (repr a.canonical) (concat ", got " (repr configured))))

    unfoldable pub public_url : String
    unfolding strip rstrip
    public_url = rstrip is_slash (env environ "COUNTERPARTY_PUBLIC_URL")

    unfoldable pub local_checks : List Check
    unfolding token_check node_check payee_check audit_check call_check agent_check public_url
    local_checks =
        token_check
        ∷ node_check
        ∷ payee_check
        ∷ audit_check
        ∷ call_check
        ∷ (map agent_check canonical_agents
            ++ check "COUNTERPARTY_PUBLIC_URL (optional)" true
                (or_text public_url "not required for SharedNet message transport")
              ∷ [])
