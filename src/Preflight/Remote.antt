-- ===== src/Preflight/Remote.antt =====
-- The second half of `run` of `scripts/arena_preflight.py`, the checks of what is deployed, and `main`.
use Prim.Native.String.{◌++◌ as concat}
use text.Mathlib.Text.{starts_with}
use counterparty_sharedos.Prelude.{
  ℕ, Bool, false, not, ◌&&◌, Option, none, some, List, [], ◌∷◌, ◌++◌, all, String, str_eq,
  if◌then◌else◌,
}
use counterparty_sharedos.Floats.{Floats}
use counterparty_sharedos.Json.{
  Json, Items, Fields, text as json_text, null, bool, arr, obj, nil, cons, end, field, get,
}
use counterparty_sharedos.Assertions.{same_value}
use counterparty_sharedos.AgentCard.{purpose, version}
use counterparty_sharedos.Environment.{Environment, with_path, Unicode}
use counterparty_sharedos.Preflight.{
  Agent, canonical_agents, Check, check, local_checks, public_url,
}

abbrev pub address_fields : {F : Type 0} → List Agent → Fields F
address_fields [] = end
address_fields (a ∷ rest) = field a.role (json_text a.canonical) (address_fields rest)

-- How Python prints a text with `{...!r}` and a value with `str`. Nothing is assumed of it.
pub record Printing (F : Type 0) : Type 0 where
  pub repr : String → String
  pub str : Json F → String

-- What `fetch_json` does: it returns a value, raises one of the exceptions that `run` catches, with its
-- text, or raises another one.
pub data Fetched (F : Type 0) : Type 0 where
  fetched : Json F → Fetched F
  unreachable : String → Fetched F
  raised : Fetched F

module _ (fl : Floats) (p : Printing fl.F) where
  -- `document.get(key)`, which is None for a missing key
  abbrev pub got : String → Fields fl.F → Json fl.F
  got key fs = elim (get key fs) [ none ↦ null | some v ↦ v ]

  unfoldable pub health_check : Fields fl.F → Check
  unfolding get
  health_check health =
      check "remote health" (elim (get "ok" health) [ some (bool b) ↦ b | _ ↦ false ])
        (p.str (obj health))

  unfoldable pub version_check : Fields fl.F → Check
  unfolding get same_value
  version_check health =
      check "remote version" (same_value fl (got "version" health) (json_text version))
        (p.str (got "version" health))

  unfoldable pub purpose_check : Fields fl.F → Check
  unfolding get same_value
  purpose_check card =
      check "purpose" (same_value fl (got "purpose" card) (json_text purpose))
        (p.str (got "purpose" card))

  unfoldable pub addresses_check : Fields fl.F → Check
  unfolding get same_value
  addresses_check card =
      check "canonical SharedOS agent addresses"
        (same_value fl (got "agent_addresses" card) (obj (address_fields canonical_agents)))
        (p.str (got "agent_addresses" card))

  abbrev pub Remote : Type 0
  Remote = Option (Json fl.F × Json fl.F)

  -- The checks of the two documents; `none` is an exception that `run` does not catch. A document that is
  -- no dictionary has no `get`.
  unfoldable pub remote_checks : Json fl.F → Json fl.F → Option (List Check × Remote)
  unfolding health_check version_check purpose_check addresses_check
  remote_checks (obj health) (obj card) = some (
    health_check health ∷ version_check health ∷ purpose_check card ∷ addresses_check card ∷ [],
    some (obj health, obj card),
  )
  remote_checks _ _ = none

  unfoldable pub deployment_checks : Fetched fl.F → Fetched fl.F → Option (List Check × Remote)
  unfolding remote_checks
  deployment_checks (fetched health) (fetched card) = remote_checks health card
  deployment_checks raised _ = none
  deployment_checks (unreachable exc) _ =
      some (check "remote deployment" false (concat "unreachable or invalid: " exc) ∷ [], none)
  deployment_checks (fetched _) raised = none
  deployment_checks (fetched _) (unreachable exc) =
      some (check "remote deployment" false (concat "unreachable or invalid: " exc) ∷ [], none)

  abbrev pub after_local : List Check → Option (List Check × Remote) → Option (List Check × Remote)
  after_local before none = none
  after_local before (some (checks, remote)) = some (before ++ checks, remote)

  module _ (u : Unicode) (fetch_json : String → Fetched fl.F) where
    unfoldable pub run : Bool → Environment → Option (List Check × Remote)
    unfolding local_checks public_url deployment_checks
    run live environ =
        let url = public_url u p.repr environ in
        after_local (local_checks u p.repr environ) (
          if live && not (str_eq url "")
          then (if starts_with url "https://"
              then deployment_checks (fetch_json (with_path url "/health"))
                  (fetch_json (with_path url "/.well-known/agent.json"))
              else some (
                check "HTTPS deployment" false
                      "COUNTERPARTY_PUBLIC_URL must use https:// when configured"
                    ∷ [],
                none,
              ))
          else some ([], none))

    abbrev pub check_items : List Check → Items fl.F
    check_items [] = nil
    check_items (c ∷ cs) =
        cons
          (obj (
            field "name" (json_text c.name)
              (field "ok" (bool c.ok) (field "detail" (json_text c.detail) end))))
          (check_items cs)

    abbrev pub remote_fields : Remote → Fields fl.F
    remote_fields none = end
    remote_fields (some (health, card)) = field "health" health (field "agent_card" card end)

    abbrev pub all_ok : List Check → Bool
    all_ok checks = all (λ (c : Check). c.ok) checks

    -- what is printed with `--json`
    abbrev pub report : List Check → Remote → Fields fl.F
    report checks remote = field "ready" (bool (all_ok checks)) (
        field "purpose" (json_text purpose) (
          field "transport" (json_text "SharedNet Room message") (
            field "sharedos_agent_addresses" (obj (address_fields canonical_agents)) (
              field "checks" (arr (check_items checks))
                (field "remote" (obj (remote_fields remote)) end)))))

    abbrev pub exit_of : Option (List Check × Remote) → Option (Fields fl.F) × ℕ
    exit_of none = (none, 1)
    exit_of (some (checks, remote)) =
        (some (report checks remote), (if all_ok checks then 0 else 2))

    -- the report that `main` prints, and the exit status: 1 for an exception
    unfoldable pub main : Bool → Environment → Option (Fields fl.F) × ℕ
    unfolding run
    main live environ = exit_of (run live environ)
