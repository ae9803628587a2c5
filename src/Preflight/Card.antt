-- ===== src/Preflight/Card.antt =====
-- The documents that the service publishes, against what the scripts ask of them.
use counterparty_sharedos.Prelude.{
  ◌≡◌, refl, Bool, true, false, ◌&&◌, Option, none, some, List, all, str_eq,
}
use counterparty_sharedos.Floats.{Floats}
use counterparty_sharedos.Json.{Codec, obj, get}
use counterparty_sharedos.Assertions.{same_value}
use counterparty_sharedos.Audit.{AuditRow}
use counterparty_sharedos.Environment.{Environment, getenv}
use counterparty_sharedos.AgentCard.{agent_addresses, agent_card, health_json}
use counterparty_sharedos.Polling.{is_healthy}
use counterparty_sharedos.Preflight.{Agent, canonical_agents, Check}
use counterparty_sharedos.Preflight.Remote.{Printing, fetched, deployment_checks}

-- whether every check of a list passed, if it was made at all
abbrev pub passes : {A : Type 0} → Option (List Check × A) → Bool
passes none = false
passes (some (checks, _)) = all (λ (c : Check). c.ok) checks

and_right : (b : Bool) → (b && true) ≡ b
and_right true = refl
and_right false = refl

module _ (fl : Floats) (p : Printing fl.F) (c : Codec fl.F) (rows : List (AuditRow c.Text))
    (environ : Environment) where
  -- The checks that a live preflight makes of the service's own `/health` and agent card pass exactly when
  -- each of the four address variables is unset or repeats its canonical address to the letter, and the
  -- health document always is what the launcher waits for.
  pub service_documents_pass :
      (passes (
          deployment_checks fl p
            (fetched (obj (health_json c rows)))
            (fetched (obj (agent_card environ))))
        ≡ all
            (λ (a : Agent). str_eq (getenv environ a.env_name a.canonical) a.canonical)
            canonical_agents)
      × (is_healthy (health_json c rows) ≡ true)
  unfolding deployment_checks health_json agent_card agent_addresses get same_value is_healthy
  service_documents_pass = (and_right _, refl)
