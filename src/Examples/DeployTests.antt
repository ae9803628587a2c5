-- ===== src/Examples/DeployTests.antt =====
-- The deployment scripts on a concrete environment and a concrete world: tests, and the theorems applied.
use Prim.Native.Char.{code}
use counterparty_sharedos.Prelude.{
  ℕ, ◌≡◌, ◌≢◌, ◌⊎◌, refl, leb, ltb, true, false, ◌&&◌, ◌||◌, none, some, List, [], ◌∷◌, All, all,
  String, str_eq, if◌then◌else◌,
}
use counterparty_sharedos.Prelude.Int.{ℤ, pos}
use counterparty_sharedos.Json.{text, obj, end, field}
use counterparty_sharedos.Ingress.{Settings, HttpRequest, request_limits}
use counterparty_sharedos.Environment.{Environment, Unicode, getenv}
use counterparty_sharedos.AgentCard.{health_json, agent_card}
use counterparty_sharedos.Polling.{
  Poll, document, caught, healthy, is_healthy, wait_health, WaitDone, wait_health_terminates,
}
use counterparty_sharedos.Preflight.{Agent, canonical_agents, token_check, payee_check}
use counterparty_sharedos.Preflight.Remote.{
  Printing, Fetched, fetched, unreachable, deployment_checks, main as preflight,
}
use counterparty_sharedos.Preflight.Ready.{validate_environment_lem, preflight_ready}
use counterparty_sharedos.Preflight.Card.{passes, service_documents_pass}
use counterparty_sharedos.Host.{
  Args, World, Printer, returned, raised, validate_environment, valid_args,
}
use counterparty_sharedos.Host.Main.{main}
use counterparty_sharedos.Host.Seat.{ActsAsSeat, main-ActsAsSeat}
use counterparty_sharedos.Host.Backend.{IsStopped, main-IsStopped}
use counterparty_sharedos.Examples.Codecs.{signed_codec}
use counterparty_sharedos.Examples.FixedPoint.{fixed_point}

-- ASCII
abbrev ascii : Unicode
ascii = record {
  is_alnum = λ c.
      (leb b'0' (code c) && leb (code c) b'9')
      || ((leb b'A' (code c) && leb (code c) b'Z') || (leb b'a' (code c) && leb (code c) b'z'));
  lower = λ s. s;
}

abbrev no_printing : Printing ℤ
no_printing = record { repr = λ s. s; str = λ j. "" }

abbrev variables : List (String × String)
variables =
    ("COUNTERPARTY_INTERNAL_TOKEN", "  0123456789abcdef0123456789abcdef ")
    ∷ ("SHAREDNET_NODE_ID", "i_0123456789")
    ∷ ("SHAREDNET_PAYEE_ADDRESS", "p_0123456789")
    ∷ ("SHAREDOS_AUDIT_CONFIRMED", "1")
    ∷ ("SHAREDNET_EXTERNAL_CALL_CONFIRMED", "yes")
    ∷ ("COUNTERPARTY_PUBLIC_URL", "https://counterparty.example/")
    ∷ []

abbrev environ_of : List (String × String) → Environment
environ_of [] name = none
environ_of ((key, value) ∷ rest) name =
    let other = environ_of rest name in if str_eq name key then some value else other

abbrev arena : Environment
arena = environ_of variables

-- the service as it is deployed
abbrev deployed : String → Fetched ℤ
deployed url =
    if str_eq url "https://counterparty.example/health"
    then fetched (obj (health_json signed_codec []))
    else if str_eq url "https://counterparty.example/.well-known/agent.json"
    then fetched (obj (agent_card arena))
    else unreachable "404"

abbrev settings : Settings
settings = record {
  internal_token = arena "COUNTERPARTY_INTERNAL_TOKEN";
  require_internal_auth = true;
  max_bytes = 262144;
}

abbrev request : HttpRequest
request = record { path = "/v1/audit"; supplied_token = none; content_length = none }

arena_is_ready : (preflight fixed_point no_printing ascii deployed true arena).1 ≡ 0
unfolding preflight health_json agent_card
arena_is_ready = refl

preflight_ready_example :
    (validate_environment ascii arena ≡ returned arena)
    × (request_limits settings request ≢ some 503)
preflight_ready_example =
    preflight_ready fixed_point no_printing ascii deployed true arena settings request refl
      arena_is_ready

validate_environment_lem_example : validate_environment ascii arena ≡ (
    if (token_check ascii (λ s. s) arena).ok && (payee_check ascii (λ s. s) arena).ok
    then returned arena
    else raised)
validate_environment_lem_example = validate_environment_lem ascii (λ s. s) arena

service_documents_pass_example :
    (passes (
        deployment_checks fixed_point no_printing
          (fetched (obj (health_json signed_codec [])))
          (fetched (obj (agent_card arena))))
      ≡ all
          (λ (a : Agent). str_eq (getenv arena a.env_name a.canonical) a.canonical)
          canonical_agents)
    × (is_healthy (health_json signed_codec []) ≡ true)
service_documents_pass_example =
    service_documents_pass fixed_point no_printing signed_codec [] arena

-- the backend answers at its third request
abbrev slow_start : ℕ → Poll ℤ × ℕ
slow_start now =
    if ltb now 2000 then (caught, 700) else (document (obj (health_json signed_codec [])), 5)

wait_health_terminates_example : WaitDone slow_start 16000 1000 (wait_health slow_start 15000 1000)
wait_health_terminates_example = wait_health_terminates slow_start 15000 1000

slow_start_is_awaited : wait_health slow_start 15000 1000 ≡ healthy
unfolding wait_health health_json
slow_start_is_awaited = refl

abbrev world : World ℤ
world = record {
  windows = false;
  output = λ cmd env. some (
      obj (
        field "account" (obj end) (
          field "seat"
            (obj (field "member_id" (text "i_abcdefghij") (field "room_id" (text "rom_1") end)))
            end)));
  succeeds = λ cmd env. true;
  starts = true;
  request = slow_start;
  begin = 1000;
  watch_status = λ cmd env. some 0;
  is_running = true;
  ends = false;
  ends_killed = true;
  python = "python";
}

abbrev printer : Printer ℤ
printer = record { str_int = λ n. "8000"; str_or_empty = λ j. "" }

abbrev options : Args
options = record { backend_port = pos 8000; redeem_hack100 = true; max_runs = none }

main-ActsAsSeat_example :
    (((main printer world options ascii arena).0 ≡ [])
      ⊎ ((valid_args options ≡ true) × (validate_environment ascii arena ≡ returned arena)))
    × All (ActsAsSeat printer world options ascii) (main printer world options ascii arena).0
main-ActsAsSeat_example = main-ActsAsSeat printer world options ascii arena

main-IsStopped_example : IsStopped world (main printer world options ascii arena)
main-IsStopped_example = main-IsStopped printer world options ascii arena

-- the launcher runs to the end, and passes on the status of the service loop
arena_is_served : (main printer world options ascii arena).1 ≡ returned 0
unfolding main health_json
arena_is_served = refl
