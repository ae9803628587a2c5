-- ===== src/Host.antt =====
-- `scripts/arena_host.py`: the launcher of the provider loop. A run is the list of what it did to the
-- world, and how it ended.
pub mod Main
pub mod Seat
pub mod Backend
use Prim.Native.String.{◌++◌ as concat}
use text.Mathlib.Text.{starts_with}
use counterparty_sharedos.Prelude.{
  ℕ, ltb, ◌==◌, Bool, true, false, not, ◌&&◌, ◌||◌, Option, none, some, List, [], ◌∷◌, ◌++◌, any,
  String, str_eq, if◌then◌else◌,
}
use counterparty_sharedos.Prelude.Int.{ℤ, pos, ltb_ℤ}
use counterparty_sharedos.Json.{Json, Fields, null, text as json_text, obj, end, field, get}
use counterparty_sharedos.Ingress.{text_length}
use counterparty_sharedos.AgentCard.{purpose}
use counterparty_sharedos.Polling.{Poll, Waited, healthy, wait_health}
use counterparty_sharedos.Environment.{
  Environment, getenv, set_variable, strip, text_take, text_drop, Unicode, isalnum,
}

-- the options of the command line
pub record Args : Type 0 where
  pub backend_port : ℤ
  pub redeem_hack100 : Bool
  pub max_runs : Option ℤ

-- what a run does to the world
pub data Effect (F : Type 0) : Type 0 where
  -- `subprocess.run` of a command, in an environment
  ran : List String → Environment → Effect F
  -- `subprocess.Popen` of the backend
  started : List String → Environment → Effect F
  printed : Fields F → Effect F
  -- `backend.terminate()`, `backend.wait(timeout=5)` and `backend.kill()`
  terminated waited killed : Effect F

-- a return value, or an exception
pub data Outcome (A : Type 0) : Type 0 where
  returned : A → Outcome A
  raised : Outcome A

-- What the world answers: the value of a command's standard output that is read as JSON, whether a
-- command succeeds, the exit status of the service loop, and the backend. An exception is `none`.
pub record World (F : Type 0) : Type 0 where
  pub windows : Bool
  pub output : List String → Environment → Option (Json F)
  pub succeeds : List String → Environment → Bool
  pub starts : Bool
  -- the requests of `wait_health`, and the time when it begins
  pub request : ℕ → Poll F × ℕ
  pub begin : ℕ
  pub watch_status : List String → Environment → Option ℕ
  -- `backend.poll() is None`, and whether the backend ends within each of the two timeouts
  pub is_running : Bool
  pub ends : Bool
  pub ends_killed : Bool
  -- `sys.executable`
  pub python : String

-- How Python prints an integer, and `str(v or "")` of a value that is neither a text nor None. Nothing is
-- assumed of them.
pub record Printer (F : Type 0) : Type 0 where
  pub str_int : ℤ → String
  pub str_or_empty : Json F → String

module _ (u : Unicode) where
  -- `validate_environment`: the environment, or an exception
  unfoldable pub validate_environment : Environment → Outcome Environment
  unfolding text_length strip text_take text_drop isalnum
  validate_environment environ =
      let token = strip (getenv environ "COUNTERPARTY_INTERNAL_TOKEN" "") in
      let payee = strip (getenv environ "SHAREDNET_PAYEE_ADDRESS" "") in
      if ltb (text_length token) 32
      then raised
      else if not (text_length payee == 12)
          || (not (any (str_eq (text_take 2 payee)) ("p_" ∷ "a_" ∷ "i_" ∷ []))
              || not (isalnum u (text_drop 2 payee)))
      then raised
      else returned environ

  -- the check of the seat that SharedNet selected, and of its Room
  unfoldable pub is_seat : String → Bool
  unfolding text_length text_drop isalnum
  is_seat member_id = not (
      not (text_length member_id == 12)
      || (not (starts_with member_id "i_") || not (isalnum u (text_drop 2 member_id))))

abbrev pub is_room : String → Bool
is_room room_id = starts_with room_id "rom_"

abbrev pub valid_args : Args → Bool
valid_args args =
    not (ltb_ℤ args.backend_port (pos 1) || ltb_ℤ (pos 65535) args.backend_port)
    && elim args.max_runs [ none ↦ true | some n ↦ not (ltb_ℤ n (pos 1)) ]

-- `command(name)`
abbrev pub command : Bool → String → String
command windows name = if windows then concat name ".cmd" else name

-- a command of the SharedNet tool
abbrev pub sharednet : String → List String → List String
sharednet npx rest = npx ∷ "-y" ∷ "sharednet@latest" ∷ rest

abbrev pub sharednet_reach_args : String → List String
sharednet_reach_args npx = sharednet npx ("reach" ∷ "public" ∷ "--json" ∷ [])

module _ {F : Type 0} (p : Printer F) where
  -- `str(seat.get(key) or "")`
  abbrev pub text_of : Option (Json F) → String
  text_of none = ""
  text_of (some null) = ""
  text_of (some (json_text s)) = s
  text_of (some v) = p.str_or_empty v

  abbrev pub max_runs_args : Option ℤ → List String
  max_runs_args none = []
  max_runs_args (some n) = "--max-runs" ∷ p.str_int n ∷ []

  abbrev pub backend_url : Args → String
  backend_url args = concat "http://127.0.0.1:" (p.str_int args.backend_port)

  -- the variables that the launcher sets before it runs anything that acts
  unfoldable pub seat_environment : Args → String → String → Environment → Environment
  seat_environment args member_id room_id environ =
      set_variable
        (set_variable
          (set_variable (set_variable environ "SHAREDNET_SEAT" member_id) "SHAREDNET_NODE_ID"
            member_id)
          "SHAREDNET_ROOM_ID" room_id)
        "COUNTERPARTY_BACKEND_URL" (backend_url args)

  abbrev pub whoami_args : String → List String
  whoami_args npx = sharednet npx ("whoami" ∷ "--json" ∷ [])

  abbrev pub redeem_args : String → String → List String
  redeem_args npx member_id =
      sharednet npx ("redeem" ∷ "HACK100" ∷ "--as" ∷ member_id ∷ "--json" ∷ [])

  abbrev pub backend_args : String → Args → List String
  backend_args python args =
      python
      ∷ "-m"
      ∷ "uvicorn"
      ∷ "counterparty.app:app"
      ∷ "--host"
      ∷ "127.0.0.1"
      ∷ "--port"
      ∷ p.str_int args.backend_port
      ∷ []

  abbrev pub service_command : Bool → String
  service_command windows =
      concat (command windows "npm") " --prefix sharedos run --silent arena:serve"

  abbrev pub watch_args : Bool → Args → String → List String
  watch_args windows args member_id = sharednet (command windows "npx") (
      "watch"
      ∷ "--on"
      ∷ "message"
      ∷ "--run"
      ∷ service_command windows
      ∷ "--reply"
      ∷ "--as"
      ∷ member_id
      ∷ max_runs_args args.max_runs)

  abbrev pub ready_fields : Args → String → String → Fields F
  ready_fields args member_id room_id = field "counterparty" (json_text "ready") (
      field "sharednet_seat" (json_text member_id) (
        field "room_id" (json_text room_id) (
          field "backend" (json_text (backend_url args))
            (field "purpose" (json_text purpose) end))))
