-- ===== src/Preflight/Ready.antt =====
-- What a ready preflight is worth to the launcher and to the service.
use counterparty_sharedos.Prelude.{
  ◌≡◌, ◌≢◌, refl, leb, Bool, true, ◌&&◌, Option, none, some, List, [], ◌∷◌, ◌++◌, all, String,
  str_eq, str_eq_iff, if◌then◌else◌, arith, Bool-cases, inl, inr,
}
use mathlib.Core.Bool.{false≢true}
use counterparty_sharedos.Floats.{Floats}
use counterparty_sharedos.Ingress.{
  Settings, HttpRequest, internal_token_valid, request_limits, text_length,
}
use counterparty_sharedos.Environment.{Environment, strip, strip-length, Unicode, or_default}
use counterparty_sharedos.Host.{returned, raised, validate_environment}
use counterparty_sharedos.Preflight.{
  Check, token_check, payee_check, local_checks, sharednet_address,
}
use counterparty_sharedos.Preflight.Remote.{
  Printing, Fetched, Remote, run, main, after_local, exit_of, all_ok,
}

module _ (u : Unicode) (repr : String → String) (environ : Environment) where
  -- The launcher accepts the environment exactly when the preflight's checks of the ingress token and of
  -- the payee address pass, and it then goes on with that environment.
  pub validate_environment_lem : validate_environment u environ ≡ (
      if (token_check u repr environ).ok && (payee_check u repr environ).ok
      then returned environ
      else raised)
  unfolding validate_environment token_check payee_check sharednet_address
  validate_environment_lem = ground arith

-- a token that is long after stripping is long as it is, which is what `create_app` asks of it
token_secure :
    (token : Option String)
    → leb 32 (text_length (strip (or_default token ""))) ≡ true
    → internal_token_valid token ≡ true
unfolding text_length strip
token_secure none h = h
token_secure (some token) h = elim (Bool-cases (str_eq token "")) [
  | inr e ↦ ground (arith, strip-length token)
  | inl e ↦ absurd (false≢true (rw ((str_eq_iff token "").0 e) at h))
]

first_and_third : (a n b rest : Bool) → (a && (n && (b && rest))) ≡ true → (a ≡ true) × (b ≡ true)
first_and_third a n b rest h = (ground arith, ground arith)

all-append :
    (xs ys : List Check)
    → all (λ (c : Check). c.ok) (xs ++ ys)
      ≡ (all (λ (c : Check). c.ok) xs && all (λ (c : Check). c.ok) ys)
all-append [] ys = refl
all-append (x ∷ xs) ys = ground (arith, all-append xs ys)

not_refused :
    (settings : Settings) (request : HttpRequest)
    → internal_token_valid settings.internal_token ≡ true
    → request_limits settings request ≢ some 503
unfolding request_limits
not_refused settings request h e = ground arith

module _ (fl : Floats) (p : Printing fl.F) (u : Unicode) (fetch_json : String → Fetched fl.F) where
  local_ok :
      (before : List Check) (r : Option (List Check × Remote fl p))
      → (exit_of fl p u fetch_json (after_local fl p before r)).1 ≡ 0
      → all_ok fl p u fetch_json before ≡ true
  local_ok before none h = ground arith
  local_ok before (some (checks, remote)) h = ground (arith, all-append before checks)

  checked :
      (environ : Environment)
      → all_ok fl p u fetch_json (local_checks u p.repr environ) ≡ true
      → ((token_check u p.repr environ).ok ≡ true) × ((payee_check u p.repr environ).ok ≡ true)
  unfolding local_checks
  checked environ h =
      first_and_third (token_check u p.repr environ).ok _ (payee_check u p.repr environ).ok _ h

  -- When the preflight ends with status 0, live or not, whatever the deployment answers to it, the
  -- launcher accepts the same environment, and a service that takes its ingress token from that
  -- environment answers no request with 503.
  pub preflight_ready :
      (live : Bool) (environ : Environment) (settings : Settings) (request : HttpRequest)
      → settings.internal_token ≡ environ "COUNTERPARTY_INTERNAL_TOKEN"
      → (main fl p u fetch_json live environ).1 ≡ 0
      → (validate_environment u environ ≡ returned environ)
        × (request_limits settings request ≢ some 503)
  unfolding main run token_check
  preflight_ready live environ settings request same h =
      let (token, payee) = checked environ (local_ok (local_checks u p.repr environ) _ h) in
      (
        rw (validate_environment_lem u p.repr environ, token, payee),
        not_refused settings request
            (rw same (token_secure (environ "COUNTERPARTY_INTERNAL_TOKEN") token)),
      )
