-- ===== src/Ingress/Gate.antt =====
-- What the middleware lets through.
use counterparty_sharedos.Prelude.{
  ◌⊎◌, inl, inr, Bool-cases, ℕ, ◌≡◌, ◌≤◌, refl, ap, true, false, Option, none, some, String,
  str_eq_iff, arith,
}
use counterparty_sharedos.Ingress.{
  Settings, HttpRequest, text_length, request_limits, is_protected, internal_token_valid,
  same_token, too_large,
}

-- the settings have a token of at least 32 characters, and the request brings it
abbrev pub IsAuthorized : Option String → Option String → Type 0
IsAuthorized supplied configured =
    (token : String) × (configured ≡ some token)
    × (32 ≤ text_length token)
    × (supplied ≡ some token)

authorized :
    (supplied configured : Option String)
    → internal_token_valid configured ≡ true
    → same_token supplied configured ≡ true
    → IsAuthorized supplied configured
authorized supplied none v h = ground arith
authorized none (some token) v h = ground (arith, str_eq_iff "" token)
authorized (some supplied) (some token) v h =
    (token, refl, ground arith, ap some ((str_eq_iff supplied token).0 h))

module _ (settings : Settings) (request : HttpRequest)
    (h : request_limits settings request ≡ none) where
  valid : is_protected settings request ≡ true → internal_token_valid settings.internal_token ≡ true
  unfolding request_limits
  valid p = ground arith

  matches :
      is_protected settings request ≡ true
      → same_token request.supplied_token settings.internal_token ≡ true
  unfolding request_limits
  matches p = ground arith

  within : too_large settings.max_bytes request.content_length ≡ false
  unfolding request_limits
  within = ground arith

-- the length that a request declares
abbrev pub declared : Option ℕ → ℕ
declared none = 0
declared (some n) = n

small : (max_bytes : ℕ) (o : Option ℕ) → too_large max_bytes o ≡ false → declared o ≤ max_bytes
small max_bytes none h = ground arith
small max_bytes (some n) h = ground arith

-- A request that reaches its handler declares no body above the limit, and it is to a path outside /v1/,
-- or authentication is switched off, or the configured token has at least 32 characters and the request
-- brought it.
pub request_limits_lem :
    (settings : Settings) (request : HttpRequest)
    → request_limits settings request ≡ none
    → (declared request.content_length ≤ settings.max_bytes)
      × ((is_protected settings request ≡ false)
          ⊎ IsAuthorized request.supplied_token settings.internal_token)
request_limits_lem settings request h = (
  small settings.max_bytes request.content_length (within settings request h),
  elim (Bool-cases (is_protected settings request)) [
    | inl p ↦ inr (
        authorized request.supplied_token settings.internal_token (valid settings request h p)
          (matches settings request h p))
    | inr p ↦ inl p
  ],
)
