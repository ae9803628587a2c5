-- ===== src/Ingress.antt =====
-- The middleware `request_limits` of `counterparty/app.py`, the two endpoints that read the audit chain,
-- and `health`.
pub mod Gate
use Prim.Native.Char.{Char}
use Prim.Native.String.{[], ◌∷◌}
use text.Mathlib.Text.{starts_with}
use counterparty_sharedos.Prelude.{
  ℕ, suc, ltb, leb, ◌==◌, Bool, true, false, not, ◌&&◌, ◌||◌, Option, none, some, List, String,
  str_eq, is_in, if◌then◌else◌,
}
use counterparty_sharedos.Json.{Codec}
use counterparty_sharedos.Audit.{
  AuditRow, Event, verify_audit, audit_events, audit_head, get_audit_event,
}

-- `len(s)`
unfoldable pub text_length : String → ℕ
text_length [] = 0
text_length (c ∷ s) = suc (text_length s)

-- what `create_app` and the middleware read from their arguments and the environment
pub record Settings : Type 0 where
  pub internal_token : Option String
  pub require_internal_auth : Bool
  pub max_bytes : ℕ

-- `bool(internal_token) and len(internal_token) >= 32`
abbrev pub internal_token_valid : Option String → Bool
internal_token_valid none = false
internal_token_valid (some token) = not (str_eq token "") && leb 32 (text_length token)

-- What the middleware reads of a request. The length is the number in `content-length`, and `none` where
-- there is no such header or it is not of digits. Headers are ASCII, as `compare_digest` wants them.
pub record HttpRequest : Type 0 where
  pub path : String
  pub supplied_token : Option String
  pub content_length : Option ℕ

abbrev pub is_protected : Settings → HttpRequest → Bool
is_protected settings request = starts_with request.path "/v1/" && settings.require_internal_auth

-- `hmac.compare_digest(supplied, internal_token)`, with "" for a header that is missing
abbrev pub same_token : Option String → Option String → Bool
same_token _ none = false
same_token none (some token) = str_eq "" token
same_token (some supplied) (some token) = str_eq supplied token

abbrev pub too_large : ℕ → Option ℕ → Bool
too_large max_bytes none = false
too_large max_bytes (some n) = ltb max_bytes n

-- the status that the middleware answers with, or `none` where it calls the handler
unfoldable pub request_limits : Settings → HttpRequest → Option ℕ
unfolding text_length
request_limits settings request =
    if is_protected settings request && not (internal_token_valid settings.internal_token)
    then some 503
    else if is_protected settings request
        && not (same_token request.supplied_token settings.internal_token)
    then some 401
    else if too_large settings.max_bytes request.content_length
    then some 413
    else none

-- every character is a hexadecimal digit, in either case
unfoldable pub is_hex : String → Bool
is_hex [] = true
is_hex (c ∷ s) = is_in (c ∷ []) "0123456789abcdefABCDEF" && is_hex s

pub data Reply (A : Type 0) : Type 0 where
  status : ℕ → Reply A
  body : A → Reply A

module _ {F : Type 0} (c : Codec F) where
  -- `/health`
  unfoldable pub health : List (AuditRow c.Text) → ℕ × String
  unfolding audit_head
  health rows = audit_head c rows

  abbrev pub both : {A B : Type 0} → Option A → Option B → Reply (A × B)
  both none _ = status 500
  both (some a) none = status 500
  both (some a) (some b) = body (a, b)

  -- `/v1/audit`: 422 for a limit that FastAPI refuses, 500 for an exception
  unfoldable pub audit_page : ℕ → List (AuditRow c.Text) → Reply (Bool × List (Event F))
  unfolding verify_audit audit_events
  audit_page limit rows =
      if leb 1 limit && leb limit 1000
      then both (verify_audit c rows) (audit_events c limit rows)
      else status 422

  abbrev pub found : Option Bool → Option (Option (Event F)) → Reply (Bool × Event F)
  found valid none = status 500
  found valid (some none) = status 404
  found none (some (some event)) = status 500
  found (some valid) (some (some event)) = body (valid, event)

  -- `/v1/audit/{receipt}`
  unfoldable pub audit_receipt : String → List (AuditRow c.Text) → Reply (Bool × Event F)
  unfolding text_length is_hex verify_audit get_audit_event
  audit_receipt receipt rows =
      if not (text_length receipt == 64) || not (is_hex receipt)
      then status 400
      else found (verify_audit c rows) (get_audit_event c receipt rows)
