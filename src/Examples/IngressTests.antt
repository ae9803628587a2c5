-- ===== src/Examples/IngressTests.antt =====
-- The middleware on a concrete request.
use counterparty_sharedos.Prelude.{false, ◌⊎◌, ◌≡◌, ◌≤◌, refl, true, Option, none, some, String}
use counterparty_sharedos.Ingress.{Settings, HttpRequest, request_limits, is_protected}
use counterparty_sharedos.Ingress.Gate.{declared, IsAuthorized, request_limits_lem}

abbrev settings : Settings
settings = record {
  internal_token = some "0123456789abcdef0123456789abcdef";
  require_internal_auth = true;
  max_bytes = 262144;
}

abbrev request : Option String → HttpRequest
request token = record { path = "/v1/audit"; supplied_token = token; content_length = some 12 }

abbrev good_request : HttpRequest
good_request = request (some "0123456789abcdef0123456789abcdef")

no_token : request_limits settings (request none) ≡ some 401
unfolding request_limits
no_token = refl

good_request_passed : request_limits settings good_request ≡ none
unfolding request_limits
good_request_passed = refl

request_limits_lem_example :
    (declared good_request.content_length ≤ settings.max_bytes)
    × ((is_protected settings good_request ≡ false)
        ⊎ IsAuthorized good_request.supplied_token settings.internal_token)
request_limits_lem_example = request_limits_lem settings good_request good_request_passed
