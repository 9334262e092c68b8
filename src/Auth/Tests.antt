-- ===== src/Auth/Tests.antt =====
-- Tests and concrete instances for the authentication.
use roar_protocol.Base.{String, ◌≡◌, refl, Bool, false, some, none, [], ◌∷◌, str_dec}
use roar_protocol.Auth.{
  AuthConfig, Request, api_key, allowed, require_auth, extract_api_key, extract_bearer, strip_start,
  strip_end, verify_api_key,
}
use roar_protocol.Auth.Admission.{Passed, require_auth-allowed}

abbrev config : AuthConfig
config = record {
  strategy = api_key;
  api_keys = "other" ∷ "secret" ∷ [];
  jwt_secret = "";
  allow_unauthenticated = false;
}

abbrev request : Request
request = record {
  path = "/roar/message";
  authorization = some "Bearer  secret ";
  x_api_key = none;
}

abbrev no_token : String → String → Bool
no_token token secret = false

let_through : require_auth no_token config request ≡ allowed
unfolding require_auth extract_api_key extract_bearer strip_start strip_end verify_api_key str_dec
let_through = refl

require_auth-allowed_example : Passed no_token config request
require_auth-allowed_example = require_auth-allowed no_token config request let_through
