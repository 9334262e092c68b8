-- ===== src/Server/Tests.antt =====
-- Tests and concrete instances for the server.
use roar_protocol.Base.{
  ◌+◌, ◌≤◌, ◌≡◌, String, refl, true, false, some, none, Option, List, [], ◌∷◌, arith, str_dec, ◌==◌,
  ◌&&◌, not, nonempty, if◌then◌else◌,
}
use roar_protocol.Json.{Json, str}
use roar_protocol.Types.{RoarMessage}
use roar_protocol.Types.Message.{verify}
use roar_protocol.Types.Samples.{bob, greeting}
use roar_protocol.Signing.{Ed25519}
use roar_protocol.Signing.Toy.{toy}
use roar_protocol.Did.Samples.{network}
use roar_protocol.Delegation.{verify_token, DelegationToken, is_valid}
use roar_protocol.TokenStore.{get_count, get_and_increment}
use roar_protocol.Did.{resolve_did_to_public_key, resolve_did_key}
use roar_protocol.Server.{
  check_delegator, handle_verified, Server, Times, handled, invalid_delegation_signature, raw_token,
  check_token, handle_message,
}
use roar_protocol.Server.Admission.{Delegated, handle_message-handled, check_token-forged}
use roar_protocol.Server.Uses.{Call, token_of, run, run-Carries}

-- signatures that verify under every key
abbrev lenient : Ed25519
lenient = record toy { check = λ key raw body. raw == "c2ln" }

abbrev hexdigest : String → String → String
hexdigest key body = "00"

abbrev token_signed : String → DelegationToken
token_signed signature = record {
  token_id = "tok";
  delegator_did = "did:key:z6Mk";
  delegate_did = "did:roar:agent:alice";
  capabilities = "code" ∷ [];
  issued_at = 0;
  expires_at = none;
  max_uses = some 1;
  use_count = 0;
  can_redelegate = false;
  signature = signature;
}

abbrev validate : Json → Option DelegationToken
validate (str s) = some (token_signed (if s == "good" then "ed25519:c2ln" else "forged"))
validate _ = none

abbrev server : Server
server = record { identity = bob; signing_secret = ""; handles = λ i. true }

abbrev times : Times
times = record { verify_at = 100; expiry_at = 100; token_at = 100 }

abbrev delegated : RoarMessage
delegated = record greeting { context = ("delegation_token", str "good") ∷ [] }

abbrev calls : List Call
calls =
    record { verified = true; times = times; message = delegated }
    ∷ record { verified = true; times = times; message = delegated }
    ∷ []

reaches :
    (handle_message lenient hexdigest network validate true times server delegated []).1
    ≡ handled delegated
unfolding handle_message handle_verified check_token check_delegator resolve_did_to_public_key
    str_dec get_and_increment verify_token is_valid resolve_did_key
reaches = refl

handle_message-handled_example :
    (delegated ≡ delegated)
    × (server.handles delegated.intent ≡ true)
    × (nonempty server.signing_secret && not true ≡ true
        → verify lenient.dumps hexdigest server.signing_secret 300 times.verify_at delegated
          ≡ some true)
    × ((raw : Json)
        → raw_token delegated ≡ some raw
        → Delegated lenient hexdigest network validate times delegated raw [])
handle_message-handled_example =
    handle_message-handled lenient hexdigest network validate true times server delegated delegated
      [] reaches

forged_refused :
    (check_token lenient hexdigest network validate times greeting (str "bad") []).1
    ≡ some invalid_delegation_signature
unfolding check_token check_delegator resolve_did_to_public_key str_dec get_and_increment
    verify_token is_valid resolve_did_key
forged_refused = refl

parsed_bad : validate (str "bad") ≡ some (token_signed "forged")
unfolding str_dec
parsed_bad = refl

check_token-forged_example :
    get_count "tok" (check_token lenient hexdigest network validate times greeting (str "bad") []).0
    ≡ get_count "tok" [] + (if "tok" == "tok" then 1 else 0)
check_token-forged_example =
    check_token-forged lenient hexdigest network validate times greeting (str "bad") []
      (token_signed "forged") "tok" parsed_bad forged_refused

one_each :
    (t : DelegationToken)
    → token_of lenient hexdigest network validate delegated ≡ some t
    → t.token_id ≡ "tok"
    → t.max_uses ≡ some 1
unfolding str_dec
one_each t h same = ground arith

run-Carries_example :
    get_count "tok" [] + (run lenient hexdigest network validate "tok" server calls []).1 ≤ 1
unfolding get_count
run-Carries_example =
    run-Carries lenient hexdigest network validate "tok" 1 server calls []
      (one_each, (one_each, tt)) (omega arith)
