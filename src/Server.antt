-- ===== src/Server.antt =====
-- The server, python/src/roar_sdk/server.py: `ROARServer.handle_message` and the endpoint that
-- `serve` starts. A handler is the user's code: what is modelled is which message reaches it.
-- `validate` is pydantic's `DelegationToken.model_validate`, none where it raises; the token store
-- is the one in memory.
pub mod Admission
pub mod Uses
mod Tests
use roar_protocol.Base.{
  ℕ, ◌+◌, String, Bool, true, false, ◌&&◌, ◌||◌, not, Option, none, some, List, [], ◌∷◌, ltb, ◌==◌,
  if◌then◌else◌, nonempty, strip_prefix, is_some,
}
use roar_protocol.Base.Dict.{Dict, lookup}
use roar_protocol.Json.{Json, str}
use roar_protocol.Types.{AgentIdentity, RoarMessage, MessageIntent}
use roar_protocol.Types.Message.{verify}
use roar_protocol.Dedup.{Guard, is_duplicate}
use roar_protocol.Signing.{Ed25519}
use roar_protocol.Did.{
  Network, Resolution, key, unresolved, not_text, raised, truthy, resolve_did_to_public_key,
}
use roar_protocol.Delegation.{DelegationToken, is_past, is_valid, verify_token}
use roar_protocol.TokenStore.{get_and_increment}
use roar_protocol.Verifier.{
  Policy, Clock, Reason, Verdict, accepted, rejected, verify_strict, missing_or_invalid_signature,
  signature_scheme_not_allowed, invalid_hmac_signature, invalid_ed25519_signature,
  unsupported_signature_scheme,
}

-- How `handle_message` ends: with the message in the hands of the handler of its intent, with an
-- error response, or by raising.
pub data Response : Type 0 where
  handled : RoarMessage → Response
  invalid_signature invalid_delegation_token delegation_token_unauthorized : Response
  delegation_token_exhausted delegation_unverifiable invalid_delegation_signature : Response
  unhandled_intent failed : Response

pub record Server : Type 0 where
  pub identity : AgentIdentity
  pub signing_secret : String
  pub handles : MessageIntent → Bool

-- The readings of the clock: for the HMAC, for the expiry, and in `verify_token`.
pub record Times : Type 0 where
  pub verify_at : ℕ
  pub expiry_at : ℕ
  pub token_at : ℕ

-- an error response: the sender's message is answered by its id
unfoldable pub error_reply : Server → String → String → String → ℕ → RoarMessage → RoarMessage
error_reply s error text id now m = record {
  roar = "1.0";
  id = id;
  from_identity = s.identity;
  to_identity = m.from_identity;
  intent = MessageIntent.respond;
  payload = ("error", str error) ∷ ("message", str text) ∷ [];
  context = ("in_reply_to", str m.id) ∷ [];
  auth = [];
  timestamp = now;
}

abbrev pub Counts : Type 0
Counts = Dict ℕ

-- `msg.context.get("delegation_token")`, if it is there and not falsy
abbrev pub raw_token : RoarMessage → Option Json
raw_token m = elim (lookup "delegation_token" m.context) [
  | none ↦ none
  | some v ↦ if truthy v then some v else none
]

module _ (e : Ed25519) (hexdigest : String → String → String) (network : Network)
    (validate : Json → Option DelegationToken) where
  -- The test of the delegator's signature, on the key that its DID resolves to. A key that is no
  -- text makes the signature library raise, if the token comes that far.
  unfoldable pub check_delegator : ℕ → DelegationToken → Option Response
  check_delegator now t = elim (resolve_did_to_public_key network t.delegator_did) [
    | unresolved ↦ some delegation_unverifiable
    | raised ↦ some failed
    | not_text v ↦
        if is_valid now t && is_some (strip_prefix "ed25519:" t.signature)
        then some failed
        else some invalid_delegation_signature
    | key k ↦ elim (verify_token e now k t) [
      | none ↦ some failed
      | some true ↦ none
      | some false ↦ some invalid_delegation_signature
    ]
  ]

  -- The tests of a token: the counts of uses afterwards, and the response that refuses, if any.
  unfoldable pub check_token : Times → RoarMessage → Json → Counts → Counts × Option Response
  check_token times m raw counts = elim (validate raw) [
    | none ↦ (counts, some invalid_delegation_token)
    | some t ↦
        if not (t.delegate_did == m.from_identity.did)
        then (counts, some delegation_token_unauthorized)
        else if is_past times.expiry_at t.expires_at
        then (counts, some delegation_token_exhausted)
        else (let (counts', granted) = get_and_increment t.token_id t.max_uses counts in
            if granted
            then (counts', check_delegator times.token_at t)
            else (counts', some delegation_token_exhausted))
  ]

  abbrev pub dispatch : Server → RoarMessage → Response
  dispatch s m = if s.handles m.intent then handled m else unhandled_intent

  -- the tests after the signature
  unfoldable pub handle_verified : Times → Server → RoarMessage → Counts → Counts × Response
  handle_verified times s m counts = elim (raw_token m) [
    | none ↦ (counts, dispatch s m)
    | some raw ↦
        let (counts', refusal) = check_token times m raw counts in
        (counts', elim refusal [ none ↦ dispatch s m | some r ↦ r ])
  ]

  -- `signature_verified` says that the caller has verified the signature.
  unfoldable pub handle_message : Bool → Times → Server → RoarMessage → Counts → Counts × Response
  handle_message signature_verified times s m counts =
      if nonempty s.signing_secret && not signature_verified
      then elim (verify e.dumps hexdigest s.signing_secret 300 times.verify_at m) [
        | none ↦ (counts, failed)
        | some false ↦ (counts, invalid_signature)
        | some true ↦ handle_verified times s m counts
      ]
      else handle_verified times s m counts

  -- A request to the endpoint of `serve`: the length that its header gives, the length of its body
  -- and the message in it, if it parses.
  pub record HttpRequest : Type 0 where
    pub content_length : Option ℕ
    pub body_length : ℕ
    pub parsed : Option RoarMessage
    pub clock : Clock
    pub times : Times

  pub data HttpReply : Type 0 where
    request_too_large invalid_message duplicate_message : HttpReply
    verification_failed : Reason → HttpReply
    answered : Response → HttpReply
    server_error : HttpReply

  abbrev pub max_body_bytes : ℕ
  max_body_bytes = 1_048_576

  -- `"signature" in vr.error`
  abbrev pub is_signature_error : Reason → Bool
  is_signature_error missing_or_invalid_signature = true
  is_signature_error signature_scheme_not_allowed = true
  is_signature_error invalid_hmac_signature = true
  is_signature_error invalid_ed25519_signature = true
  is_signature_error unsupported_signature_scheme = true
  is_signature_error _ = false

  abbrev pub http_status : HttpReply → ℕ
  http_status request_too_large = 413
  http_status invalid_message = 400
  http_status duplicate_message = 409
  http_status (verification_failed r) = if is_signature_error r then 401 else 400
  http_status (answered r) = elim r [ failed ↦ 500 | _ ↦ 200 ]
  http_status server_error = 500

  -- the strict verifier of `serve`, with its replay guard
  abbrev pub serve_policy : Server → Guard → Policy
  serve_policy s guard = record {
    hmac_secret = s.signing_secret;
    hmac_secrets = [];
    expected_recipient = none;
    max_age = 300;
    max_future_skew = 30;
    replay_guard = some guard;
    allowed = "hmac-sha256" ∷ "ed25519" ∷ [];
    trusted_ed25519_keys = [];
  }

  abbrev pub guard_or : Guard → Option Guard → Guard
  guard_or g none = g
  guard_or g (some g') = g'

  abbrev pub too_large : Option ℕ → Bool
  too_large none = false
  too_large (some n) = ltb max_body_bytes n

  -- The server's own verification: the guard afterwards, and the reply that refuses, if any.
  unfoldable pub check_request : Clock → Server → RoarMessage → Guard → Guard × Option HttpReply
  check_request clock s m guard =
      if nonempty s.signing_secret
      then (let (p, v) = verify_strict e hexdigest clock m (serve_policy s guard) in
          (
            guard_or guard p.replay_guard,
            elim v [
              | accepted ↦ none
              | rejected r ↦ some (verification_failed r)
              | _ ↦ some server_error
            ],
          ))
      else (let (guard', seen) = is_duplicate clock.evicted_at clock.guard_at m.id guard in
          (guard', if seen then some duplicate_message else none))

  -- `POST /roar/message`: the guard and the counts afterwards, and the reply.
  unfoldable pub receive_message :
      Server → HttpRequest → Guard → Counts → Guard × Counts × HttpReply
  receive_message s q guard counts =
      if too_large q.content_length || ltb max_body_bytes q.body_length
      then (guard, counts, request_too_large)
      else elim q.parsed [
        | none ↦ (guard, counts, invalid_message)
        | some m ↦
            let (guard', refusal) = check_request q.clock s m guard in
            elim refusal [
              | some r ↦ (guard', counts, r)
              | none ↦
                  let (counts', r) = handle_message true q.times s m counts in
                  (guard', counts', answered r)
            ]
      ]
