-- ===== src/Router.antt =====
-- The router of python/src/roar_sdk/router.py: the tests that a message passes on its way to
-- `ROARServer.handle_message`, over HTTP and over a WebSocket. Parsing the body is pydantic's: a
-- request carries the parsed message, none where validation fails.
pub mod Dispatch
pub mod Replay
mod Tests
use roar_protocol.Base.{
  ℕ, ◌+◌, String, Bool, true, false, Option, none, some, List, [], ◌∷◌, ltb, if◌then◌else◌, length,
  nonempty, strip_prefix, compare_digest,
}
use roar_protocol.Base.Dict.{Dict, lookup, contains, insert, erase_all, keys_where}
use roar_protocol.Types.{RoarMessage}
use roar_protocol.Types.Message.{verify}
use roar_protocol.Bucket.{Bucket, consume}
use roar_protocol.Signing.{Ed25519}
use roar_protocol.Verifier.{
  Policy, Clock, Verdict, Reason, accepted, rejected, raised, verify_strict,
}

-- `_SEEN_MAX`, `_SEEN_TTL`, and the default `max_age_seconds` of `ROARMessage.verify`
abbrev pub seen_max : ℕ
seen_max = 10_000

abbrev pub seen_ttl : ℕ
seen_ttl = 600

abbrev pub message_max_age : ℕ
message_max_age = 300

-- What the handlers of one router share.
pub record State : Type 0 where
  pub limiter : Option Bucket
  pub seen : Dict ℕ
  pub strict : Option Policy
  pub signing_secret : String

-- A request, with the readings of the clocks: the bucket's, the signature test's, the replay
-- test's, and those of the strict verifier.
pub record Request : Type 0 where
  pub parsed : Option RoarMessage
  pub bucket_at : ℕ
  pub verify_at : ℕ
  pub replay_at : ℕ
  pub strict_clock : Clock

pub data Reply : Type 0 where
  rate_limited invalid_message no_signing_secret signature_invalid duplicate_message : Reply
  verification_failed : Reason → Reply
  dispatched : RoarMessage → Reply
  internal_error : Reply

abbrev pub status_code : Reply → ℕ
status_code rate_limited = 429
status_code invalid_message = 400
status_code (verification_failed r) = 400
status_code no_signing_secret = 401
status_code signature_invalid = 401
status_code duplicate_message = 409
status_code (dispatched m) = 200
status_code internal_error = 500

-- `_check_rate`: the limiter afterwards, and whether the request is limited
unfoldable pub check_rate : ℕ → State → State × Bool
check_rate now s = elim s.limiter [
  | none ↦ (s, false)
  | some b ↦
      let (b', ok) = consume now b in (record s { limiter = some b' }, if ok then false else true)
]

abbrev pub stale : ℕ → ℕ → Bool
stale now seen_at = ltb (seen_at + seen_ttl) now

-- the table of ids after the purge that a table over its size gets
abbrev pub purged : ℕ → Dict ℕ → Dict ℕ
purged now seen =
    if ltb seen_max (length seen) then erase_all (keys_where (stale now) seen) seen else seen

-- `_check_replay`
unfoldable pub check_replay : ℕ → String → Dict ℕ → Dict ℕ × Bool
check_replay now id seen =
    let kept = purged now seen in
    if contains id kept then (kept, true) else (insert id now kept, false)

-- `_verify_bearer`: whether the call passes; none where the comparison raises
unfoldable pub verify_bearer : String → Option String → Option Bool
verify_bearer auth_token authorization =
    if nonempty auth_token
    then elim authorization [
      | none ↦ some false
      | some header ↦ elim (strip_prefix "Bearer " header) [
        | none ↦ some false
        | some token ↦ compare_digest token auth_token
      ]
    ]
    else some true

module _ (e : Ed25519) (hexdigest : String → String → String) where
  -- the tests without a strict verifier
  unfoldable pub receive_signed : Request → RoarMessage → State → State × Reply
  receive_signed q m s =
      if nonempty s.signing_secret
      then elim (verify e.dumps hexdigest s.signing_secret message_max_age q.verify_at m) [
        | none ↦ (s, internal_error)
        | some false ↦ (s, signature_invalid)
        | some true ↦
            let (seen, duplicate) = check_replay q.replay_at m.id s.seen in
            (record s { seen = seen }, if duplicate then duplicate_message else dispatched m)
      ]
      else (s, no_signing_secret)

  abbrev pub strict_reply : RoarMessage → Verdict → Reply
  strict_reply m accepted = dispatched m
  strict_reply m (rejected r) = verification_failed r
  strict_reply m raised = internal_error

  -- the tests after the rate limit, on a parsed message
  unfoldable pub receive : Request → RoarMessage → State → State × Reply
  receive q m s = elim s.strict [
    | none ↦ receive_signed q m s
    | some p ↦
        let (p', v) = verify_strict e hexdigest q.strict_clock m p in
        (record s { strict = some p' }, strict_reply m v)
  ]

  -- `POST /roar/message`
  unfoldable pub handle_message : Request → State → State × Reply
  handle_message q s =
      let (s', limited) = check_rate q.bucket_at s in
      if limited
      then (s', rate_limited)
      else elim q.parsed [ none ↦ (s', invalid_message) | some m ↦ receive q m s' ]

  -- One frame of the WebSocket, after the authentication: the strict verifier is not asked, and
  -- what raises or does not parse is answered with a processing error.
  unfoldable pub handle_frame : Request → State → State × Reply
  handle_frame q s =
      let (s', limited) = check_rate q.bucket_at s in
      if limited
      then (s', rate_limited)
      else elim q.parsed [ none ↦ (s', internal_error) | some m ↦ receive_signed q m s' ]
