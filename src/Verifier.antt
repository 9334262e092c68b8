-- ===== src/Verifier.antt =====
-- The strict verifier, `StrictMessageVerifier` of python/src/roar_sdk/verifier.py. A call reads the
-- clock for the age test, and the replay guard reads it twice more.
pub mod Soundness
pub mod Replay
mod Tests
use roar_protocol.Base.{
  suc, ℕ, zero, suc, ◌+◌, String, Bool, true, false, ◌&&◌, not, Option, none, some, List, [], ◌∷◌,
  ltb, elem, ◌==◌, if◌then◌else◌, nonempty, strip_prefix, split_colon,
}
use roar_protocol.Base.Dict.{Dict, lookup, contains}
use roar_protocol.Json.{
  field, cons, Json, Number, finite, not_a_number, null, bool, num, nan, str, arr, obj, nil, cons,
  end, field, number?,
}
use roar_protocol.Types.{RoarMessage}
use roar_protocol.Types.Message.{verify}
use roar_protocol.Dedup.{Guard, is_duplicate}
use roar_protocol.Signing.{Ed25519, verify_ed25519}

pub data Reason : Type 0 where
  unsupported_protocol_version missing_or_invalid_signature signature_scheme_not_allowed : Reason
  unknown_key_identifier recipient_mismatch missing_or_invalid_auth_timestamp : Reason
  message_expired message_from_future replay_detected missing_hmac_secret : Reason
  invalid_hmac_signature ed25519_no_trusted_key invalid_ed25519_signature : Reason
  unsupported_signature_scheme : Reason

-- `VerificationResult`, or that the call raised
pub data Verdict : Type 0 where
  accepted : Verdict
  rejected : Reason → Verdict
  raised : Verdict

pub record Policy : Type 0 where
  pub hmac_secret : String
  pub hmac_secrets : Dict String
  pub expected_recipient : Option String
  pub max_age : ℕ
  pub max_future_skew : ℕ
  pub replay_guard : Option Guard
  pub allowed : List String
  pub trusted_ed25519_keys : Dict String

-- When a call reads the clock: for the age, in the guard's eviction, and in the guard after it.
pub record Clock : Type 0 where
  pub age_at : ℕ
  pub evicted_at : ℕ
  pub guard_at : ℕ

abbrev pub is_empty {ℓ} : {A : Type ℓ} → List A → Bool
is_empty [] = true
is_empty (x ∷ xs) = false

-- the scheme before the first colon of the signature, none where there is no such text
abbrev pub scheme_of : Option Json → Option String
scheme_of (some (str s)) = elim (split_colon s) [ none ↦ none | some (a, b) ↦ some a ]
scheme_of _ = none

-- the key identifier test: false where a text `kid` names no known key
abbrev pub kid_known : Policy → String → Option Json → Bool
kid_known p scheme (some (str kid)) =
    if scheme == "hmac-sha256" && not (is_empty p.hmac_secrets)
    then contains kid p.hmac_secrets
    else if scheme == "ed25519"
    then contains kid p.trusted_ed25519_keys
    else true
kid_known p scheme _ = true

abbrev pub recipient_ok : Policy → RoarMessage → Bool
recipient_ok p m = elim p.expected_recipient [
  | none ↦ true
  | some did ↦ if nonempty did then m.to_identity.did == did else true
]

-- The time tests: `now - ts > max_age` and `ts - now > max_future_skew`, both False for NaN.
abbrev pub time_error : Policy → ℕ → Number → Option Reason
time_error p now not_a_number = none
time_error p now (finite ts) =
    if ltb (ts + p.max_age) now
    then some message_expired
    else if ltb (now + p.max_future_skew) ts
    then some message_from_future
    else none

-- the guard, asked for the message's id
abbrev pub ask_guard : Policy → Clock → String → Policy × Bool
ask_guard p t id = elim p.replay_guard [
  | none ↦ (p, false)
  | some g ↦
      let (g', seen) = is_duplicate t.evicted_at t.guard_at id g in
      (record p { replay_guard = some g' }, seen)
]

-- `hmac_secrets.get(kid, "")` for a `kid` that is not falsy, if there are such secrets; none where
-- the value is a list or a dict, which the lookup cannot hash
abbrev pub hmac_key : Policy → Option Json → Option String
hmac_key p kid = if is_empty p.hmac_secrets then some p.hmac_secret else elim kid [
  | none ↦ some p.hmac_secret
  | some null ↦ some p.hmac_secret
  | some (bool false) ↦ some p.hmac_secret
  | some (bool true) ↦ some ""
  | some (num zero) ↦ some p.hmac_secret
  | some (num (suc n)) ↦ some ""
  | some nan ↦ some ""
  | some (str k) ↦
      if nonempty k
      then elim (lookup k p.hmac_secrets) [ none ↦ some "" | some s ↦ some s ]
      else some p.hmac_secret
  | some (arr nil) ↦ some p.hmac_secret
  | some (arr (cons x xs)) ↦ none
  | some (obj end) ↦ some p.hmac_secret
  | some (obj (field k v fs)) ↦ none
]

-- The outcome of the tests before the replay guard: the signature's scheme, or an error.
pub data Header : Type 0 where
  pass : String → Header
  fail : Reason → Header

-- the recipient and time tests
abbrev pub check_delivery : Policy → ℕ → RoarMessage → String → Header
check_delivery p now m scheme =
    if recipient_ok p m
    then elim (lookup "timestamp" m.auth) [
      | none ↦ fail missing_or_invalid_auth_timestamp
      | some v ↦ elim (number? v) [
        | none ↦ fail missing_or_invalid_auth_timestamp
        | some ts ↦ elim (time_error p now ts) [ none ↦ pass scheme | some r ↦ fail r ]
      ]
    ]
    else fail recipient_mismatch

unfoldable pub check_header : Policy → ℕ → RoarMessage → Header
check_header p now m = elim (strip_prefix "1." m.roar) [
  | none ↦ fail unsupported_protocol_version
  | some minor ↦ elim (scheme_of (lookup "signature" m.auth)) [
    | none ↦ fail missing_or_invalid_signature
    | some scheme ↦
        if elem scheme p.allowed
        then if kid_known p scheme (lookup "kid" m.auth)
          then check_delivery p now m scheme
          else fail unknown_key_identifier
        else fail signature_scheme_not_allowed
  ]
]

abbrev pub verdict_of : Reason → Option Bool → Verdict
verdict_of r none = raised
verdict_of r (some true) = accepted
verdict_of r (some false) = rejected r

-- The signature tests, the last ones; `max_age_seconds=0` skips the time tests of the two schemes.
module _ (e : Ed25519) (hexdigest : String → String → String) where
  unfoldable pub check_signature : Policy → String → RoarMessage → Verdict
  check_signature p scheme m =
      if scheme == "hmac-sha256"
      then elim (hmac_key p (lookup "kid" m.auth)) [
        | none ↦ raised
        | some secret ↦
            if nonempty secret
            then verdict_of invalid_hmac_signature (verify e.dumps hexdigest secret 0 0 m)
            else rejected missing_hmac_secret
      ]
      else if scheme == "ed25519"
      then elim (lookup m.from_identity.did p.trusted_ed25519_keys) [
        | none ↦ rejected ed25519_no_trusted_key
        | some key ↦
            if nonempty key
            then verdict_of invalid_ed25519_signature (verify_ed25519 e 0 0 (some key) m)
            else rejected ed25519_no_trusted_key
      ]
      else rejected unsupported_signature_scheme

  -- The verdict, and the policy with the guard as the call leaves it.
  unfoldable pub verify_strict : Clock → RoarMessage → Policy → Policy × Verdict
  verify_strict t m p = elim (check_header p t.age_at m) [
    | fail r ↦ (p, rejected r)
    | pass scheme ↦
        let (p', seen) = ask_guard p t m.id in
        if seen then (p', rejected replay_detected) else (p', check_signature p scheme m)
  ]
