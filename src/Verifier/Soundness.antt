-- ===== src/Verifier/Soundness.antt =====
-- What an accepted message has passed.
use roar_protocol.Base.{
  str_dec, ℕ, ◌+◌, ◌≤◌, String, ◌≡◌, ◌≢◌, refl, inl, inr, Bool, true, false, Option, none, some,
  arith, elem, nonempty, strip_prefix, Option-cases, Bool-cases,
}
use roar_protocol.Base.Dict.{lookup}
use roar_protocol.Json.{Json, number?, finite, not_a_number}
use roar_protocol.Types.{RoarMessage}
use roar_protocol.Types.Message.{verify}
use roar_protocol.Signing.{Ed25519, verify_ed25519}
use roar_protocol.Verifier.{
  ask_guard, invalid_ed25519_signature, verdict_of, invalid_hmac_signature, Reason, Policy, Clock,
  Header, pass, fail, accepted, check_header, check_signature, verify_strict, hmac_key,
  recipient_ok, scheme_of, kid_known,
}

-- The time of a message is NaN, or a number of seconds, not more than `max_age` ago and not more than
-- `max_future_skew` ahead.
abbrev pub InWindow : Policy → ℕ → Option Json → Type 0
InWindow p now none = ⊥
InWindow p now (some v) = elim (number? v) [
  | none ↦ ⊥
  | some not_a_number ↦ Unit
  | some (finite ts) ↦ (now ≤ ts + p.max_age) × (ts ≤ now + p.max_future_skew)
]

-- What the tests before the replay guard ensure of a message that passes them.
pub record PassesHeader (p : Policy) (now : ℕ) (m : RoarMessage) (scheme : String) : Type 0 where
  pub version : strip_prefix "1." m.roar ≢ none
  pub signature : scheme_of (lookup "signature" m.auth) ≡ some scheme
  pub allowed : elem scheme p.allowed ≡ true
  pub known_key : kid_known p scheme (lookup "kid" m.auth) ≡ true
  pub recipient : recipient_ok p m ≡ true
  pub window : InWindow p now (lookup "timestamp" m.auth)

check_header-pass :
    (p : Policy) (now : ℕ) (m : RoarMessage) (scheme : String)
    → check_header p now m ≡ pass scheme
    → PassesHeader p now m scheme
unfolding check_header
check_header-pass p now m scheme h = record {
  version = ground arith;
  signature = ground arith;
  allowed = ground arith;
  known_key = ground arith;
  recipient = ground arith;
  window = ground arith;
}

-- Which key and which signature scheme have confirmed the message: a shared secret of the policy,
-- or the policy's own Ed25519 key for the sender, whatever key the message names.
pub data Confirmed (e : Ed25519) (hexdigest : String → String → String) (p : Policy)
    (m : RoarMessage) : String → Type 0 where
  by_secret :
      (secret : String)
      → hmac_key p (lookup "kid" m.auth) ≡ some secret
      → nonempty secret ≡ true
      → verify e.dumps hexdigest secret 0 0 m ≡ some true
      → Confirmed e hexdigest p m "hmac-sha256"
  by_key :
      (key : String)
      → lookup m.from_identity.did p.trusted_ed25519_keys ≡ some key
      → nonempty key ≡ true
      → verify_ed25519 e 0 0 (some key) m ≡ some true
      → Confirmed e hexdigest p m "ed25519"

module _ (e : Ed25519) (hexdigest : String → String → String) where
  verdict-accepted : (r : Reason) (o : Option Bool) → verdict_of r o ≡ accepted → o ≡ some true
  verdict-accepted r none h = cc
  verdict-accepted r (some true) h = refl
  verdict-accepted r (some false) h = cc

  Confirmed-by_secret :
      (p : Policy) (m : RoarMessage)
      → check_signature e hexdigest p "hmac-sha256" m ≡ accepted
      → Confirmed e hexdigest p m "hmac-sha256"
  unfolding check_signature
  Confirmed-by_secret p m h = elim (Option-cases (hmac_key p (lookup "kid" m.auth))) [
    | inl unhashable ↦ absurd (ground (arith, unhashable, h))
    | inr (secret, e1) ↦ elim (Bool-cases (nonempty secret)) [
      | inl full ↦ by_secret secret e1 full (
          verdict-accepted invalid_hmac_signature (verify e.dumps hexdigest secret 0 0 m)
            (ground arith))
      | inr blank ↦ absurd (ground arith)
    ]
  ]

  Confirmed-by_key :
      (p : Policy) (m : RoarMessage)
      → check_signature e hexdigest p "ed25519" m ≡ accepted
      → Confirmed e hexdigest p m "ed25519"
  unfolding check_signature str_dec
  Confirmed-by_key p m h = elim (Option-cases (lookup m.from_identity.did p.trusted_ed25519_keys)) [
    | inl unknown ↦ absurd (ground arith)
    | inr (key, e1) ↦ elim (Bool-cases (nonempty key)) [
      | inl full ↦ by_key key e1 full (
          verdict-accepted invalid_ed25519_signature (verify_ed25519 e 0 0 (some key) m)
            (ground arith))
      | inr blank ↦ absurd (ground arith)
    ]
  ]

  other_scheme :
      (p : Policy) (scheme : String) (m : RoarMessage)
      → scheme ≢ "hmac-sha256"
      → scheme ≢ "ed25519"
      → check_signature e hexdigest p scheme m ≢ accepted
  unfolding check_signature
  other_scheme p scheme m n n' h = ground arith

  confirmed :
      (p : Policy) (scheme : String) (m : RoarMessage)
      → check_signature e hexdigest p scheme m ≡ accepted
      → Confirmed e hexdigest p m scheme
  confirmed p scheme m h = elim (str_dec scheme "hmac-sha256") [
    | yes q ↦ rw q (Confirmed-by_secret p m (rw q at h))
    | no n ↦ elim (str_dec scheme "ed25519") [
      | yes q ↦ rw q (Confirmed-by_key p m (rw q at h))
      | no n' ↦ absurd (other_scheme p scheme m n n' h)
    ]
  ]

  accepted_parts :
      (t : Clock) (m : RoarMessage) (p : Policy) (header : Header)
      → check_header p t.age_at m ≡ header
      → (verify_strict e hexdigest t m p).1 ≡ accepted
      → (scheme : String) × PassesHeader p t.age_at m scheme
        × ((ask_guard p t m.id).1 ≡ false)
        × Confirmed e hexdigest p m scheme
  unfolding verify_strict
  accepted_parts t m p (fail r) q h = absurd (ground arith)
  accepted_parts t m p (pass scheme) q h =
      let fresh : (ask_guard p t m.id).1 ≡ false = ground arith in
      (scheme, check_header-pass p t.age_at m scheme q, fresh, confirmed p scheme m (ground arith))

  -- An accepted message has protocol version 1, a signature of an allowed scheme, a known key
  -- identifier if it names one, the expected recipient, and a time that is inside the window or NaN; the
  -- replay guard, if there is one, had not seen its id; and its signature was confirmed under a
  -- secret of the policy or the policy's key for its sender.
  pub verify_strict-accepted :
      (t : Clock) (m : RoarMessage) (p : Policy)
      → (verify_strict e hexdigest t m p).1 ≡ accepted
      → (scheme : String) × PassesHeader p t.age_at m scheme
        × ((ask_guard p t m.id).1 ≡ false)
        × Confirmed e hexdigest p m scheme
  verify_strict-accepted t m p h = accepted_parts t m p (check_header p t.age_at m) refl h
