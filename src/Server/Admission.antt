-- ===== src/Server/Admission.antt =====
-- The tests of a message before its handler.
use roar_protocol.Base.{
  ◌⊎◌, ℕ, ◌+◌, String, ◌≡◌, ◌≢◌, refl, Bool, true, false, ◌&&◌, not, Option, none, some, arith,
  ◌==◌, if◌then◌else◌, nonempty, Option-cases, Bool-cases, inl, inr,
}
use roar_protocol.Json.{Json}
use roar_protocol.Types.{RoarMessage}
use roar_protocol.Types.Message.{verify}
use roar_protocol.Signing.{Ed25519}
use roar_protocol.Did.{
  Network, Resolution, key, unresolved, not_text, raised, resolve_did_to_public_key,
}
use roar_protocol.Delegation.{DelegationToken, is_past, verify_token}
use roar_protocol.TokenStore.Limits.{get_count-get_and_increment}
use mathlib.Core.Path.{subst}
use roar_protocol.TokenStore.{get_count, get_and_increment}
use roar_protocol.Server.{
  Server, Times, Counts, handled, raw_token, check_delegator, check_token, dispatch,
  handle_verified, handle_message, invalid_delegation_signature,
}

module _ (e : Ed25519) (hexdigest : String → String → String) (network : Network)
    (validate : Json → Option DelegationToken) where
  -- A token that was good for the message: it was issued to the sender, had not expired, had a use
  -- left in the store, and its signature verifies under the key of the delegator's DID.
  pub record Delegated (times : Times) (m : RoarMessage) (raw : Json) (counts : Counts)
      : Type 0 where
    pub token : DelegationToken
    pub public_key : String
    pub parsed : validate raw ≡ some token
    pub bound : token.delegate_did ≡ m.from_identity.did
    pub live : is_past times.expiry_at token.expires_at ≡ false
    pub granted : (get_and_increment token.token_id token.max_uses counts).1 ≡ true
    pub resolved : resolve_did_to_public_key network token.delegator_did ≡ key public_key
    pub signed : verify_token e times.token_at public_key token ≡ some true

  Resolution-cases :
      (r : Resolution)
      → (r ≡ unresolved)
        ⊎ ((r ≡ raised) ⊎ (((v : Json) × (r ≡ not_text v)) ⊎ ((k : String) × (r ≡ key k))))
  Resolution-cases unresolved = inl refl
  Resolution-cases raised = inr (inl refl)
  Resolution-cases (not_text v) = inr (inr (inl (v, refl)))
  Resolution-cases (key k) = inr (inr (inr (k, refl)))

  check_delegator-none :
      (now : ℕ) (t : DelegationToken)
      → check_delegator e hexdigest network validate now t ≡ none
      → (k : String) × (resolve_did_to_public_key network t.delegator_did ≡ key k)
        × (verify_token e now k t ≡ some true)
  unfolding check_delegator
  check_delegator-none now t h =
      elim (Resolution-cases (resolve_did_to_public_key network t.delegator_did)) [
        | inl r ↦ absurd (ground arith)
        | inr (inl r) ↦ absurd (ground arith)
        | inr (inr (inl (v, r))) ↦ absurd (ground arith)
        | inr (inr (inr (k, r))) ↦ (k, r, ground arith)
      ]

  check_token-none :
      (times : Times) (m : RoarMessage) (raw : Json) (counts : Counts)
      → (check_token e hexdigest network validate times m raw counts).1 ≡ none
      → Delegated times m raw counts
  unfolding check_token
  check_token-none times m raw counts h = elim (Option-cases (validate raw)) [
    | inl bad ↦ absurd (ground arith)
    | inr (t, p) ↦
        let (k, r, v) = check_delegator-none times.token_at t (ground arith) in
        record {
          token = t;
          public_key = k;
          parsed = p;
          bound = ground arith;
          live = ground arith;
          granted = ground arith;
          resolved = r;
          signed = v;
        }
  ]

  check_delegator-refuses :
      (now : ℕ) (t : DelegationToken) (m' : RoarMessage)
      → check_delegator e hexdigest network validate now t ≢ some (handled m')
  unfolding check_delegator
  check_delegator-refuses now t m' h =
      elim (Resolution-cases (resolve_did_to_public_key network t.delegator_did)) [
        | inl r ↦ ground arith
        | inr (inl r) ↦ ground arith
        | inr (inr (inl (v, r))) ↦ ground arith
        | inr (inr (inr (k, r))) ↦ ground arith
      ]

  pub check_token-refuses :
      (times : Times) (m : RoarMessage) (raw : Json) (counts : Counts) (m' : RoarMessage)
      → (check_token e hexdigest network validate times m raw counts).1 ≢ some (handled m')
  unfolding check_token
  check_token-refuses times m raw counts m' h = elim (Option-cases (validate raw)) [
    | inl bad ↦ ground arith
    | inr (t, p) ↦ ground (arith, check_delegator-refuses times.token_at t m')
  ]

  dispatch-handled :
      (s : Server) (m m' : RoarMessage)
      → dispatch e hexdigest network validate s m ≡ handled m'
      → (m ≡ m') × (s.handles m.intent ≡ true)
  dispatch-handled s m m' h = ground arith

  handle_verified-handled :
      (times : Times) (s : Server) (m m' : RoarMessage) (counts : Counts)
      → (handle_verified e hexdigest network validate times s m counts).1 ≡ handled m'
      → (m ≡ m')
        × (s.handles m.intent ≡ true)
        × ((raw : Json) → raw_token m ≡ some raw → Delegated times m raw counts)
  unfolding handle_verified
  handle_verified-handled times s m m' counts h = elim (Option-cases (raw_token m)) [
    | inl absent ↦
        let (same, ready) = dispatch-handled s m m' (ground arith) in
        (same, ready, λ raw there. absurd (ground arith))
    | inr (raw, there) ↦
        elim (Option-cases (check_token e hexdigest network validate times m raw counts).1) [
          | inl passed ↦
              let (same, ready) = dispatch-handled s m m' (ground arith) in
              let good = check_token-none times m raw counts passed in
              (
                same,
                ready,
                λ raw' there'.
                    let e' : raw ≡ raw' = ground arith in
                    subst (λ r. Delegated times m r counts) e' good,
              )
          | inr (r, refused) ↦ absurd (ground (arith, check_token-refuses times m raw counts m'))
        ]
  ]

  -- A message that reaches a handler is the one that came in, and its intent has a handler. Where
  -- the server has a signing secret and the caller had not verified the signature, its HMAC is
  -- good; and where it carries a delegation token, the token was issued to its sender, had not
  -- expired, had a use left, and is signed by the key of the delegator's DID.
  pub handle_message-handled :
      (verified : Bool) (times : Times) (s : Server) (m m' : RoarMessage) (counts : Counts)
      → (handle_message e hexdigest network validate verified times s m counts).1 ≡ handled m'
      → (m ≡ m')
        × (s.handles m.intent ≡ true)
        × (nonempty s.signing_secret && not verified ≡ true
            → verify e.dumps hexdigest s.signing_secret 300 times.verify_at m ≡ some true)
        × ((raw : Json) → raw_token m ≡ some raw → Delegated times m raw counts)
  unfolding handle_message
  handle_message-handled verified times s m m' counts h =
      elim (Bool-cases (nonempty s.signing_secret && not verified)) [
        | inl asked ↦
            let good : verify e.dumps hexdigest s.signing_secret 300 times.verify_at m ≡ some true =
              ground arith in
            let (same, ready, token) =
              handle_verified-handled times s m m' counts (ground (arith, good)) in
            (same, ready, λ _. good, token)
        | inr skipped ↦
            let (same, ready, token) = handle_verified-handled times s m m' counts (ground arith) in
            (same, ready, λ asked. absurd (ground arith), token)
      ]

  -- The use of a token is counted before its signature is checked: a token that is refused for its
  -- signature has taken a use from the id that it names, and from no other, though anyone can name
  -- it.
  pub check_token-forged :
      (times : Times) (m : RoarMessage) (raw : Json) (counts : Counts) (t : DelegationToken)
      (id : String)
      → validate raw ≡ some t
      → (check_token e hexdigest network validate times m raw counts).1
        ≡ some invalid_delegation_signature
      → get_count id (check_token e hexdigest network validate times m raw counts).0
        ≡ get_count id counts + (if t.token_id == id then 1 else 0)
  unfolding check_token
  check_token-forged times m raw counts t id parsed h = ground (
    arith,
    parsed,
    get_count-get_and_increment id (record { token = t.token_id; max_uses = t.max_uses }) counts,
  )
