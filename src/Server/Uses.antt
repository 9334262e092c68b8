-- ===== src/Server/Uses.antt =====
-- The uses of a delegation token.
use roar_protocol.Base.{
  ℕ, ◌+◌, ◌≤◌, String, ◌≡◌, refl, Bool, true, false, Option, none, some, List, [], ◌∷◌, ◌&&◌, not,
  arith, ◌==◌, if◌then◌else◌, All, Option-cases, inl, inr, is_some,
}
use roar_protocol.Json.{Json}
use roar_protocol.Types.{RoarMessage}
use roar_protocol.Signing.{Ed25519}
use roar_protocol.Did.{Network}
use roar_protocol.Delegation.{DelegationToken}
use roar_protocol.TokenStore.{get_count}
use roar_protocol.TokenStore.Limits
use roar_protocol.TokenStore.Limits.{get_count-get_and_increment, get_and_increment-Limited}
use roar_protocol.Server.{
  Server, Times, Counts, Response, handled, invalid_signature, invalid_delegation_token,
  delegation_token_unauthorized, delegation_token_exhausted, delegation_unverifiable,
  invalid_delegation_signature, unhandled_intent, failed, raw_token, check_token, handle_verified,
  handle_message,
}
use roar_protocol.Server.Admission.{check_token-refuses}

-- One message, with the readings of the clock.
pub record Call : Type 0 where
  pub verified : Bool
  pub times : Times
  pub message : RoarMessage

module _ (e : Ed25519) (hexdigest : String → String → String) (network : Network)
    (validate : Json → Option DelegationToken) where
  -- the token of a message, if it parses
  abbrev pub token_of : RoarMessage → Option DelegationToken
  token_of m = elim (raw_token m) [ none ↦ none | some raw ↦ validate raw ]

  abbrev pub carries : String → RoarMessage → Bool
  carries id m = elim (token_of m) [ none ↦ false | some t ↦ t.token_id == id ]

  abbrev pub is_handled : Response → Bool
  is_handled (handled m) = true
  is_handled _ = false

  -- The counts after the calls, and how many of them brought the token to a handler.
  unfoldable pub run : String → Server → List Call → Counts → Counts × ℕ
  run id s [] counts = (counts, 0)
  run id s (c ∷ cs) counts =
      let (counts', r) =
        handle_message e hexdigest network validate c.verified c.times s c.message counts in
      let (last, n) = run id s cs counts' in
      (last, if carries id c.message && is_handled r then n + 1 else n)

  -- Where the message carries the token, it carries the limit.
  abbrev pub Carries : String → ℕ → Call → Type 0
  Carries id limit c =
      (t : DelegationToken)
      → token_of c.message ≡ some t
      → t.token_id ≡ id
      → t.max_uses ≡ some limit

  -- One step: a use is counted if the token reached a handler, and the limit is kept.
  abbrev Counted : String → ℕ → Counts → Counts → Bool → Type 0
  Counted id limit counts counts' used =
      (get_count id counts + (if used then 1 else 0) ≤ get_count id counts')
      × (get_count id counts' ≤ limit)

  check_token-counts :
      (id : String) (limit : ℕ) (times : Times) (m : RoarMessage) (raw : Json) (counts : Counts)
      → ((t : DelegationToken) → validate raw ≡ some t → t.token_id ≡ id → t.max_uses ≡ some limit)
      → get_count id counts ≤ limit
      → Counted id limit counts
          (check_token e hexdigest network validate times m raw counts).0
          (elim (validate raw) [
            | none ↦ false
            | some t ↦
                t.token_id == id
                && not (is_some (check_token e hexdigest network validate times m raw counts).1)
          ])
  unfolding check_token
  check_token-counts id limit times m raw counts l h = elim (Option-cases (validate raw)) [
    | inl bad ↦ ground (arith, bad)
    | inr (t, p) ↦
        let c : Limits.Call = record { token = t.token_id; max_uses = t.max_uses } in
        ground (
          arith,
          p,
          get_count-get_and_increment id c counts,
          get_and_increment-Limited id limit c counts (l t p) h,
        )
  ]

  is_handled-refused :
      (times : Times) (m : RoarMessage) (raw : Json) (counts : Counts) (r : Response)
      → (check_token e hexdigest network validate times m raw counts).1 ≡ some r
      → is_handled r ≡ false
  is_handled-refused times m raw counts (handled m') h =
      absurd (check_token-refuses e hexdigest network validate times m raw counts m' h)
  is_handled-refused times m raw counts invalid_signature h = refl
  is_handled-refused times m raw counts invalid_delegation_token h = refl
  is_handled-refused times m raw counts delegation_token_unauthorized h = refl
  is_handled-refused times m raw counts delegation_token_exhausted h = refl
  is_handled-refused times m raw counts delegation_unverifiable h = refl
  is_handled-refused times m raw counts invalid_delegation_signature h = refl
  is_handled-refused times m raw counts unhandled_intent h = refl
  is_handled-refused times m raw counts failed h = refl

  handle_verified-counts :
      (id : String) (limit : ℕ) (times : Times) (s : Server) (m : RoarMessage) (counts : Counts)
      → ((t : DelegationToken) → token_of m ≡ some t → t.token_id ≡ id → t.max_uses ≡ some limit)
      → get_count id counts ≤ limit
      → let (counts', r) = handle_verified e hexdigest network validate times s m counts in
        Counted id limit counts counts' (carries id m && is_handled r)
  unfolding handle_verified
  handle_verified-counts id limit times s m counts l h = elim (Option-cases (raw_token m)) [
    | inl absent ↦ ground (arith, absent)
    | inr (raw, there) ↦
        let c =
          check_token-counts id limit times m raw counts (λ t p. l t (ground (arith, there, p)))
            h in
        elim (Option-cases (check_token e hexdigest network validate times m raw counts).1) [
          | inl passed ↦ ground (arith, there, c, passed)
          | inr (r, refused) ↦
              ground (arith, there, c, refused, is_handled-refused times m raw counts r refused)
        ]
  ]

  handle_message-counts :
      (id : String) (limit : ℕ) (c : Call) (s : Server) (counts : Counts)
      → Carries id limit c
      → get_count id counts ≤ limit
      → let (counts', r) =
          handle_message e hexdigest network validate c.verified c.times s c.message counts in
        Counted id limit counts counts' (carries id c.message && is_handled r)
  unfolding handle_message
  handle_message-counts id limit c s counts l h =
      ground (arith, handle_verified-counts id limit c.times s c.message counts l h)

  run-Counted :
      (id : String) (limit : ℕ) (s : Server) (cs : List Call) (counts : Counts)
      → All (Carries id limit) cs
      → get_count id counts ≤ limit
      → (get_count id counts + (run id s cs counts).1 ≤ get_count id (run id s cs counts).0)
        × (get_count id (run id s cs counts).0 ≤ limit)
  unfolding run
  run-Counted id limit s [] counts l h = omega arith
  run-Counted id limit s (c ∷ cs) counts l h =
      let counts' =
        (handle_message e hexdigest network validate c.verified c.times s c.message counts).0 in
      let step = handle_message-counts id limit c s counts l.0 h in
      let rest = run-Counted id limit s cs counts' l.1 step.1 in ground (arith, step, rest)

  -- Over any sequence of messages that the server handles, a delegation token whose messages all
  -- carry one limit brings at most as many of them to a handler as the limit leaves, whatever the
  -- use count that the sender claims.
  pub run-Carries :
      (id : String) (limit : ℕ) (s : Server) (cs : List Call) (counts : Counts)
      → All (Carries id limit) cs
      → get_count id counts ≤ limit
      → get_count id counts + (run id s cs counts).1 ≤ limit
  run-Carries id limit s cs counts l h =
      let (grown, kept) = run-Counted id limit s cs counts l h in omega (arith, grown, kept)
