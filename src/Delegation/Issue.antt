-- ===== src/Delegation/Issue.antt =====
-- Issued tokens verify; what the arguments of `issue_token` do, and do not, restrict.
use roar_protocol.Base.{
  ℕ, String, ◌≡◌, ◌≢◌, refl, inl, inr, true, false, Option, none, some, arith, strip_prefix-append,
  append_text, Option-cases,
}
use roar_protocol.Signing.{Ed25519, check_text}
use roar_protocol.Signing.Cards.{IsKeyPair}
use roar_protocol.Delegation.{
  DelegationToken, Grant, issued, expiry, unsigned, is_valid, is_past, is_used_up, signing_body,
  issue_token, verify_token,
}

not_used_up : (limit : Option ℕ) → limit ≢ some 0 → is_used_up 0 limit ≡ false
not_used_up none h = refl
not_used_up (some n) h = ground arith

module _ (e : Ed25519) where
  issue_token-bad_key :
      (g : Grant) (private_key token_id : String) (parent : Option DelegationToken)
      (expiry_at issued_at : ℕ) (t : DelegationToken)
      → e.sign private_key (e.dumps (signing_body (unsigned g token_id expiry_at issued_at))) ≡ none
      → issue_token e g private_key parent token_id expiry_at issued_at ≢ issued t
  unfolding issue_token
  issue_token-bad_key g private_key token_id parent expiry_at issued_at t bad h = ground arith

  issue_token-signed :
      (g : Grant) (private_key token_id : String) (parent : Option DelegationToken)
      (expiry_at issued_at : ℕ) (t : DelegationToken) (sig : String)
      → e.sign private_key (e.dumps (signing_body (unsigned g token_id expiry_at issued_at)))
        ≡ some sig
      → issue_token e g private_key parent token_id expiry_at issued_at ≡ issued t
      → record (unsigned g token_id expiry_at issued_at) { signature = append_text "ed25519:" sig }
        ≡ t
  unfolding issue_token
  issue_token-signed g private_key token_id parent expiry_at issued_at t sig q h = ground arith

  signing_body-signature :
      (t : DelegationToken) (sig : String)
      → signing_body (record t { signature = sig }) ≡ signing_body t
  unfolding signing_body
  signing_body-signature t sig = refl

  verify_token-signed :
      (public_key : String) (now : ℕ) (t : DelegationToken) (sig : String)
      → is_past now t.expires_at ≡ false
      → is_used_up t.use_count t.max_uses ≡ false
      → check_text e public_key sig (e.dumps (signing_body t)) ≡ some true
      → verify_token e now public_key (record t { signature = append_text "ed25519:" sig })
        ≡ some true
  unfolding verify_token
  verify_token-signed public_key now t sig live fresh good = ground (
    arith,
    strip_prefix-append "ed25519:" sig,
    signing_body-signature t (append_text "ed25519:" sig),
  )

  -- A token that was issued verifies under the delegator's public key as long as it has not expired,
  -- if its limit of uses is not zero.
  pub verify_token-issue_token :
      (g : Grant) (private_key public_key token_id : String) (parent : Option DelegationToken)
      (expiry_at issued_at now : ℕ) (t : DelegationToken)
      → IsKeyPair e private_key public_key
      → g.max_uses ≢ some 0
      → is_past now (expiry expiry_at g.expires_in) ≡ false
      → issue_token e g private_key parent token_id expiry_at issued_at ≡ issued t
      → verify_token e now public_key t ≡ some true
  verify_token-issue_token g private_key public_key token_id parent expiry_at issued_at now t pair
        uses live h =
      let raw = unsigned g token_id expiry_at issued_at in
      elim (Option-cases (e.sign private_key (e.dumps (signing_body raw)))) [
        | inl bad ↦
            absurd (issue_token-bad_key g private_key token_id parent expiry_at issued_at t bad h)
        | inr (sig, q) ↦
            let final = record raw { signature = append_text "ed25519:" sig } in
            let made : final ≡ t =
              issue_token-signed g private_key token_id parent expiry_at issued_at t sig q h in
            rw (← made) (
              verify_token-signed public_key now raw sig live (not_used_up g.max_uses uses)
                (pair.verifies (e.dumps (signing_body raw)) sig q).1)
      ]

  -- The parent of a re-delegation restricts nothing but that it must permit it: with such a parent
  -- the very token is issued that is issued without one, whatever capabilities, expiry and limit
  -- the parent has.
  pub issue_token-parent :
      (g : Grant) (private_key token_id : String) (parent : DelegationToken)
      (expiry_at issued_at : ℕ)
      → parent.can_redelegate ≡ true
      → issue_token e g private_key (some parent) token_id expiry_at issued_at
        ≡ issue_token e g private_key none token_id expiry_at issued_at
  unfolding issue_token
  issue_token-parent g private_key token_id parent expiry_at issued_at ok = ground arith

  -- A lifetime of zero seconds is taken for none: the token that is issued with it, and with no
  -- limit of uses, is valid at every time.
  pub issue_token-zero_lifetime :
      (g : Grant) (private_key token_id : String) (parent : Option DelegationToken)
      (expiry_at issued_at now : ℕ) (t : DelegationToken)
      → g.expires_in ≡ some 0
      → g.max_uses ≡ none
      → issue_token e g private_key parent token_id expiry_at issued_at ≡ issued t
      → is_valid now t ≡ true
  unfolding is_valid
  issue_token-zero_lifetime g private_key token_id parent expiry_at issued_at now t z u h =
      elim (Option-cases
        (e.sign private_key (e.dumps (signing_body (unsigned g token_id expiry_at issued_at))))) [
          | inl bad ↦
              absurd (issue_token-bad_key g private_key token_id parent expiry_at issued_at t bad h)
          | inr (sig, q) ↦
              let made =
                issue_token-signed g private_key token_id parent expiry_at issued_at t sig q h in
              rw (← made) (ground (arith, z, u))
        ]
