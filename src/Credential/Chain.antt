-- ===== src/Credential/Chain.antt =====
-- Acceptance by the trust chain.
use roar_protocol.Base.{
  ◌∙◌, ℕ, ◌+◌, ◌*◌, ◌≤◌, String, ◌≡◌, refl, true, false, Option, none, some, arith, if◌then◌else◌,
  nonempty, Option-cases, inl, inr,
}
use roar_protocol.Base.Dict.{lookup}
use roar_protocol.Signing.{Ed25519, check_text}
use roar_protocol.Signing.Cards.{IsKeyPair}
use roar_protocol.Credential.{
  proved, canonical_payload, Dates, Claim, VerifiableCredential, Revoked, Trusted, get_public_key,
  payload_text, unsigned, issue_credential, verify_credential, revoked_by, verify_from_chain,
}

get_public_key-none : (did : String) (t : Trusted) → lookup did t ≡ none → get_public_key did t ≡ ""
unfolding get_public_key
get_public_key-none did t h = ground arith

get_public_key-some :
    (did key : String) (t : Trusted) → lookup did t ≡ some key → get_public_key did t ≡ key
unfolding get_public_key
get_public_key-some did key t h = ground arith

module _ (e : Ed25519) (dates : Dates) where
  -- What an accepted credential has passed.
  pub record Accepted (now : ℕ) (t : Trusted) (revocation : Option Revoked)
      (vc : VerifiableCredential) : Type 0 where
    pub key : String
    pub expiry : ℕ
    pub trusted : lookup vc.issuer t ≡ some key
    pub unrevoked : revoked_by e dates revocation vc.id ≡ false
    pub dated : dates.fromisoformat vc.expiration_date ≡ some expiry
    pub live : now ≤ expiry
    pub signed : check_text e key vc.proof.signature (payload_text e dates vc) ≡ some true

  verify_credential-true :
      (now : ℕ) (key : String) (vc : VerifiableCredential)
      → verify_credential e dates now key vc ≡ some true
      → (expiry : ℕ) × (dates.fromisoformat vc.expiration_date ≡ some expiry)
        × (now ≤ expiry)
        × (check_text e key vc.proof.signature (payload_text e dates vc) ≡ some true)
  unfolding verify_credential
  verify_credential-true now key vc h =
      elim (Option-cases (dates.fromisoformat vc.expiration_date)) [
        | inl bad ↦ absurd (ground arith)
        | inr (expiry, d) ↦ (expiry, d, ground arith, ground arith)
      ]

  verify_from_chain-unknown :
      (now : ℕ) (t : Trusted) (revocation : Option Revoked) (vc : VerifiableCredential)
      → lookup vc.issuer t ≡ none
      → verify_from_chain e dates now t revocation vc ≡ some false
  unfolding verify_from_chain
  verify_from_chain-unknown now t revocation vc h =
      let same = get_public_key-none vc.issuer t h in rw (verify_from_chain, same) refl

  verify_from_chain-known :
      (now : ℕ) (t : Trusted) (revocation : Option Revoked) (vc : VerifiableCredential)
      (key : String)
      → lookup vc.issuer t ≡ some key
      → verify_from_chain e dates now t revocation vc ≡ (
          if nonempty key
          then if revoked_by e dates revocation vc.id
            then some false
            else verify_credential e dates now key vc
          else some false)
  unfolding verify_from_chain
  verify_from_chain-known now t revocation vc key h =
      let same = get_public_key-some vc.issuer key t h in rw (verify_from_chain, same) refl

  -- A credential that the trust chain accepts is issued by an issuer whose key is in the chain, is
  -- not revoked in the registry, if one is given, is not past its expiration, and its signature is
  -- that key's of all that it says.
  pub verify_from_chain-Accepted :
      (now : ℕ) (t : Trusted) (revocation : Option Revoked) (vc : VerifiableCredential)
      → verify_from_chain e dates now t revocation vc ≡ some true
      → Accepted now t revocation vc
  verify_from_chain-Accepted now t revocation vc h = elim (Option-cases (lookup vc.issuer t)) [
    | inl unknown ↦ absurd (ground (arith, verify_from_chain-unknown now t revocation vc unknown))
    | inr (key, k) ↦
        let known = verify_from_chain-known now t revocation vc key k in
        let (expiry, d, l, s) = verify_credential-true now key vc (ground (arith, known)) in
        record {
          key = key;
          expiry = expiry;
          trusted = k;
          unrevoked = ground (arith, known);
          dated = d;
          live = l;
          signed = s;
        }
  ]

  verify_credential-good :
      (now expiry : ℕ) (key : String) (vc : VerifiableCredential)
      → nonempty vc.proof.signature ≡ true
      → dates.fromisoformat vc.expiration_date ≡ some expiry
      → now ≤ expiry
      → check_text e key vc.proof.signature (payload_text e dates vc) ≡ some true
      → verify_credential e dates now key vc ≡ some true
  unfolding verify_credential
  verify_credential-good now expiry key vc n d l s = ground arith

  -- A credential that is issued is accepted as long as it has not expired, where the key of the
  -- issuer is in the chain and the credential is not revoked; a date is read back as it was written.
  pub verify_from_chain-issue_credential :
      (c : Claim) (private_key public_key id : String) (issued now : ℕ) (t : Trusted)
      (revocation : Option Revoked) (vc : VerifiableCredential)
      → IsKeyPair e private_key public_key
      → ((s : ℕ) → dates.fromisoformat (dates.isoformat s) ≡ some s)
      → lookup c.issuer_did t ≡ some public_key
      → revoked_by e dates revocation id ≡ false
      → now ≤ issued + c.expires_in_hours * 3600
      → issue_credential e dates c private_key id issued ≡ some vc
      → verify_from_chain e dates now t revocation vc ≡ some true
  unfolding issue_credential canonical_payload
  verify_from_chain-issue_credential c private_key public_key id issued now t revocation vc pair
        round known free live h =
      elim (Option-cases
        (e.sign private_key (payload_text e dates (unsigned e dates c id issued)))) [
          | inl bad ↦ absurd (ground arith)
          | inr (sig, q) ↦
              let done = proved e dates c id issued sig in
              let made : done ≡ vc = ground (arith, q) in
              let (n, s) = pair.verifies (payload_text e dates done) sig q in
              let expiry = issued + c.expires_in_hours * 3600 in
              let good =
                verify_credential-good now expiry public_key done n (round expiry) live s in
              rw (← made) (
                verify_from_chain-known now t revocation done public_key known
                ∙ ground (arith, pair.known, free, good))
        ]
