-- ===== src/Credential/Tests.antt =====
-- Tests and concrete instances for verifiable credentials.
use roar_protocol.Base.{ap, ℕ, zero, suc, ◌≡◌, String, refl, true, some, [], ◌∷◌, arith, str_dec}
use roar_protocol.Signing.Toy.{toy, toy_pair}
use roar_protocol.Credential.{
  canonical_payload, Dates, Claim, VerifiableCredential, Revoked, Trusted, proved, issue_credential,
  verify_credential, verify_from_chain, get_public_key, is_revoked,
}
use roar_protocol.Credential.Chain.{
  Accepted, verify_from_chain-Accepted, verify_from_chain-issue_credential,
}

-- times written in unary
abbrev unary : ℕ → String
unary zero = ""
unary (suc n) = String.◌∷◌ "1" (unary n)

abbrev length_of : String → ℕ
length_of String.[] = 0
length_of (String.◌∷◌ c s) = suc (length_of s)

length_of-unary : (n : ℕ) → length_of (unary n) ≡ n
length_of-unary zero = refl
length_of-unary (suc n) = ap (λ m. suc m) (length_of-unary n)

abbrev dates : Dates
dates = record { isoformat = unary; fromisoformat = λ s. some (length_of s) }

abbrev claim : Claim
claim = record {
  issuer_did = "did:roar:agent:alice";
  subject_did = "did:roar:agent:bob";
  capabilities = "code" ∷ [];
  expires_in_hours = 0;
}

abbrev trusted : Trusted
trusted = ("did:roar:agent:alice", "pk") ∷ []

abbrev revoked : Revoked
revoked = ("other", "revoked") ∷ []

abbrev credential : VerifiableCredential
credential = proved toy dates claim "id" 3 "c2ln"

issued : issue_credential toy dates claim "sk" "id" 3 ≡ some credential
unfolding issue_credential
issued = refl

verify_from_chain-issue_credential_example :
    verify_from_chain toy dates 3 trusted (some revoked) credential ≡ some true
unfolding is_revoked str_dec
verify_from_chain-issue_credential_example =
    verify_from_chain-issue_credential toy dates claim "sk" "pk" "id" 3 3 trusted (some revoked)
      credential toy_pair (λ s. ap (λ n. some n) (length_of-unary s)) refl refl (omega arith) issued

accepted : verify_from_chain toy dates 3 trusted (some revoked) credential ≡ some true
unfolding verify_from_chain get_public_key is_revoked verify_credential canonical_payload str_dec
accepted = refl

verify_from_chain-Accepted_example : Accepted toy dates 3 trusted (some revoked) credential
verify_from_chain-Accepted_example =
    verify_from_chain-Accepted toy dates 3 trusted (some revoked) credential accepted
