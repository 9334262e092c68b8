-- ===== src/Credential.antt =====
-- Verifiable credentials: python/src/roar_sdk/verifiable_credentials.py. The random identifier and
-- the readings of the clock, in whole seconds, are arguments; the Ed25519 and JSON functions are
-- those of `Ed25519`.
pub mod Chain
mod Tests
use roar_protocol.Base.{
  ℕ, ◌+◌, ◌*◌, String, Bool, true, false, Option, none, some, List, [], ◌∷◌, ltb, if◌then◌else◌,
  nonempty, append_text, length,
}
use roar_protocol.Base.Dict.{Dict, lookup, insert, erase, contains}
use roar_protocol.Json.{Json, str, arr, obj, of_dict, of_texts}
use roar_protocol.Signing.{Ed25519, check_text}

-- `datetime.isoformat` of a time in UTC, and `datetime.fromisoformat` read as UTC, none where it
-- raises.
pub record Dates : Type 0 where
  pub isoformat : ℕ → String
  pub fromisoformat : String → Option ℕ

pub record CredentialProof : Type 0 where
  pub type_name : String
  pub created : String
  pub verification_method : String
  pub signature : String

pub record CredentialSubject : Type 0 where
  pub id : String
  pub capabilities : List String

pub record VerifiableCredential : Type 0 where
  pub id : String
  pub types : List String
  pub issuer : String
  pub issuance_date : String
  pub expiration_date : String
  pub credential_subject : CredentialSubject
  pub proof : CredentialProof

-- what is signed: everything but the proof
unfoldable pub canonical_payload : VerifiableCredential → Json
canonical_payload vc = obj (
    of_dict (
      ("id", str vc.id)
      ∷ ("type", arr (of_texts vc.types))
      ∷ ("issuer", str vc.issuer)
      ∷ ("issuanceDate", str vc.issuance_date)
      ∷ ("expirationDate", str vc.expiration_date)
      ∷ (
        "credentialSubject",
        obj (
            of_dict (
              ("id", str vc.credential_subject.id)
              ∷ ("capabilities", arr (of_texts vc.credential_subject.capabilities))
              ∷ [])),
      )
      ∷ []))

abbrev pub no_proof : CredentialProof
no_proof = record {
  type_name = "Ed25519Signature2020";
  created = "";
  verification_method = "";
  signature = "";
}

-- What the caller of `issue_credential` gives.
pub record Claim : Type 0 where
  pub issuer_did : String
  pub subject_did : String
  pub capabilities : List String
  pub expires_in_hours : ℕ

-- `credential_to_json_ld`
unfoldable pub credential_to_json_ld : VerifiableCredential → Json
credential_to_json_ld vc = obj (
    of_dict (
      (
        "@context",
        arr (
            of_texts (
              "https://www.w3.org/2018/credentials/v1"
              ∷ "https://w3id.org/security/suites/ed25519-2020/v1" ∷ [])),
      )
      ∷ ("id", str vc.id)
      ∷ ("type", arr (of_texts vc.types))
      ∷ ("issuer", str vc.issuer)
      ∷ ("issuanceDate", str vc.issuance_date)
      ∷ ("expirationDate", str vc.expiration_date)
      ∷ (
        "credentialSubject",
        obj (
            of_dict (
              ("id", str vc.credential_subject.id)
              ∷ ("capabilities", arr (of_texts vc.credential_subject.capabilities))
              ∷ [])),
      )
      ∷ (
        "proof",
        obj (
            of_dict (
              ("type", str vc.proof.type_name)
              ∷ ("created", str vc.proof.created)
              ∷ ("verificationMethod", str vc.proof.verification_method)
              ∷ ("proofValue", str vc.proof.signature)
              ∷ [])),
      )
      ∷ []))

-- `RevocationRegistry`: identifiers with reasons
abbrev pub Revoked : Type 0
Revoked = Dict String

unfoldable pub revoke : String → String → Revoked → Revoked
revoke id reason r = insert id reason r

unfoldable pub is_revoked : String → Revoked → Bool
is_revoked id r = contains id r

abbrev pub text_at : String → Dict String → String
text_at k d = elim (lookup k d) [ none ↦ "" | some v ↦ v ]

abbrev pub get_reason : String → Revoked → String
get_reason id r = text_at id r

-- `IssuerTrustChain`: issuers with keys
abbrev pub Trusted : Type 0
Trusted = Dict String

unfoldable pub trust_issuer : String → String → Trusted → Trusted
trust_issuer did key t = insert did key t

unfoldable pub untrust_issuer : String → Trusted → Trusted
untrust_issuer did t = erase did t

unfoldable pub get_public_key : String → Trusted → String
get_public_key did t = text_at did t

module _ (e : Ed25519) (dates : Dates) where
  abbrev pub payload_text : VerifiableCredential → String
  payload_text vc = e.dumps (canonical_payload vc)

  abbrev pub unsigned : Claim → String → ℕ → VerifiableCredential
  unsigned c id now = record {
    id = id;
    types = "VerifiableCredential" ∷ "ROARCapabilityAttestation" ∷ [];
    issuer = c.issuer_did;
    issuance_date = dates.isoformat now;
    expiration_date = dates.isoformat (now + c.expires_in_hours * 3600);
    credential_subject = record { id = c.subject_did; capabilities = c.capabilities };
    proof = no_proof;
  }

  -- the credential with its proof
  abbrev pub proved : Claim → String → ℕ → String → VerifiableCredential
  proved c id now sig = record (unsigned c id now) {
    proof = record {
      type_name = "Ed25519Signature2020";
      created = dates.isoformat now;
      verification_method = append_text c.issuer_did "#key-1";
      signature = sig;
    };
  }

  -- The credential, none where the key is malformed and the call raises.
  unfoldable pub issue_credential : Claim → String → String → ℕ → Option VerifiableCredential
  issue_credential c private_key id now =
      elim (e.sign private_key (payload_text (unsigned c id now))) [
        | none ↦ none
        | some sig ↦ some (proved c id now sig)
      ]

  -- Whether the credential is good; none where decoding its signature raises.
  unfoldable pub verify_credential : ℕ → String → VerifiableCredential → Option Bool
  verify_credential now public_key vc =
      if nonempty vc.proof.signature
      then elim (dates.fromisoformat vc.expiration_date) [
        | none ↦ some false
        | some expiry ↦
            if ltb expiry now
            then some false
            else check_text e public_key vc.proof.signature (payload_text vc)
      ]
      else some false

  unfoldable pub verify_credential_with_revocation :
      ℕ → String → Revoked → VerifiableCredential → Option Bool
  verify_credential_with_revocation now public_key r vc =
      if is_revoked vc.id r then some false else verify_credential now public_key vc

  abbrev pub revoked_by : Option Revoked → String → Bool
  revoked_by none id = false
  revoked_by (some r) id = is_revoked id r

  unfoldable pub verify_from_chain :
      ℕ → Trusted → Option Revoked → VerifiableCredential → Option Bool
  verify_from_chain now t revocation vc =
      let key = get_public_key vc.issuer t in
      if nonempty key
      then if revoked_by revocation vc.id then some false else verify_credential now key vc
      else some false
