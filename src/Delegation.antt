-- ===== src/Delegation.antt =====
-- Delegation tokens: python/src/roar_sdk/delegation.py. Token ids and clock readings are arguments;
-- the Ed25519 and JSON functions are those of `Ed25519`.
pub mod Uses
pub mod Issue
mod Tests
use Prim.Native.Nat.{Ordering}
use Prim.Native.String.{compare}
use roar_protocol.Base.{
  ℕ, zero, suc, ◌+◌, String, Bool, true, false, ◌&&◌, not, Option, none, some, List, [], ◌∷◌, ltb,
  leb, elem, if◌then◌else◌, strip_prefix, append_text,
}
use roar_protocol.Json.{
  Json, Number, finite, not_a_number, nan, null, bool, num, str, arr, obj, of_dict, of_texts,
}
use roar_protocol.Signing.{Ed25519, check_text}

pub record DelegationToken : Type 0 where
  pub token_id : String
  pub delegator_did : String
  pub delegate_did : String
  pub capabilities : List String
  pub issued_at : ℕ
  pub expires_at : Option Number
  pub max_uses : Option ℕ
  pub use_count : ℕ
  pub can_redelegate : Bool
  pub signature : String

-- `time.time() > self.expires_at`, and `self.use_count >= self.max_uses`
abbrev pub is_past : ℕ → Option Number → Bool
is_past now none = false
is_past now (some not_a_number) = false
is_past now (some (finite t)) = ltb t now

abbrev pub is_used_up : ℕ → Option ℕ → Bool
is_used_up uses none = false
is_used_up uses (some n) = leb n uses

unfoldable pub is_valid : ℕ → DelegationToken → Bool
is_valid now t =
    if is_past now t.expires_at
    then false
    else if is_used_up t.use_count t.max_uses
    then false
    else true

unfoldable pub grants : ℕ → String → DelegationToken → Bool
unfolding is_valid
grants now capability t = is_valid now t && elem capability t.capabilities

unfoldable pub consume : ℕ → DelegationToken → DelegationToken × Bool
unfolding is_valid
consume now t =
    if is_valid now t then (record t { use_count = t.use_count + 1 }, true) else (t, false)

-- `sorted` on texts
insert_text : String → List String → List String
insert_text s [] = s ∷ []
insert_text s (t ∷ ts) =
    let later = insert_text s ts in elim (compare s t) [ Ordering.gt ↦ t ∷ later | _ ↦ s ∷ t ∷ ts ]

sorted : List String → List String
unfolding insert_text
sorted [] = []
sorted (s ∷ ss) = insert_text s (sorted ss)

abbrev pub num_or_null : Option ℕ → Json
num_or_null none = null
num_or_null (some n) = num n

abbrev pub time_or_null : Option Number → Json
time_or_null none = null
time_or_null (some (finite t)) = num t
time_or_null (some not_a_number) = nan

unfoldable pub signing_body : DelegationToken → Json
unfolding sorted
signing_body t = obj (
    of_dict (
      ("capabilities", arr (of_texts (sorted t.capabilities)))
      ∷ ("can_redelegate", bool t.can_redelegate)
      ∷ ("delegate_did", str t.delegate_did)
      ∷ ("delegator_did", str t.delegator_did)
      ∷ ("expires_at", time_or_null t.expires_at)
      ∷ ("issued_at", num t.issued_at)
      ∷ ("max_uses", num_or_null t.max_uses)
      ∷ ("token_id", str t.token_id)
      ∷ []))

-- The arguments of `issue_token` but the key and the parent.
pub record Grant : Type 0 where
  pub delegator_did : String
  pub delegate_did : String
  pub capabilities : List String
  pub expires_in : Option ℕ
  pub max_uses : Option ℕ
  pub can_redelegate : Bool

-- `(time.time() + expires_in) if expires_in else None`
abbrev pub expiry : ℕ → Option ℕ → Option Number
expiry now none = none
expiry now (some zero) = none
expiry now (some (suc n)) = some (finite (now + suc n))

-- a token as `issue_token` builds it, before it is signed
abbrev pub unsigned : Grant → String → ℕ → ℕ → DelegationToken
unsigned g token_id expiry_at issued_at = record {
  token_id = token_id;
  delegator_did = g.delegator_did;
  delegate_did = g.delegate_did;
  capabilities = g.capabilities;
  issued_at = issued_at;
  expires_at = expiry expiry_at g.expires_in;
  max_uses = g.max_uses;
  use_count = 0;
  can_redelegate = g.can_redelegate;
  signature = "";
}

-- what `issue_token` raises
pub data IssueResult : Type 0 where
  issued : DelegationToken → IssueResult
  not_redelegable bad_key : IssueResult

-- whether a parent forbids the issue
abbrev pub forbids : Option DelegationToken → Bool
forbids none = false
forbids (some parent) = not parent.can_redelegate

module _ (e : Ed25519) where
  unfoldable pub issue_token :
      Grant → String → Option DelegationToken → String → ℕ → ℕ → IssueResult
  issue_token g private_key parent token_id expiry_at issued_at =
      let t = unsigned g token_id expiry_at issued_at in
      if forbids parent
      then not_redelegable
      else elim (e.sign private_key (e.dumps (signing_body t))) [
        | none ↦ bad_key
        | some sig ↦ issued (record t { signature = append_text "ed25519:" sig })
      ]

  -- Whether the token is good; none where decoding the signature raises.
  unfoldable pub verify_token : ℕ → String → DelegationToken → Option Bool
  unfolding is_valid
  verify_token now public_key t =
      if is_valid now t
      then elim (strip_prefix "ed25519:" t.signature) [
        | none ↦ some false
        | some b64 ↦ check_text e public_key b64 (e.dumps (signing_body t))
      ]
      else some false
