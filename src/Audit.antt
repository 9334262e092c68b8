-- ===== src/Audit.antt =====
-- The audit log of python/src/roar_sdk/audit.py. The digests are texts in the code; here they are
-- values of any type whose equality is decided. Digest functions and signatures are not the
-- repository's code: a value of `Crypto` stands for them.
pub mod Chain
pub mod Tamper
pub mod Query
mod Tests
use roar_protocol.Base.{
  ℕ, ◌+◌, String, Bool, true, false, ◌&&◌, ◌||◌, not, Option, none, some, List, [], ◌∷◌, ◌++◌, ltb,
  leb, elem, nat_eq, if◌then◌else◌, length, nonempty, ◌==◌,
}
use roar_protocol.Base.Dict.{Dict, lookup}
use roar_protocol.Json.{Json, str, obj, num, of_dict}
use roar_protocol.Types.{RoarMessage}
use roar_protocol.Types.Message.{intent_text, get_default}

-- the fields that `_hash_message` digests
unfoldable pub message_body : RoarMessage → Json
message_body m = obj (
    of_dict (
      ("id", str m.id)
      ∷ ("from", str m.from_identity.did)
      ∷ ("to", str m.to_identity.did)
      ∷ ("intent", str (intent_text m.intent))
      ∷ ("payload", obj (of_dict m.payload))
      ∷ ("timestamp", num m.timestamp)
      ∷ []))

-- the fields that `_hash_entry` digests
pub record Content (D : Type 0) : Type 0 where
  pub sequence : ℕ
  pub timestamp : ℕ
  pub sender_did : String
  pub receiver_did : String
  pub intent : String
  pub message_id : String
  pub message_hash : D
  pub trace_id : Json
  pub prev_hash : D

pub record AuditEntry (D : Type 0) : Type 0 where
  pub content : Content D
  pub entry_hash : D
  pub signature : String

-- SHA-256 of the sorted JSON of a message's fields and of an entry's; Ed25519 with hex keys and
-- base64 signatures, where `verifies` takes the digest, the signature and the public key. None is
-- a call that raises: on a malformed private key, or a signature that is no base64.
pub record Crypto (D : Type 0) : Type 0 where
  pub digest_dec : Discrete D
  pub genesis : D
  pub hash_message : Json → D
  pub hash_entry : Content D → D
  pub sign_entry : D → String → Option String
  pub verifies : D → String → String → Option Bool

pub record AuditLog (D : Type 0) : Type 0 where
  pub private_key : String
  pub public_key : String
  pub entries : List (AuditEntry D)

-- why `verify_chain` refuses, with the sequence number, or that it raises there
pub data ChainError : Type 0 where
  chain_broken hash_mismatch invalid_signature raised : ℕ → ChainError

-- the hash of the last entry, or what precedes the first
abbrev pub tip : {D : Type 0} → D → List (AuditEntry D) → D
tip prev [] = prev
tip prev (e ∷ es) = tip e.entry_hash es

module _ {D : Type 0} (c : Crypto D) where
  abbrev pub same_digest : D → D → Bool
  same_digest a b = elim (c.digest_dec a b) [ yes _ ↦ true | no _ ↦ false ]

  -- the content of the entry that `record` appends
  unfoldable pub new_content : RoarMessage → String → ℕ → AuditLog D → Content D
  new_content m trace_id now log = record {
    sequence = length log.entries;
    timestamp = now;
    sender_did = m.from_identity.did;
    receiver_did = m.to_identity.did;
    intent = intent_text m.intent;
    message_id = m.id;
    message_hash = c.hash_message (message_body m);
    trace_id =
        if nonempty trace_id then str trace_id else get_default "trace_id" (str "") m.context;
    prev_hash = tip c.genesis log.entries;
  }

  -- a log without a private key leaves its entries unsigned
  abbrev pub signature_of : D → String → Option String
  signature_of h private_key = if nonempty private_key then c.sign_entry h private_key else some ""

  abbrev pub signed_entry : Content D → String → AuditEntry D
  signed_entry content sig = record {
    content = content;
    entry_hash = c.hash_entry content;
    signature = sig;
  }

  -- `AuditLog.record`; none where it raises, which leaves the log as it was.
  unfoldable pub record_message : RoarMessage → String → ℕ → AuditLog D → Option (AuditLog D)
  record_message m trace_id now log =
      let content = new_content m trace_id now log in
      elim (signature_of (c.hash_entry content) log.private_key) [
        | none ↦ none
        | some sig ↦ some (record log { entries = log.entries ++ signed_entry content sig ∷ [] })
      ]

  -- the test of a signature that is present, under a key that is
  abbrev pub check_entry : String → AuditEntry D → Option Bool
  check_entry key e =
      if nonempty e.signature && nonempty key
      then c.verifies e.entry_hash e.signature key
      else some true

  -- the loop of `verify_chain`, from the expected previous hash
  unfoldable pub verify_from : String → D → List (AuditEntry D) → Option ChainError
  verify_from key prev [] = none
  verify_from key prev (e ∷ es) =
      let rest = verify_from key e.entry_hash es in
      if same_digest e.content.prev_hash prev
      then if same_digest e.entry_hash (c.hash_entry e.content)
        then elim (check_entry key e) [
          | none ↦ some (raised e.content.sequence)
          | some true ↦ rest
          | some false ↦ some (invalid_signature e.content.sequence)
        ]
        else some (hash_mismatch e.content.sequence)
      else some (chain_broken e.content.sequence)

  -- None for an intact chain, or the first error.
  unfoldable pub verify_chain : String → AuditLog D → Option ChainError
  unfolding verify_from
  verify_chain public_key log =
      verify_from (if nonempty public_key then public_key else log.public_key) c.genesis log.entries

-- which entries a query takes; an empty text and a time 0 ask nothing
abbrev pub selects : {D : Type 0} → String → ℕ → String → AuditEntry D → Bool
selects agent_did since intent e =
    not (
      nonempty agent_did
      && not (agent_did == e.content.sender_did || agent_did == e.content.receiver_did))
    && not (ltb 0 since && ltb e.content.timestamp since)
    && not (nonempty intent && not (e.content.intent == intent))

-- the loop of `query`, which has `n` results: it stops once the limit is reached
unfoldable pub collect :
    {D : Type 0} → (AuditEntry D → Bool) → ℕ → ℕ → List (AuditEntry D) → List (AuditEntry D)
collect p limit n [] = []
collect p limit n (e ∷ es) =
    let skipped = collect p limit n es in
    let taken = collect p limit (n + 1) es in
    if p e then if leb limit (n + 1) then e ∷ [] else e ∷ taken else skipped

abbrev pub reverse_onto :
    {D : Type 0} → List (AuditEntry D) → List (AuditEntry D) → List (AuditEntry D)
reverse_onto [] acc = acc
reverse_onto (e ∷ es) acc = reverse_onto es (e ∷ acc)

unfoldable pub query : {D : Type 0} → String → ℕ → String → ℕ → AuditLog D → List (AuditEntry D)
unfolding collect
query agent_did since intent limit log =
    collect (selects agent_did since intent) limit 0 (reverse_onto log.entries [])
