-- ===== src/KeyTrust.antt =====
-- The trust store for Ed25519 keys, `KeyTrustStore` of python/src/roar_sdk/key_trust.py. Times are
-- whole seconds, lifetimes whole hours; a pass over a list of keys reads the clock once. `is_hex`
-- says whether `bytes.fromhex` takes a text.
pub mod Rotation
pub mod Lookup
mod Tests
use Prim.Native.String.{count}
use roar_protocol.Base.{
  ℕ, zero, suc, ◌+◌, ◌*◌, ◌-◌, String, Bool, true, false, ◌&&◌, not, Option, none, some, List, [],
  ◌∷◌, ltb, nat_eq, min, ◌==◌, if◌then◌else◌, is_some, strip_prefix, length,
}
use roar_protocol.Base.Dict.{Dict, lookup, insert}
use roar_protocol.Types.{RoarMessage}
use roar_protocol.Types.Message.{signature_text}
use roar_protocol.Signing.{ed25519_base64, Ed25519, verify_ed25519}

pub record KeyMetadata : Type 0 where
  pub public_key_hex : String
  pub did : String
  pub created_at : ℕ
  pub expires_at : Option ℕ
  pub rotated_at : Option ℕ
  pub replaced_by : Option String
  pub source : String

abbrev pub is_expired : ℕ → KeyMetadata → Bool
is_expired now k = elim k.expires_at [ none ↦ false | some t ↦ ltb t now ]

abbrev pub is_rotated : KeyMetadata → Bool
is_rotated k = is_some k.replaced_by

pub data TrustError : Type 0 where
  no_keys_registered all_keys_expired_or_rotated key_expired key_not_in_trust_store : TrustError
  not_ed25519_signature no_trusted_keys signature_not_valid : TrustError

-- `KeyTrustResult`; `raised` where a call of the signature check raises
pub data TrustResult : Type 0 where
  trusted : KeyMetadata → TrustResult
  untrusted : TrustError → TrustResult
  raised : TrustResult

-- The keys of a DID stand with the newest first.
pub record Store : Type 0 where
  pub default_max_age : ℕ
  pub rotation_grace : ℕ
  pub keys : Dict (List KeyMetadata)

-- `self._keys.get(did, [])`
abbrev pub keys_of : String → Store → List KeyMetadata
keys_of did s = elim (lookup did s.keys) [ none ↦ [] | some ks ↦ ks ]

-- `max_age_hours or self._default_max_age`
abbrev pub hours_or : Option ℕ → ℕ → ℕ
hours_or none d = d
hours_or (some zero) d = d
hours_or (some (suc n)) d = suc n

abbrev pub new_key : String → String → Option ℕ → String → ℕ → Store → KeyMetadata
new_key did key max_age source now s = record {
  public_key_hex = key;
  did = did;
  created_at = now;
  expires_at = some (now + hours_or max_age s.default_max_age * 3600);
  rotated_at = none;
  replaced_by = none;
  source = source;
}

-- The mark of a rotation: the grace period never goes beyond the key's own expiry.
abbrev pub mark_rotated : ℕ → String → ℕ → KeyMetadata → KeyMetadata
mark_rotated now new grace k = record k {
  expires_at = some (elim k.expires_at [ none ↦ now + grace | some t ↦ min t (now + grace) ]);
  rotated_at = some now;
  replaced_by = some new;
}

-- the loop of `rotate_key`: it marks the first key that is neither expired nor rotated
unfoldable pub rotate_first : ℕ → String → ℕ → List KeyMetadata → List KeyMetadata
rotate_first now new grace [] = []
rotate_first now new grace (k ∷ ks) =
    if not (is_expired now k) && not (is_rotated k)
    then mark_rotated now new grace k ∷ ks
    else k ∷ rotate_first now new grace ks

-- the first half of `rotate_key`
unfoldable pub mark_current : String → String → ℕ → Store → Store
mark_current did new now s = elim (lookup did s.keys) [
  | none ↦ s
  | some ks ↦ record s {
    keys = insert did (rotate_first now new (s.rotation_grace * 3600) ks) s.keys;
  }
]

module _ (is_hex : String → Bool) where
  abbrev pub well_formed : String → Bool
  well_formed key = nat_eq (count key) 64 && is_hex key

  -- The store afterwards and the new key, or none where the call raises.
  unfoldable pub register_key :
      String → String → Option ℕ → String → ℕ → Store → Store × Option KeyMetadata
  register_key did key max_age source now s =
      if well_formed key
      then (let k = new_key did key max_age source now s in
          (record s { keys = insert did (k ∷ keys_of did s) s.keys }, some k))
      else (s, none)

  -- The keys that are there are marked before the new key is looked at.
  unfoldable pub rotate_key : String → String → String → ℕ → ℕ → Store → Store × Option KeyMetadata
  unfolding register_key
  rotate_key did new source now registered_at s =
      register_key did new none source registered_at (mark_current did new now s)

-- the loop of `get_trusted_key`
unfoldable pub first_active : ℕ → List KeyMetadata → TrustResult
first_active now [] = untrusted all_keys_expired_or_rotated
first_active now (k ∷ ks) =
    if is_expired now k
    then first_active now ks
    else if is_rotated k
    then first_active now ks
    else trusted k

unfoldable pub get_trusted_key : ℕ → String → Store → TrustResult
unfolding first_active
get_trusted_key now did s = elim (keys_of did s) [
  | [] ↦ untrusted no_keys_registered
  | k ∷ ks ↦ first_active now (k ∷ ks)
]

-- the loop of `is_key_trusted`
unfoldable pub find_key : ℕ → String → List KeyMetadata → TrustResult
find_key now key [] = untrusted key_not_in_trust_store
find_key now key (k ∷ ks) =
    if k.public_key_hex == key
    then if is_expired now k then untrusted key_expired else trusted k
    else find_key now key ks

unfoldable pub is_key_trusted : ℕ → String → String → Store → TrustResult
unfolding find_key
is_key_trusted now did key s = elim (keys_of did s) [
  | [] ↦ untrusted no_keys_registered
  | k ∷ ks ↦ find_key now key (k ∷ ks)
]

-- the loop of `verify_message` over the keys of the sender
unfoldable pub try_keys : Ed25519 → ℕ → RoarMessage → List KeyMetadata → TrustResult
try_keys e now m [] = untrusted signature_not_valid
try_keys e now m (k ∷ ks) =
    let rest = try_keys e now m ks in
    if is_expired now k then rest else elim (verify_ed25519 e 0 now (some k.public_key_hex) m) [
      | none ↦ raised
      | some true ↦ trusted k
      | some false ↦ rest
    ]

unfoldable pub verify_message : Ed25519 → ℕ → RoarMessage → Store → TrustResult
unfolding try_keys
verify_message e now m s = elim (ed25519_base64 m.auth) [
  | none ↦ raised
  | some none ↦ untrusted not_ed25519_signature
  | some (some b64) ↦ elim (keys_of m.from_identity.did s) [
    | [] ↦ untrusted no_trusted_keys
    | k ∷ ks ↦ try_keys e now m (k ∷ ks)
  ]
]

unfoldable pub live_keys : ℕ → List KeyMetadata → List KeyMetadata
live_keys now [] = []
live_keys now (k ∷ ks) = if is_expired now k then live_keys now ks else k ∷ live_keys now ks

-- `purge_expired`: the table afterwards, and how many keys went
unfoldable pub purge_table : ℕ → Dict (List KeyMetadata) → Dict (List KeyMetadata) × ℕ
unfolding live_keys
purge_table now [] = ([], 0)
purge_table now ((did, ks) ∷ d) =
    let (d', n) = purge_table now d in
    let kept = live_keys now ks in
    (elim kept [ [] ↦ d' | k ∷ rest ↦ (did, k ∷ rest) ∷ d' ], (length ks - length kept) + n)

unfoldable pub purge_expired : ℕ → Store → Store × ℕ
unfolding purge_table
purge_expired now s = let (d, n) = purge_table now s.keys in (record s { keys = d }, n)
