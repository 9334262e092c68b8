-- ===== src/KeyTrust/Lookup.antt =====
-- What the trust store answers, and where its keys come from.
use roar_protocol.Base.{ℕ, String, ◌≡◌, ◌⊎◌, true, false, some, List, [], ◌∷◌, arith}
use roar_protocol.Types.{RoarMessage}
use roar_protocol.Signing.{Ed25519, verify_ed25519}
use roar_protocol.KeyTrust.{
  KeyMetadata, Store, trusted, keys_of, is_expired, is_rotated, find_key, is_key_trusted,
  first_active, get_trusted_key, try_keys, verify_message,
}

-- A key stands in a list.
abbrev pub Among : KeyMetadata → List KeyMetadata → Type 0
Among k [] = ⊥
Among k (x ∷ xs) = (k ≡ x) ⊎ Among k xs

find_key-trusted :
    (now : ℕ) (key : String) (ks : List KeyMetadata) (k : KeyMetadata)
    → find_key now key ks ≡ trusted k
    → Among k ks × (k.public_key_hex ≡ key) × (is_expired now k ≡ false)
unfolding find_key
find_key-trusted now key [] k h = absurd (ground arith)
find_key-trusted now key (x ∷ ks) k h = ground (arith, find_key-trusted now key ks k)

-- A key that is answered to be trusted for a DID is registered for that DID under that very text,
-- and has not expired.
pub is_key_trusted-trusted :
    (now : ℕ) (did key : String) (s : Store) (k : KeyMetadata)
    → is_key_trusted now did key s ≡ trusted k
    → Among k (keys_of did s) × (k.public_key_hex ≡ key) × (is_expired now k ≡ false)
unfolding is_key_trusted
is_key_trusted-trusted now did key s k h = find_key-trusted now key (keys_of did s) k (ground arith)

first_active-trusted :
    (now : ℕ) (ks : List KeyMetadata) (k : KeyMetadata)
    → first_active now ks ≡ trusted k
    → Among k ks × (is_expired now k ≡ false) × (is_rotated k ≡ false)
unfolding first_active
first_active-trusted now [] k h = absurd (ground arith)
first_active-trusted now (x ∷ ks) k h = ground (arith, first_active-trusted now ks k)

-- The key that is answered as a DID's trusted key is registered for it, not expired, not rotated.
pub get_trusted_key-trusted :
    (now : ℕ) (did : String) (s : Store) (k : KeyMetadata)
    → get_trusted_key now did s ≡ trusted k
    → Among k (keys_of did s) × (is_expired now k ≡ false) × (is_rotated k ≡ false)
unfolding get_trusted_key
get_trusted_key-trusted now did s k h = first_active-trusted now (keys_of did s) k (ground arith)

try_keys-trusted :
    (e : Ed25519) (now : ℕ) (m : RoarMessage) (ks : List KeyMetadata) (k : KeyMetadata)
    → try_keys e now m ks ≡ trusted k
    → Among k ks
      × (is_expired now k ≡ false)
      × (verify_ed25519 e 0 now (some k.public_key_hex) m ≡ some true)
unfolding try_keys
try_keys-trusted e now m [] k h = absurd (ground arith)
try_keys-trusted e now m (x ∷ ks) k h = ground (arith, try_keys-trusted e now m ks k)

-- A message is trusted only under a key that the store holds for its sender, that has not expired,
-- and under which its signature verifies: never under the key that the message itself carries.
pub verify_message-trusted :
    (e : Ed25519) (now : ℕ) (m : RoarMessage) (s : Store) (k : KeyMetadata)
    → verify_message e now m s ≡ trusted k
    → Among k (keys_of m.from_identity.did s)
      × (is_expired now k ≡ false)
      × (verify_ed25519 e 0 now (some k.public_key_hex) m ≡ some true)
unfolding verify_message
verify_message-trusted e now m s k h =
    try_keys-trusted e now m (keys_of m.from_identity.did s) k (ground arith)
