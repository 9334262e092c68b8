-- ===== src/KeyTrust/Rotation.antt =====
-- Rotation of keys in the trust store.
use roar_protocol.Base.{
  ℕ, ◌+◌, ◌*◌, ◌≤◌, String, ◌≡◌, ◌≢◌, Bool, true, false, none, some, List, [], ◌∷◌, arith, ◌==◌,
  if◌then◌else◌, Option-cases, inl, inr,
}
use roar_protocol.Base.Dict.{lookup, lookup-insert, lookup-insert_self}
use roar_protocol.KeyTrust.{
  mark_current, KeyMetadata, Store, TrustResult, trusted, keys_of, is_expired, is_rotated, find_key,
  is_key_trusted, get_trusted_key, rotate_first, rotate_key, new_key, well_formed,
}

abbrev pub is_trusted : TrustResult → Bool
is_trusted (trusted k) = true
is_trusted _ = false

-- A key that is trusted after the mark was trusted before it, also the key that is marked.
find_key-rotate_first :
    (now now' grace : ℕ) (new key : String) (ks : List KeyMetadata)
    → is_trusted (find_key now' key (rotate_first now new grace ks)) ≡ true
    → is_trusted (find_key now' key ks) ≡ true
unfolding find_key rotate_first
find_key-rotate_first now now' grace new key [] h = h
find_key-rotate_first now now' grace new key (x ∷ ks) h =
    ground (arith, find_key-rotate_first now now' grace new key ks)

keys_of-mark_current :
    (j did new : String) (now : ℕ) (s : Store)
    → (keys_of j (mark_current did new now s) ≡ (
        if j == did
        then rotate_first now new (s.rotation_grace * 3600) (keys_of j s)
        else keys_of j s))
      × ((mark_current did new now s).default_max_age ≡ s.default_max_age)
unfolding mark_current rotate_first
keys_of-mark_current j did new now s = elim (Option-cases (lookup did s.keys)) [
  | inl absent ↦ ground (arith, absent)
  | inr (ks, has) ↦
      ground
        (arith, has, lookup-insert j did (rotate_first now new (s.rotation_grace * 3600) ks) s.keys)
]

module _ (is_hex : String → Bool) where
  keys_of-rotate_key :
      (did new source : String) (now at : ℕ) (s : Store)
      → well_formed is_hex new ≡ true
      → let (s', made) = rotate_key is_hex did new source now at s in
        let k = new_key did new none source at s in
        (made ≡ some k)
        × (keys_of did s' ≡ k ∷ rotate_first now new (s.rotation_grace * 3600) (keys_of did s))
  unfolding rotate_key
  keys_of-rotate_key did new source now at s ok =
      let marked = mark_current did new now s in
      let (own, age) = keys_of-mark_current did did new now s in
      ground (
        arith,
        own,
        age,
        lookup-insert_self did (new_key did new none source at marked ∷ keys_of did marked)
            marked.keys,
      )

  -- A rotation to a well-formed key succeeds. The new key is then the DID's trusted key until it
  -- expires, and any other key is trusted for the DID only at times at which it was before: the
  -- grace period never outlasts the old key's own expiry.
  pub rotate_key-trust :
      (did new source key : String) (now at now' : ℕ) (s : Store)
      → well_formed is_hex new ≡ true
      → now' ≤ at + s.default_max_age * 3600
      → key ≢ new
      → let (s', made) = rotate_key is_hex did new source now at s in
        let k = new_key did new none source at s in
        (made ≡ some k)
        × (get_trusted_key now' did s' ≡ trusted k)
        × (is_trusted (is_key_trusted now' did key s') ≡ true
            → is_trusted (is_key_trusted now' did key s) ≡ true)
  unfolding get_trusted_key is_key_trusted
  rotate_key-trust did new source key now at now' s ok live other =
      let (made, keys) = keys_of-rotate_key did new source now at s ok in
      (
        made,
        rw (keys, get_trusted_key) (ground arith),
        λ h.
            let old = rotate_first now new (s.rotation_grace * 3600) (keys_of did s) in
            let marked : is_trusted (find_key now' key old) ≡ true =
              ground (arith, keys, h, other) in
            let before =
              find_key-rotate_first now now' (s.rotation_grace * 3600) new key (keys_of did s)
                marked in
            ground (arith, before),
      )

  -- A rotation marks the current key before it looks at the new one: if the new key is malformed
  -- the call raises, and a DID whose only key was active is left with no trusted key.
  pub rotate_key-malformed :
      (did new source : String) (now at now' : ℕ) (s : Store) (k : KeyMetadata)
      → keys_of did s ≡ k ∷ []
      → is_expired now k ≡ false
      → is_rotated k ≡ false
      → well_formed is_hex new ≡ false
      → let (s', made) = rotate_key is_hex did new source now at s in
        (made ≡ none) × (is_trusted (get_trusted_key now' did s') ≡ false)
  unfolding rotate_key get_trusted_key rotate_first
  rotate_key-malformed did new source now at now' s k has live active bad =
      let (own, _) = keys_of-mark_current did did new now s in ground (arith, own, has)
