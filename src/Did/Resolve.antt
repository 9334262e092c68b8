-- ===== src/Did/Resolve.antt =====
-- did:key texts resolve to the key that they are made of, and what a did:web key has passed.
use roar_protocol.Base.{
  ap, ◌∙◌, append_text_assoc, ◌≢◌, ◌⊎◌, ℕ, String, ◌≡◌, true, false, none, some, List, ◌∷◌, arith,
  length, nonempty, strip_prefix, strip_prefix-append, append_text, Option-cases, inl, inr,
}
use roar_protocol.Json.{Json}
use roar_protocol.Did.{
  Network, key, hex, multicodec_key, public_key_to_did, resolve_did_key, resolve_did_web,
  resolve_did_to_public_key, did_to_url, extract_ed25519_key,
}

-- A did:key that is made of a key of 32 bytes resolves to the key, in hex digits, if base58 decodes
-- what it encodes.
pub resolve-public_key_to_did :
    (n : Network) (public_hex did : String) (raw : List ℕ)
    → n.b58decode (n.b58encode (0xed ∷ 0x01 ∷ raw)) ≡ some (0xed ∷ 0x01 ∷ raw)
    → n.fromhex public_hex ≡ some raw
    → length raw ≡ 32
    → public_key_to_did n public_hex ≡ some did
    → resolve_did_to_public_key n did ≡ key (hex raw)
unfolding public_key_to_did resolve_did_to_public_key
resolve-public_key_to_did n public_hex did raw inverse decodes long made =
    let text = n.b58encode (0xed ∷ 0x01 ∷ raw) in
    let same : append_text "did:key:z" text ≡ did = ground (arith, decodes, made) in
    let method : strip_prefix "did:key:" (append_text "did:key:z" text)
        ≡ some (append_text "z" text) =
      ap (strip_prefix "did:key:") (append_text_assoc "did:key:" "z" text)
      ∙ strip_prefix-append "did:key:" (append_text "z" text) in
    rw (← same) (ground (arith, method, strip_prefix-append "did:key:z" text, inverse, long))

-- What stands behind a key that a did:web gives: a document that was fetched over HTTPS from the
-- URL of the DID, whose host is named and has no private address, and that has the key.
pub record Fetched (n : Network) (did k : String) : Type 0 where
  pub url : String
  pub host : String
  pub doc : Json
  pub from_did : did_to_url did ≡ some url
  pub secure : strip_prefix "https://" url ≢ none
  pub host_of : n.hostname url ≡ some host
  pub public_host : (nonempty host ≡ true) × (n.is_private_ip host ≡ false)
  pub document : n.fetch url ≡ some doc
  pub extracted : extract_ed25519_key n doc ≡ key k

resolve_did_web-key :
    (n : Network) (did k : String) → resolve_did_web n did ≡ key k → Fetched n did k
unfolding resolve_did_web
resolve_did_web-key n did k h = elim (Option-cases (did_to_url did)) [
  | inl bad ↦ absurd (ground arith)
  | inr (url, u) ↦ elim (Option-cases (n.hostname url)) [
    | inl bad ↦ absurd (ground arith)
    | inr (host, o) ↦ elim (Option-cases (n.fetch url)) [
      | inl bad ↦ absurd (ground arith)
      | inr (doc, d) ↦ record {
        url = url;
        host = host;
        doc = doc;
        from_did = u;
        secure = ground arith;
        host_of = o;
        public_host = ground arith;
        document = d;
        extracted = ground arith;
      }
    ]
  ]
]

-- A DID that resolves to a key is a did:key whose text decodes to the key behind the Ed25519
-- prefix, or a did:web whose document was fetched over HTTPS from a public host; no other method
-- resolves.
pub resolve_did-key :
    (n : Network) (did k : String)
    → resolve_did_to_public_key n did ≡ key k
    → ((encoded : String) × (bytes raw : List ℕ) × (strip_prefix "did:key:z" did ≡ some encoded)
        × (n.b58decode encoded ≡ some bytes)
        × (multicodec_key bytes ≡ some raw)
        × (hex raw ≡ k))
      ⊎ ((strip_prefix "did:web:" did ≢ none) × Fetched n did k)
unfolding resolve_did_to_public_key resolve_did_key
resolve_did-key n did k h = elim (Option-cases (strip_prefix "did:key:" did)) [
  | inr (rest, own) ↦ elim (Option-cases (strip_prefix "did:key:z" did)) [
    | inl bad ↦ absurd (ground arith)
    | inr (encoded, e) ↦ elim (Option-cases (n.b58decode encoded)) [
      | inl bad ↦ absurd (ground arith)
      | inr (bytes, b) ↦ elim (Option-cases (multicodec_key bytes)) [
        | inl bad ↦ absurd (ground arith)
        | inr (raw, r) ↦ inl (encoded, bytes, raw, e, b, r, ground arith)
      ]
    ]
  ]
  | inl other ↦ inr (ground arith, resolve_did_web-key n did k (ground arith))
]
