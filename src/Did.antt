-- ===== src/Did.antt =====
-- Resolution of DIDs to Ed25519 keys: python/src/roar_sdk/did_resolver.py, with the URLs of
-- did_web.py and the did:key texts of did_key.py. Base58, base64, the parsing of URLs, name lookup
-- and the HTTPS fetch are parameters.
pub mod Resolve
pub mod Samples
mod Tests
use Prim.Native.Char.{code}
use Prim.Native.String.{count}
use roar_protocol.Base.{
  ℕ, zero, suc, ◌+◌, ◌/◌, ◌%◌, String, Bool, true, false, ◌&&◌, ◌||◌, not, Option, none, some, List,
  [], ◌∷◌, ◌==◌, nat_eq, if◌then◌else◌, length, nonempty, strip_prefix, append_text,
}
use roar_protocol.Json.{
  Json, Items, Fields, null, bool, num, nan, str, arr, obj, nil, cons, end, field,
}

pub record Network : Type 0 where
  pub b58encode : List ℕ → String
  pub b58decode : String → Option (List ℕ)
  pub b64decode : String → Option (List ℕ)
  pub fromhex : String → Option (List ℕ)
  pub hostname : String → Option String
  pub is_private_ip : String → Bool
  pub fetch : String → Option Json

-- a key; `DIDResolutionError`; a value of the document that is returned and is no text; another
-- exception
pub data Resolution : Type 0 where
  key : String → Resolution
  unresolved : Resolution
  not_text : Json → Resolution
  raised : Resolution

-- `bytes.hex`
abbrev pub nth : List String → ℕ → String
nth [] n = ""
nth (s ∷ ss) zero = s
nth (s ∷ ss) (suc n) = nth ss n

abbrev pub digits : List String
digits =
    "0" ∷ "1" ∷ "2" ∷ "3" ∷ "4" ∷ "5" ∷ "6" ∷ "7" ∷ "8" ∷ "9" ∷ "a" ∷ "b" ∷ "c" ∷ "d" ∷ "e" ∷ "f"
    ∷ []

unfoldable pub hex : List ℕ → String
hex [] = ""
hex (b ∷ bs) = append_text (nth digits (b / 16)) (append_text (nth digits (b % 16)) (hex bs))

-- the key of 34 bytes with the multicodec prefix 0xed 0x01
abbrev pub multicodec_key : List ℕ → Option (List ℕ)
multicodec_key (a ∷ b ∷ rest) =
    if nat_eq (length rest) 32 && nat_eq a 0xed && nat_eq b 0x01 then some rest else none
multicodec_key _ = none

-- `bool(v)`
abbrev pub truthy : Json → Bool
truthy null = false
truthy (bool b) = b
truthy (num zero) = false
truthy (num (suc n)) = true
truthy nan = true
truthy (str s) = nonempty s
truthy (arr nil) = false
truthy (arr (cons x xs)) = true
truthy (obj end) = false
truthy (obj (field k v fs)) = true

abbrev pub get_field : String → Fields → Option Json
get_field k end = none
get_field k (field j v fs) = if k == j then some v else get_field k fs

-- `x := d.get(k)` as a condition
abbrev pub get_truthy : String → Fields → Option Json
get_truthy k fs = elim (get_field k fs) [ none ↦ none | some v ↦ if truthy v then some v else none ]

abbrev pub count_items : Items → ℕ
count_items nil = 0
count_items (cons x xs) = suc (count_items xs)

abbrev pub count_fields : Fields → ℕ
count_fields end = 0
count_fields (field k v fs) = suc (count_fields fs)

-- `text.split(":")`
unfoldable pub split_colons : String → List String
split_colons String.[] = "" ∷ []
split_colons (String.◌∷◌ c s) = elim (split_colons s) [
  | [] ↦ String.◌∷◌ c "" ∷ []
  | p ∷ ps ↦ if nat_eq (code c) b':' then "" ∷ p ∷ ps else String.◌∷◌ c p ∷ ps
]

-- `text.replace("%3A", ":")`
unfoldable pub unescape_colons : String → String
unescape_colons (String.◌∷◌ c (String.◌∷◌ d (String.◌∷◌ e s))) =
    let escaped = append_text ":" (unescape_colons s) in
    let kept = String.◌∷◌ c (unescape_colons (String.◌∷◌ d (String.◌∷◌ e s))) in
    if nat_eq (code c) b'%' && nat_eq (code d) b'3' && nat_eq (code e) b'A' then escaped else kept
unescape_colons s = s

-- `"/".join(parts)`
unfoldable pub join_slash : List String → String
join_slash [] = ""
join_slash (p ∷ []) = p
join_slash (p ∷ q ∷ ps) = append_text p (append_text "/" (join_slash (q ∷ ps)))

-- `DIDWebMethod.did_to_url`, none where it raises
unfoldable pub did_to_url : String → Option String
unfolding split_colons unescape_colons join_slash
did_to_url did = elim (strip_prefix "did:web:" did) [
  | none ↦ none
  | some rest ↦ elim (split_colons rest) [
    | [] ↦ none
    | domain ∷ [] ↦
        some (append_text "https://" (append_text (unescape_colons domain) "/.well-known/did.json"))
    | domain ∷ p ∷ ps ↦ some (
        append_text "https://" (
          append_text (unescape_colons domain)
            (append_text "/" (append_text (join_slash (p ∷ ps)) "/did.json"))))
  ]
]

module _ (n : Network) where
  -- `DIDKeyMethod._public_key_to_did`, none where it raises
  unfoldable pub public_key_to_did : String → Option String
  public_key_to_did public_hex = elim (n.fromhex public_hex) [
    | none ↦ none
    | some raw ↦ some (append_text "did:key:z" (n.b58encode (0xed ∷ 0x01 ∷ raw)))
  ]

  unfoldable pub resolve_did_key : String → Resolution
  resolve_did_key did = elim (strip_prefix "did:key:z" did) [
    | none ↦ unresolved
    | some encoded ↦ elim (n.b58decode encoded) [
      | none ↦ unresolved
      | some bytes ↦ elim (multicodec_key bytes) [ none ↦ unresolved | some raw ↦ key (hex raw) ]
    ]
  ]

  -- The three forms of a key, each tried if it is there; `next` goes to the next form, and `skip`
  -- to the next method, which is what an exception inside a `try` does.
  pub data Attempt : Type 0 where
    next skip : Attempt
    stop : Resolution → Attempt

  abbrev pub try_multibase : Fields → Attempt
  try_multibase m = elim (get_truthy "publicKeyMultibase" m) [
    | none ↦ next
    | some (str pmb) ↦ elim (strip_prefix "z" pmb) [
      | none ↦ next
      | some encoded ↦ elim (n.b58decode encoded) [
        | none ↦ skip
        | some bytes ↦ elim (multicodec_key bytes) [ none ↦ next | some raw ↦ stop (key (hex raw)) ]
      ]
    ]
    | some _ ↦ stop raised
  ]

  -- `len(pkh) == 64`, of a value that may be no text
  abbrev pub try_hex : Fields → Attempt
  try_hex m = elim (get_truthy "publicKeyHex" m) [
    | none ↦ next
    | some (str pkh) ↦ if nat_eq (count pkh) 64 then stop (key pkh) else next
    | some (arr xs) ↦ if nat_eq (count_items xs) 64 then stop (not_text (arr xs)) else next
    | some (obj fs) ↦ if nat_eq (count_fields fs) 64 then stop (not_text (obj fs)) else next
    | some _ ↦ stop raised
  ]

  abbrev pub is_text : String → Option Json → Bool
  is_text t (some (str s)) = s == t
  is_text t _ = false

  abbrev pub try_jwk : Fields → Attempt
  try_jwk m = elim (get_truthy "publicKeyJwk" m) [
    | none ↦ next
    | some (obj jwk) ↦
        if is_text "Ed25519" (get_field "crv" jwk)
        then elim (get_truthy "x" jwk) [
          | none ↦ next
          | some (str x) ↦ elim (n.b64decode (append_text x "==")) [
            | none ↦ skip
            | some bytes ↦ if nat_eq (length bytes) 32 then stop (key (hex bytes)) else next
          ]
          | some _ ↦ skip
        ]
        else next
    | some _ ↦ stop raised
  ]

  abbrev pub after : Attempt → Attempt → Attempt
  after next b = b
  after skip b = skip
  after (stop r) b = stop r

  unfoldable pub try_method : Json → Attempt
  try_method (obj m) = after (try_multibase m) (after (try_hex m) (try_jwk m))
  try_method _ = stop raised

  unfoldable pub try_methods : Items → Resolution
  unfolding try_method
  try_methods nil = unresolved
  try_methods (cons m ms) =
      let later = try_methods ms in elim (try_method m) [ next ↦ later | skip ↦ later | stop r ↦ r ]

  unfoldable pub extract_ed25519_key : Json → Resolution
  unfolding try_methods
  extract_ed25519_key (obj doc) = elim (get_field "verificationMethod" doc) [
    | none ↦ unresolved
    | some (arr methods) ↦ try_methods methods
    | some (str s) ↦ if nonempty s then raised else unresolved
    | some (obj end) ↦ unresolved
    | some _ ↦ raised
  ]
  extract_ed25519_key _ = raised

  unfoldable pub resolve_did_web : String → Resolution
  unfolding extract_ed25519_key
  resolve_did_web did = elim (did_to_url did) [
    | none ↦ unresolved
    | some url ↦ elim (strip_prefix "https://" url) [
      | none ↦ unresolved
      | some rest ↦ elim (n.hostname url) [
        | none ↦ unresolved
        | some host ↦
            if not (nonempty host) || n.is_private_ip host
            then unresolved
            else elim (n.fetch url) [ none ↦ unresolved | some doc ↦ extract_ed25519_key doc ]
      ]
    ]
  ]

  unfoldable pub resolve_did_to_public_key : String → Resolution
  unfolding resolve_did_key resolve_did_web
  resolve_did_to_public_key did = elim (strip_prefix "did:key:" did) [
    | some rest ↦ resolve_did_key did
    | none ↦ elim (strip_prefix "did:web:" did) [
      | some rest ↦ resolve_did_web did
      | none ↦ unresolved
    ]
  ]
