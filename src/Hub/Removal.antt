-- ===== src/Hub/Removal.antt =====
-- Removal from the hub.
use roar_protocol.Base.{
  ◌||◌, not, not, Bool-cases, ℕ, String, ◌≡◌, refl, ◌+◌, ◌≤◌, true, false, none, some, arith, ◌==◌,
  if◌then◌else◌, Option-cases, inl, inr, ◌⊎◌,
}
use roar_protocol.Base.Dict.{lookup-erase}
use roar_protocol.Json.{Json, Number, Fields, str, null, finite, not_a_number}
use roar_protocol.Did.{get_field, truthy}
use roar_protocol.Types.{DiscoveryEntry}
use roar_protocol.Types.Directory.{find_entry, unregister}
use roar_protocol.Hub.{
  Read-cases, read, is_null, Libraries, Hub, Body, read_bounded_json, get_or, removed,
  verify_ed25519, public_key_of, delete_text, is_stale, check_proof, check_delete, delete_agent,
}

-- The time is NaN, or at most a minute away.
abbrev pub Fresh : ℕ → Number → Type 0
Fresh now not_a_number = Unit
Fresh now (finite t) = (now ≤ t + 60) × (t ≤ now + 60)

-- The proof that a body gives for a removal: a text of the DID, its nonce and its time, which the
-- registered key has signed. The time passes the staleness test.
pub record Proved (lib : Libraries) (did : String) (body : Body) (now : ℕ) (hub : Hub)
    : Type 0 where
  pub fields : Fields
  pub entry : DiscoveryEntry
  pub key : String
  pub signature : String
  pub nonce : Json
  pub raw : Json
  pub timestamp : Number
  pub is_read : read_bounded_json body ≡ read fields
  pub has_signature : get_field "signature" fields ≡ some (str signature)
  pub has_nonce : get_field "nonce" fields ≡ some nonce
  pub has_timestamp : get_field "timestamp" fields ≡ some raw
  pub is_number : lib.float raw ≡ some timestamp
  pub found : find_entry did hub.directory ≡ some entry
  pub has_key : public_key_of lib entry ≡ some key
  pub fresh : Fresh now timestamp
  pub signed : verify_ed25519 lib key signature (delete_text lib did nonce timestamp) ≡ some true

Fresh-is_stale : (lib : Libraries) (now : ℕ) (t : Number) → is_stale lib now t ≡ false → Fresh now t
Fresh-is_stale lib now not_a_number h = tt
Fresh-is_stale lib now (finite t) h = ground arith

check_proof-none :
    (lib : Libraries) (key : String) (signature : Json) (message : String)
    → check_proof lib key signature message ≡ none
    → (text : String) × (signature ≡ str text) × (verify_ed25519 lib key text message ≡ some true)
check_proof-none lib key (str s) message h = (s, refl, ground arith)
check_proof-none lib key _ message h = absurd (ground arith)

get_or-truthy :
    (k : String) (fields : Fields)
    → truthy (get_or k (str "") fields) ≡ true
    → get_field k fields ≡ some (get_or k (str "") fields)
get_or-truthy k fields h = elim (Option-cases (get_field k fields)) [
  | inl absent ↦ absurd (ground (arith, absent, h))
  | inr (v, e) ↦ ground (arith, e)
]

get_or-is_null :
    (lib : Libraries) (k : String) (fields : Fields)
    → is_null lib (get_or k null fields) ≡ false
    → get_field k fields ≡ some (get_or k null fields)
get_or-is_null lib k fields h = elim (Option-cases (get_field k fields)) [
  | inl absent ↦ absurd (ground (arith, absent, h))
  | inr (v, e) ↦ ground (arith, e)
]

-- The fields of a body that gives all three.
record Given (body : Body) (signature nonce raw : Json) : Type 0 where
  fields : Fields
  is_read : read_bounded_json body ≡ read fields
  signature_there : get_field "signature" fields ≡ some signature
  nonce_there : get_field "nonce" fields ≡ some nonce
  timestamp_there : get_field "timestamp" fields ≡ some raw

Given-guard :
    (lib : Libraries) (body : Body) (fields : Fields)
    → let signature = get_or "signature" (str "") fields in
      let nonce = get_or "nonce" (str "") fields in
      let raw = get_or "timestamp" null fields in
      read_bounded_json body ≡ read fields
      → not (truthy signature) || not (truthy nonce) || is_null lib raw ≡ false
      → Given body signature nonce raw
Given-guard lib body fields b g =
    let signed : truthy (get_or "signature" (str "") fields) ≡ true = ground arith in
    let fresh : truthy (get_or "nonce" (str "") fields) ≡ true = ground arith in
    let timed : is_null lib (get_or "timestamp" null fields) ≡ false = ground arith in
    record {
      fields = fields;
      is_read = b;
      signature_there = get_or-truthy "signature" fields signed;
      nonce_there = get_or-truthy "nonce" fields fresh;
      timestamp_there = get_or-is_null lib "timestamp" fields timed;
    }

check_delete-none :
    (lib : Libraries) (did : String) (body : Body) (signature nonce raw : Json) (now : ℕ)
    (hub : Hub)
    → Given body signature nonce raw
    → check_delete lib did signature nonce raw now hub ≡ none
    → Proved lib did body now hub
unfolding check_delete
check_delete-none lib did body signature nonce raw now hub g h =
    elim (Option-cases (lib.float raw)) [
      | inl bad ↦ absurd (ground arith)
      | inr (timestamp, f) ↦ elim (Option-cases (find_entry did hub.directory)) [
        | inl absent ↦ absurd (ground arith)
        | inr (entry, e) ↦ elim (Option-cases (public_key_of lib entry)) [
          | inl keyless ↦ absurd (ground arith)
          | inr (key, k) ↦
              let fresh : is_stale lib now timestamp ≡ false = ground arith in
              let (text, is_text, good) =
                check_proof-none lib key signature (delete_text lib did nonce timestamp)
                  (ground arith) in
              record {
                fields = g.fields;
                entry = entry;
                key = key;
                signature = text;
                nonce = nonce;
                raw = raw;
                timestamp = timestamp;
                is_read = g.is_read;
                has_signature = rw is_text at g.signature_there;
                has_nonce = g.nonce_there;
                has_timestamp = g.timestamp_there;
                is_number = f;
                found = e;
                has_key = k;
                fresh = Fresh-is_stale lib now timestamp fresh;
                signed = good;
              }
        ]
      ]
    ]

-- A call of `unregister` leaves the hub as it was, or it takes out the agent that it names and no
-- other; then the agent was registered with a public key, and the signature in the body is good
-- under this key for the text of the DID and the body's nonce and time, and the time is NaN or at
-- most a minute away.
pub delete_agent-Proved :
    (lib : Libraries) (did : String) (body : Body) (now : ℕ) (hub : Hub)
    → let (hub', reply) = delete_agent lib did body now hub in
      (hub' ≡ hub)
      ⊎ ((reply ≡ removed did)
          × Proved lib did body now hub
          × ((other : String)
              → find_entry other hub'.directory
                ≡ (if other == did then none else find_entry other hub.directory)))
unfolding delete_agent find_entry unregister
delete_agent-Proved lib did body now hub = elim (Read-cases (read_bounded_json body)) [
  | inl (x, bad) ↦ inl (ground arith)
  | inr (fields, b) ↦
      let signature = get_or "signature" (str "") fields in
      let nonce = get_or "nonce" (str "") fields in
      let raw = get_or "timestamp" null fields in
      elim (Option-cases (check_delete lib did signature nonce raw now hub)) [
        | inr (r, bad) ↦ inl (ground arith)
        | inl passed ↦
            elim (Bool-cases (not (truthy signature) || not (truthy nonce) || is_null lib raw)) [
              | inl missing ↦ inl (ground arith)
              | inr given ↦ inr (
                ground arith,
                check_delete-none lib did body signature nonce raw now hub
                    (Given-guard lib body fields b given) passed,
                λ other. ground (arith, lookup-erase other did hub.directory),
              )
            ]
      ]
]
