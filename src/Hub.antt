-- ===== src/Hub.antt =====
-- The discovery hub, `ROARHub` of python/src/roar_sdk/hub.py: its handlers, which are closures of
-- `serve`, and the calls of its peers. The parsing of cards and entries is pydantic's, and the
-- network is a parameter. Identifiers, nonces and readings of the clock are arguments.
pub mod Registration
pub mod Federation
pub mod Removal
pub mod Sync
pub mod Listing
pub mod Paging
pub mod Filing
pub mod Invariant
mod Tests
use roar_protocol.Base.{
  inl, inr, ◌⊎◌, ◌≡◌, refl, inr, inl, ◌⊎◌, ◌≡◌, ℕ, zero, suc, ◌+◌, ◌-◌, min, max, String, Bool,
  true, false, ◌||◌, not, Option, none, some, List, [], ◌∷◌, ltb, if◌then◌else◌, length, drop,
  nonempty, strip_prefix, compare_digest, elem, ◌++◌, append_text, is_some,
}
use roar_protocol.Base.Dict.{insert, values}
use roar_protocol.Json.{
  Json, Items, Fields, nil, cons, end, field, null, bool, num, str, arr, obj, Number, finite,
  not_a_number,
}
use roar_protocol.Types.{AgentCard, DiscoveryEntry}
use roar_protocol.Types.Directory.{Directory, register, unregister, find_entry, search, list_all}
use roar_protocol.Challenge.{PendingChallenge, Pending, issue, consume}
use roar_protocol.Signing.{padded}
use roar_protocol.Did.{get_field, truthy}

-- What the handlers call. `b64decode` is `urlsafe_b64decode`; `b64decode` and `fromhex` are none
-- where they raise. `check` is the test of a signature, none where `from_public_bytes` raises.
-- `parse_card` is `AgentCard(**raw)` and `parse_entry` is `DiscoveryEntry(**raw)`, none where they
-- raise, and `dump_entry` is `model_dump`. `float` is Python's, in whole seconds or NaN, none where
-- it raises; `text_of` and `float_text` are the texts that an f-string gives.
pub record Libraries : Type 0 where
  pub b64decode : String → Option (List ℕ)
  pub fromhex : String → Option (List ℕ)
  pub check : List ℕ → List ℕ → String → Option Bool
  pub parse_card : Json → Option AgentCard
  pub parse_entry : Json → Option DiscoveryEntry
  pub dump_entry : DiscoveryEntry → Json
  pub float : Json → Option Number
  pub text_of : Json → String
  pub float_text : Number → String

pub record Hub : Type 0 where
  pub hub_url : String
  pub directory : Directory
  pub peers : List String
  pub challenges : Pending

-- The replies of the handlers; `failed` is an exception that the handler does not catch.
pub data Reply : Type 0 where
  body_too_large invalid_json failed : Reply
  missing_did missing_public_key busy : Reply
  challenge_issued : PendingChallenge → Reply
  missing_challenge_id missing_signature challenge_expired invalid_signature : Reply
  invalid_card_format registered : Reply
  missing_proof timestamp_not_number timestamp_expired agent_not_found no_public_key : Reply
  removed : String → Reply
  not_configured invalid_secret : Reply
  synced : ℕ → ℕ → Reply
  exported : String → List DiscoveryEntry → Reply

abbrev pub status : Reply → ℕ
status body_too_large = 413
status invalid_json = 400
status failed = 500
status missing_did = 400
status missing_public_key = 400
status busy = 503
status missing_challenge_id = 400
status missing_signature = 400
status challenge_expired = 401
status invalid_signature = 401
status invalid_card_format = 400
status missing_proof = 400
status timestamp_not_number = 400
status timestamp_expired = 401
status agent_not_found = 404
status no_public_key = 400
status not_configured = 503
status invalid_secret = 401
status _ = 200

-- A body: its length, and what `json.loads` makes of it, none where it raises.
pub record Body : Type 0 where
  pub size : ℕ
  pub parsed : Option Json

abbrev pub max_body_bytes : ℕ
max_body_bytes = 262_144

pub data Read : Type 0 where
  refused : Reply → Read
  read : Fields → Read

pub Read-cases :
    (r : Read) → ((x : Reply) × (r ≡ refused x)) ⊎ ((fields : Fields) × (r ≡ read fields))
Read-cases (refused x) = inl (x, refl)
Read-cases (read fields) = inr (fields, refl)

-- A body that is no object has no `get`.
unfoldable pub read_bounded_json : Body → Read
read_bounded_json b = if ltb max_body_bytes b.size then refused body_too_large else elim b.parsed [
  | none ↦ refused invalid_json
  | some (obj fields) ↦ read fields
  | some _ ↦ refused failed
]

-- `body.get(k, default)`
abbrev pub get_or : String → Json → Fields → Json
get_or k default fields = elim (get_field k fields) [ none ↦ default | some v ↦ v ]

-- a text that is there and not empty
unfoldable pub text_field : String → Fields → Option String
text_field k fields = elim (get_or k (str "") fields) [
  | str s ↦ if nonempty s then some s else none
  | _ ↦ none
]

abbrev pub add_peer : String → Hub → Hub
add_peer url hub = if elem url hub.peers then hub else record hub { peers = hub.peers ++ url ∷ [] }

unfoldable pub begin_registration : Body → String → String → ℕ → ℕ → Hub → Hub × Reply
begin_registration body id nonce evicted_at now hub = elim (read_bounded_json body) [
  | refused r ↦ (hub, r)
  | read fields ↦ elim (text_field "did" fields) [
    | none ↦ (hub, missing_did)
    | some did ↦ elim (text_field "public_key" fields) [
      | none ↦ (hub, missing_public_key)
      | some key ↦
          let card = get_or "card" (obj end) fields in
          let (pending, result) = issue did key card id nonce evicted_at now hub.challenges in
          (
            record hub { challenges = pending },
            elim result [ none ↦ busy | some c ↦ challenge_issued c ],
          )
    ]
  ]
]

module _ (lib : Libraries) where
  -- `_verify_ed25519`, none where it raises `ValueError`
  unfoldable pub verify_ed25519 : String → String → String → Option Bool
  verify_ed25519 public_key signature message = elim (strip_prefix "ed25519:" signature) [
    | none ↦ none
    | some b64 ↦ elim (lib.b64decode (padded b64)) [
      | none ↦ none
      | some sig ↦ elim (lib.fromhex public_key) [
        | none ↦ none
        | some key ↦ lib.check key sig message
      ]
    ]
  ]

  -- The entry that `register` returns is the directory's own: its `hub_url` is set in place.
  abbrev pub admit : AgentCard → ℕ → ℕ → Hub → Hub
  admit card registered_at last_seen hub =
      let (d, entry) = register card registered_at last_seen hub.directory in
      record hub { directory = insert card.identity.did (record entry { hub_url = hub.hub_url }) d }

  -- the end of `complete_challenge`, with the challenge in hand
  unfoldable pub answer : String → PendingChallenge → ℕ → ℕ → Hub → Hub × Reply
  answer signature c registered_at last_seen hub =
      elim (verify_ed25519 c.public_key signature c.nonce) [
        | none ↦ (hub, invalid_signature)
        | some false ↦ (hub, invalid_signature)
        | some true ↦ elim (lib.parse_card c.card) [
          | none ↦ (hub, invalid_card_format)
          | some card ↦ (admit card registered_at last_seen hub, registered)
        ]
      ]

  unfoldable pub complete_challenge : Body → ℕ → ℕ → ℕ → ℕ → Hub → Hub × Reply
  complete_challenge body evicted_at now registered_at last_seen hub =
      elim (read_bounded_json body) [
        | refused r ↦ (hub, r)
        | read fields ↦ elim (text_field "challenge_id" fields) [
          | none ↦ (hub, missing_challenge_id)
          | some id ↦ elim (text_field "signature" fields) [
            | none ↦ (hub, missing_signature)
            | some signature ↦
                let (pending, found) = consume id evicted_at now hub.challenges in
                let hub' = record hub { challenges = pending } in
                elim found [
                  | none ↦ (hub', challenge_expired)
                  | some c ↦ answer signature c registered_at last_seen hub'
                ]
          ]
        ]
      ]

  -- `f"delete:{did}:{nonce}:{timestamp}"`
  abbrev pub delete_text : String → Json → Number → String
  delete_text did nonce timestamp = append_text "delete:" (
      append_text did (
        append_text ":"
          (append_text (lib.text_of nonce) (append_text ":" (lib.float_text timestamp)))))

  -- `abs(now - timestamp) > 60`, which is False for NaN
  abbrev pub is_stale : ℕ → Number → Bool
  is_stale now not_a_number = false
  is_stale now (finite timestamp) = ltb 60 ((now - timestamp) + (timestamp - now))

  -- the test of the proof for a registered key; a signature that is no text makes the call raise
  abbrev pub check_proof : String → Json → String → Option Reply
  check_proof public_key (str signature) message =
      elim (verify_ed25519 public_key signature message) [
        | none ↦ some invalid_signature
        | some false ↦ some invalid_signature
        | some true ↦ none
      ]
  check_proof public_key _ message = some failed

  abbrev pub public_key_of : DiscoveryEntry → Option String
  public_key_of entry = elim entry.agent_card.identity.public_key [
    | none ↦ none
    | some k ↦ if nonempty k then some k else none
  ]

  -- the end of `unregister`, with the three fields in hand
  unfoldable pub check_delete : String → Json → Json → Json → ℕ → Hub → Option Reply
  check_delete did signature nonce raw now hub = elim (lib.float raw) [
    | none ↦ some timestamp_not_number
    | some timestamp ↦
        if is_stale now timestamp
        then some timestamp_expired
        else elim (find_entry did hub.directory) [
          | none ↦ some agent_not_found
          | some entry ↦ elim (public_key_of entry) [
            | none ↦ some no_public_key
            | some key ↦ check_proof key signature (delete_text did nonce timestamp)
          ]
        ]
  ]

  abbrev pub is_null : Json → Bool
  is_null null = true
  is_null _ = false

  unfoldable pub delete_agent : String → Body → ℕ → Hub → Hub × Reply
  delete_agent did body now hub = elim (read_bounded_json body) [
    | refused r ↦ (hub, r)
    | read fields ↦
        let signature = get_or "signature" (str "") fields in
        let nonce = get_or "nonce" (str "") fields in
        let raw = get_or "timestamp" null fields in
        if not (truthy signature) || not (truthy nonce) || is_null raw
        then (hub, missing_proof)
        else elim (check_delete did signature nonce raw now hub) [
          | some r ↦ (hub, r)
          | none ↦ (record hub { directory = (unregister did hub.directory).0 }, removed did)
        ]
  ]
