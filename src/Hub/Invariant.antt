-- ===== src/Hub/Invariant.antt =====
-- The calls of the hub as steps from state to state.
use roar_protocol.Base.{
  elem, ◌||◌, ◌++◌, not, not, ◌⊎◌, Bool-cases, ℕ, String, ◌≡◌, true, false, Option, List, [], ◌∷◌,
  arith, Option-cases, inl, inr,
}
use roar_protocol.Base.Dict.{erase}
use roar_protocol.Json.{Json, arr, obj, nil, end, null, str}
use roar_protocol.Challenge.{Pending, PendingChallenge, issue, consume}
use roar_protocol.Challenge.OneShot.{IsValid, issue_op, consume_op, apply, serve, serve-IsValid}
use roar_protocol.Types.{AgentCard}
use roar_protocol.Types.Directory.{unregister}
use roar_protocol.Hub.{
  check_delete, is_null, truthy, verify_ed25519, Read-cases, text_field, read_bounded_json, arr,
  get_or, obj, Libraries, Hub, Body, begin_registration, complete_challenge, delete_agent, answer,
  admit, add_peer,
}
use roar_protocol.Hub.Filing.{
  Filed, Filed-admit, Filed-erase, Filed-sync_entries, Filed-pull_from_peers,
}
use roar_protocol.Hub.Sync.{check_secret, elements, receive_sync, sync_entries, pull_from_peers}

-- A call of the hub, from one state to the next.
pub data Step (lib : Libraries) : Hub → Hub → Type 0 where
  begins :
      (body : Body) (id nonce : String) (a n : ℕ) (hub : Hub)
      → Step lib hub (begin_registration body id nonce a n hub).0
  completes :
      (body : Body) (a n r s : ℕ) (hub : Hub)
      → Step lib hub (complete_challenge lib body a n r s hub).0
  deletes :
      (did : String) (body : Body) (n : ℕ) (hub : Hub)
      → Step lib hub (delete_agent lib did body n hub).0
  syncs :
      (secret header : String) (body : Body) (n : ℕ) (hub : Hub)
      → Step lib hub (receive_sync lib secret header body n hub).0
  pulls :
      (fetch : String → Option Json) (hub : Hub)
      → Step lib hub
          (record hub { directory = (pull_from_peers lib fetch hub.peers hub.directory).0 })
  adds : (url : String) (hub : Hub) → Step lib hub (add_peer url hub)

pub data Reaches (lib : Libraries) : Hub → Hub → Type 0 where
  here : (hub : Hub) → Reaches lib hub hub
  and_then : {a b c : Hub} → Reaches lib a b → Step lib b c → Reaches lib a c

module _ (lib : Libraries) where
  -- The state is good: every entry stands under its DID, and the table of challenges is valid.
  pub record IsGood (hub : Hub) : Type 0 where
    pub filed : Filed hub.directory
    pub challenges : IsValid hub.challenges

  IsValid-issue :
      (did key : String) (card : Json) (id nonce : String) (a n : ℕ) (p : Pending)
      → IsValid p
      → IsValid (issue did key card id nonce a n p).0
  unfolding serve apply
  IsValid-issue did key card id nonce a n p v =
      serve-IsValid (issue_op did key card id nonce a n ∷ []) p v

  IsValid-consume : (id : String) (a n : ℕ) (p : Pending) → IsValid p → IsValid (consume id a n p).0
  unfolding serve apply
  IsValid-consume id a n p v = serve-IsValid (consume_op id a n ∷ []) p v

  IsGood-begin_registration :
      (body : Body) (id nonce : String) (a n : ℕ) (hub : Hub)
      → IsGood hub
      → IsGood (begin_registration body id nonce a n hub).0
  unfolding begin_registration
  IsGood-begin_registration body id nonce a n hub g = elim (Read-cases (read_bounded_json body)) [
    | inl (x, b) ↦ rw (begin_registration, b) g
    | inr (fields, b) ↦ elim (Option-cases (text_field "did" fields)) [
      | inl d ↦ rw (begin_registration, b, d) g
      | inr (did, d) ↦ elim (Option-cases (text_field "public_key" fields)) [
        | inl k ↦ rw (begin_registration, b, d, k) g
        | inr (key, k) ↦
            let v =
              IsValid-issue did key (get_or "card" (obj end) fields) id nonce a n hub.challenges
                g.challenges in
            rw (begin_registration, b, d, k) (record { filed = g.filed; challenges = v })
      ]
    ]
  ]

  answer-cases :
      (signature : String) (c : PendingChallenge) (r s : ℕ) (hub : Hub)
      → ((answer lib signature c r s hub).0 ≡ hub)
        ⊎ ((card : AgentCard) × ((answer lib signature c r s hub).0 ≡ admit lib card r s hub))
  unfolding answer
  answer-cases signature c r s hub = elim (Option-cases (lib.parse_card c.card)) [
    | inl bad ↦ inl (ground arith)
    | inr (card, p) ↦ elim (Option-cases (verify_ed25519 lib c.public_key signature c.nonce)) [
      | inl raised ↦ inl (ground arith)
      | inr (false, bad) ↦ inl (ground arith)
      | inr (true, good) ↦ inr (card, ground arith)
    ]
  ]

  IsGood-answer :
      (signature : String) (c : PendingChallenge) (r s : ℕ) (hub : Hub)
      → IsGood hub
      → IsGood (answer lib signature c r s hub).0
  IsGood-answer signature c r s hub g = elim (answer-cases signature c r s hub) [
    | inl same ↦ rw same g
    | inr (card, e) ↦
        rw e (record { filed = Filed-admit lib card r s hub g.filed; challenges = g.challenges })
  ]

  IsGood-complete_challenge :
      (body : Body) (a n r s : ℕ) (hub : Hub)
      → IsGood hub
      → IsGood (complete_challenge lib body a n r s hub).0
  unfolding complete_challenge
  IsGood-complete_challenge body a n r s hub g = elim (Read-cases (read_bounded_json body)) [
    | inl (x, b) ↦ rw (complete_challenge, b) g
    | inr (fields, b) ↦ elim (Option-cases (text_field "challenge_id" fields)) [
      | inl i ↦ rw (complete_challenge, b, i) g
      | inr (id, i) ↦ elim (Option-cases (text_field "signature" fields)) [
        | inl t ↦ rw (complete_challenge, b, i, t) g
        | inr (signature, t) ↦
            let v = IsValid-consume id a n hub.challenges g.challenges in
            let hub' = record hub { challenges = (consume id a n hub.challenges).0 } in
            let g' : IsGood hub' = record { filed = g.filed; challenges = v } in
            elim (Option-cases (consume id a n hub.challenges).1) [
              | inl f ↦ rw (complete_challenge, b, i, t, f) g'
              | inr (c, f) ↦
                  rw (complete_challenge, b, i, t, f) (IsGood-answer signature c r s hub' g')
            ]
      ]
    ]
  ]

  delete_agent-cases :
      (did : String) (body : Body) (n : ℕ) (hub : Hub)
      → let hub' = (delete_agent lib did body n hub).0 in
        (hub' ≡ hub) ⊎ (hub' ≡ record hub { directory = erase did hub.directory })
  unfolding delete_agent unregister
  delete_agent-cases did body n hub = elim (Read-cases (read_bounded_json body)) [
    | inl (x, b) ↦ inl (ground arith)
    | inr (fields, b) ↦
        let signature = get_or "signature" (str "") fields in
        let nonce = get_or "nonce" (str "") fields in
        let raw = get_or "timestamp" null fields in
        let missing = not (truthy signature) || not (truthy nonce) || is_null lib raw in
        elim (Option-cases (check_delete lib did signature nonce raw n hub)) [
          | inr (r, bad) ↦ inl (ground arith)
          | inl passed ↦ elim (Bool-cases missing) [
            | inl absent ↦ inl (ground arith)
            | inr given ↦ inr (ground arith)
          ]
        ]
  ]

  receive_sync-cases :
      (secret header : String) (body : Body) (n : ℕ) (hub : Hub)
      → let hub' = (receive_sync lib secret header body n hub).0 in
        (hub' ≡ hub)
        ⊎ ((raws : List Json) × (hub'
              ≡ record hub { directory = (sync_entries lib raws n hub.directory).0 }))
  unfolding receive_sync
  receive_sync-cases secret header body n hub = elim (Option-cases (check_secret secret header)) [
    | inr (r, refused') ↦ inl (ground arith)
    | inl passed ↦ elim (Read-cases (read_bounded_json body)) [
      | inl (x, b) ↦ inl (ground arith)
      | inr (fields, b) ↦ elim (Option-cases (elements (get_or "entries" (arr nil) fields))) [
        | inl bad ↦ inl (ground arith)
        | inr (raws, p) ↦ inr (raws, ground arith)
      ]
    ]
  ]

  add_peer-cases :
      (url : String) (hub : Hub)
      → (add_peer url hub ≡ hub) ⊎ (add_peer url hub ≡ record hub { peers = hub.peers ++ url ∷ [] })
  add_peer-cases url hub = elim (Bool-cases (elem url hub.peers)) [
    | inl known ↦ inl (ground arith)
    | inr new ↦ inr (ground arith)
  ]

  Step-IsGood : (hub hub' : Hub) → Step lib hub hub' → IsGood hub → IsGood hub'
  Step-IsGood _ _ (begins body id nonce a n hub) g =
      IsGood-begin_registration body id nonce a n hub g
  Step-IsGood _ _ (completes body a n r s hub) g = IsGood-complete_challenge body a n r s hub g
  Step-IsGood _ _ (deletes did body n hub) g = elim (delete_agent-cases did body n hub) [
    | inl same ↦ rw same g
    | inr e ↦
        rw e (record { filed = Filed-erase did hub.directory g.filed; challenges = g.challenges })
  ]
  Step-IsGood _ _ (syncs secret header body n hub) g =
      elim (receive_sync-cases secret header body n hub) [
        | inl same ↦ rw same g
        | inr (raws, e) ↦ rw e (record {
          filed = Filed-sync_entries lib raws n hub.directory g.filed;
          challenges = g.challenges;
        })
      ]
  Step-IsGood _ _ (pulls fetch hub) g = record {
    filed = Filed-pull_from_peers lib fetch hub.peers hub.directory g.filed;
    challenges = g.challenges;
  }
  Step-IsGood _ _ (adds url hub) g = elim (add_peer-cases url hub) [
    | inl same ↦ rw same g
    | inr e ↦ rw e (record { filed = g.filed; challenges = g.challenges })
  ]

  -- Whatever calls a hub answers, in any order: if its entries stand each under the DID of its card
  -- and its table of challenges is valid, they do afterwards.
  pub Reaches-IsGood : (hub hub' : Hub) → Reaches lib hub hub' → IsGood hub → IsGood hub'
  Reaches-IsGood _ _ (here hub) g = g
  Reaches-IsGood a c (and_then {b = b} r s) g = Step-IsGood b c s (Reaches-IsGood a b r g)
