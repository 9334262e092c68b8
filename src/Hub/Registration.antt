-- ===== src/Hub/Registration.antt =====
-- Registration at the hub.
use roar_protocol.Base.{
  ◌∙◌, ap, sym, ℕ, ◌+◌, ◌≤◌, String, ◌≡◌, ◌≢◌, refl, true, none, some, arith, ◌==◌, if◌then◌else◌,
  Option-cases, inl, inr,
}
use roar_protocol.Base.Dict.{lookup, insert, lookup-insert, lookup-erase}
use roar_protocol.Json.{Json, obj, end, finite}
use roar_protocol.Types.{AgentCard, DiscoveryEntry}
use roar_protocol.Types.Directory.{find_entry, new_entry, register}
use roar_protocol.Challenge.{
  evict_expired, PendingChallenge, Pending, nonce_ttl, new_challenge, issue, consume,
}
use roar_protocol.Challenge.OneShot.{IsValid, consume-some, consume-issue}
use roar_protocol.Hub.{
  Read-cases, refused, Fields, Libraries, Hub, Body, read, read_bounded_json, text_field, get_or,
  registered, challenge_issued, begin_registration, verify_ed25519, admit, answer,
  complete_challenge,
}

-- the entry that the hub files for a card
abbrev pub local_entry : AgentCard → ℕ → ℕ → Hub → DiscoveryEntry
local_entry card registered_at last_seen hub = record {
  agent_card = card;
  registered_at = finite registered_at;
  last_seen = finite last_seen;
  hub_url = hub.hub_url;
}

find_entry-admit :
    (lib : Libraries) (card : AgentCard) (r s : ℕ) (hub : Hub) (did : String)
    → find_entry did (admit lib card r s hub).directory ≡ (
        if did == card.identity.did
        then some (local_entry card r s hub)
        else find_entry did hub.directory)
unfolding find_entry register new_entry
find_entry-admit lib card r s hub did = ground (
  arith,
  lookup-insert did card.identity.did (local_entry card r s hub)
      (insert card.identity.did (new_entry card r s) hub.directory),
  lookup-insert did card.identity.did (new_entry card r s) hub.directory,
)

-- What a registration by the fields of a body has passed, and what it changes.
pub record Registered (lib : Libraries) (body : Body) (now r s : ℕ) (hub hub' : Hub) : Type 0 where
  pub fields : Fields
  pub id : String
  pub signature : String
  pub is_read : read_bounded_json body ≡ read fields
  pub has_id : text_field "challenge_id" fields ≡ some id
  pub has_signature : text_field "signature" fields ≡ some signature
  pub challenge : PendingChallenge
  pub card : AgentCard
  pub pending : lookup id hub.challenges ≡ some challenge
  pub live : now ≤ challenge.expires_at
  pub signed : verify_ed25519 lib challenge.public_key signature challenge.nonce ≡ some true
  pub parsed : lib.parse_card challenge.card ≡ some card
  pub used : lookup id hub'.challenges ≡ none
  pub entries :
      (did : String)
      → find_entry did hub'.directory ≡ (
          if did == card.identity.did
          then some (local_entry card r s hub)
          else find_entry did hub.directory)

answer-registered :
    (lib : Libraries) (signature : String) (c : PendingChallenge) (r s : ℕ) (hub : Hub)
    → (answer lib signature c r s hub).1 ≡ registered
    → (verify_ed25519 lib c.public_key signature c.nonce ≡ some true)
      × (card : AgentCard) × (lib.parse_card c.card ≡ some card)
      × ((answer lib signature c r s hub).0 ≡ admit lib card r s hub)
unfolding answer
answer-registered lib signature c r s hub h =
    let good : verify_ed25519 lib c.public_key signature c.nonce ≡ some true = ground arith in
    elim (Option-cases (lib.parse_card c.card)) [
      | inl bad ↦ absurd (ground arith)
      | inr (card, p) ↦ (good, card, p, ground arith)
    ]

absent-consume :
    (id : String) (evicted_at now : ℕ) (p : Pending)
    → lookup id (consume id evicted_at now p).0 ≡ none
unfolding consume
absent-consume id evicted_at now p = ground (arith, lookup-erase id id (evict_expired evicted_at p))

-- The hub once the challenge of an identifier is consumed.
abbrev consumed : String → ℕ → ℕ → Hub → Hub
consumed id evicted_at now hub = record hub {
  challenges = (consume id evicted_at now hub.challenges).0;
}

complete_challenge-answer :
    (lib : Libraries) (body : Body) (evicted_at now r s : ℕ) (hub : Hub) (fields : Fields)
    (id signature : String) (c : PendingChallenge)
    → read_bounded_json body ≡ read fields
    → text_field "challenge_id" fields ≡ some id
    → text_field "signature" fields ≡ some signature
    → (consume id evicted_at now hub.challenges).1 ≡ some c
    → complete_challenge lib body evicted_at now r s hub
      ≡ answer lib signature c r s (consumed id evicted_at now hub)
unfolding complete_challenge
complete_challenge-answer lib body evicted_at now r s hub fields id signature c b i g f =
    ground arith

-- A body that gives the fields of an answer, and the challenge that it answers.
record Answer (body : Body) (evicted_at now : ℕ) (hub : Hub) : Type 0 where
  fields : Fields
  id : String
  signature : String
  is_read : read_bounded_json body ≡ read fields
  has_id : text_field "challenge_id" fields ≡ some id
  has_signature : text_field "signature" fields ≡ some signature
  challenge : PendingChallenge
  found : (consume id evicted_at now hub.challenges).1 ≡ some challenge

refused-registered : (body : Body) → read_bounded_json body ≢ refused registered
unfolding read_bounded_json
refused-registered body h = ground arith

Answer-registered :
    (lib : Libraries) (body : Body) (evicted_at now r s : ℕ) (hub : Hub)
    → (complete_challenge lib body evicted_at now r s hub).1 ≡ registered
    → Answer body evicted_at now hub
unfolding complete_challenge
Answer-registered lib body evicted_at now r s hub h = elim (Read-cases (read_bounded_json body)) [
  | inl (x, bad) ↦ absurd (ground (arith, refused-registered body))
  | inr (fields, b) ↦ elim (Option-cases (text_field "challenge_id" fields)) [
    | inl no_id ↦ absurd (ground arith)
    | inr (id, i) ↦ elim (Option-cases (text_field "signature" fields)) [
      | inl no_signature ↦ absurd (ground arith)
      | inr (signature, g) ↦ elim (Option-cases (consume id evicted_at now hub.challenges).1) [
        | inl gone ↦ absurd (ground arith)
        | inr (c, f) ↦ record {
          fields = fields;
          id = id;
          signature = signature;
          is_read = b;
          has_id = i;
          has_signature = g;
          challenge = c;
          found = f;
        }
      ]
    ]
  ]
]

-- In a hub whose table of challenges is valid, a registration is of a card that was held with the pending challenge that the body names, not past
-- its expiry: the signature in the body is good for the nonce under the key of the challenge. The
-- challenge is then gone, the hub files the card under its DID with its own address, and every other
-- DID is found as before.
pub complete_challenge-registered :
    (lib : Libraries) (body : Body) (evicted_at now r s : ℕ) (hub : Hub)
    → IsValid hub.challenges
    → (complete_challenge lib body evicted_at now r s hub).1 ≡ registered
    → Registered lib body now r s hub (complete_challenge lib body evicted_at now r s hub).0
complete_challenge-registered lib body evicted_at now r s hub v h =
    let a = Answer-registered lib body evicted_at now r s hub h in
    let hub1 = consumed a.id evicted_at now hub in
    let e =
      complete_challenge-answer lib body evicted_at now r s hub a.fields a.id a.signature
        a.challenge a.is_read a.has_id a.has_signature a.found in
    let (good, card, p, same) =
      answer-registered lib a.signature a.challenge r s hub1 (sym (ap (λ q. q.1) e) ∙ h) in
    let after = ap (λ q. q.0) e ∙ same in
    let (there, live) = consume-some a.id evicted_at now hub.challenges a.challenge v a.found in
    record {
      fields = a.fields;
      id = a.id;
      signature = a.signature;
      is_read = a.is_read;
      has_id = a.has_id;
      has_signature = a.has_signature;
      challenge = a.challenge;
      card = card;
      pending = there;
      live = live;
      signed = good;
      parsed = p;
      used = rw after (absent-consume a.id evicted_at now hub.challenges);
      entries = λ did. rw after (find_entry-admit lib card r s hub1 did);
    }

-- The hub that has issued a challenge.
abbrev issuing : String → String → Json → String → String → ℕ → ℕ → Hub → Hub
issuing did key card id nonce evicted_at now hub = record hub {
  challenges = (issue did key card id nonce evicted_at now hub.challenges).0;
}

begin_registration-issued :
    (body : Body) (fields : Fields) (did key id nonce : String) (evicted_at now : ℕ) (hub : Hub)
    (c : PendingChallenge)
    → read_bounded_json body ≡ read fields
    → text_field "did" fields ≡ some did
    → text_field "public_key" fields ≡ some key
    → (begin_registration body id nonce evicted_at now hub).1 ≡ challenge_issued c
    → let card = get_or "card" (obj end) fields in
      ((begin_registration body id nonce evicted_at now hub).0
        ≡ issuing did key card id nonce evicted_at now hub)
      × ((issue did key card id nonce evicted_at now hub.challenges).1 ≢ none)
unfolding begin_registration
begin_registration-issued body fields did key id nonce evicted_at now hub c b d k h =
    let card = get_or "card" (obj end) fields in
    elim (Option-cases (issue did key card id nonce evicted_at now hub.challenges).1) [
      | inl bad ↦ absurd (ground arith)
      | inr (c', f) ↦ (ground arith, λ none'. ground arith)
    ]

answer-good :
    (lib : Libraries) (signature : String) (c : PendingChallenge) (r s : ℕ) (hub : Hub)
    (card : AgentCard)
    → verify_ed25519 lib c.public_key signature c.nonce ≡ some true
    → lib.parse_card c.card ≡ some card
    → answer lib signature c r s hub ≡ (admit lib card r s hub, registered)
unfolding answer
answer-good lib signature c r s hub card good p = ground arith

-- A registration that is begun and answered within the lifetime of its challenge goes through: the
-- answer signs the nonce under the key that was given, and the card parses. The hub then files the
-- card under the DID in it, whatever DID the registration was begun for.
pub complete_challenge-begin_registration :
    (lib : Libraries) (first second : Body) (fields answers : Fields)
    (did key id nonce signature : String) (card : AgentCard)
    (evicted_at now evicted_at' now' r s : ℕ) (hub : Hub) (c : PendingChallenge)
    → IsValid hub.challenges
    → read_bounded_json first ≡ read fields
    → text_field "did" fields ≡ some did
    → text_field "public_key" fields ≡ some key
    → (begin_registration first id nonce evicted_at now hub).1 ≡ challenge_issued c
    → read_bounded_json second ≡ read answers
    → text_field "challenge_id" answers ≡ some id
    → text_field "signature" answers ≡ some signature
    → evicted_at' ≤ now'
    → now' ≤ now + nonce_ttl
    → verify_ed25519 lib key signature nonce ≡ some true
    → lib.parse_card (get_or "card" (obj end) fields) ≡ some card
    → let begun = (begin_registration first id nonce evicted_at now hub).0 in
      let (hub', reply) = complete_challenge lib second evicted_at' now' r s begun in
      (reply ≡ registered)
      × (find_entry card.identity.did hub'.directory ≡ some (local_entry card r s hub))
complete_challenge-begin_registration lib first second fields answers did key id nonce signature
      card evicted_at now evicted_at' now' r s hub c v b d k h b' i g order live good p =
    let raw = get_or "card" (obj end) fields in
    let (same, issued) =
      begin_registration-issued first fields did key id nonce evicted_at now hub c b d k h in
    let hub1 = issuing did key raw id nonce evicted_at now hub in
    let hub2 = consumed id evicted_at' now' hub1 in
    let found =
      consume-issue did key id nonce raw evicted_at now evicted_at' now' hub.challenges v issued
        order live in
    let c' = new_challenge did key raw id nonce now in
    let done =
      complete_challenge-answer lib second evicted_at' now' r s hub1 answers id signature c' b' i g
        found
      ∙ answer-good lib signature c' r s hub2 card good p in
    rw (same, done) (refl, ground (arith, find_entry-admit lib card r s hub2 card.identity.did))
