-- ===== src/Router/Replay.antt =====
-- The router's table of message ids: what it remembers, and that nothing bounds it.
use roar_protocol.Base.{
  ◌∙◌, ℕ, ◌+◌, ◌≤◌, String, ◌≡◌, ◌≢◌, true, false, none, some, List, [], ◌∷◌, arith, length, All,
  inl, inr, Option-cases,
}
use roar_protocol.Base.Dict.{
  Dict, lookup, keys_where, Distinct, Distinct-insert, Distinct-erase_all, lookup-insert,
  lookup-insert_self, lookup-erase_all, elem-keys_where, length-insert,
}
use roar_protocol.Types.{RoarMessage}
use roar_protocol.Signing.{Ed25519}
use roar_protocol.Router.Dispatch.{receive_signed-dispatched}
use roar_protocol.Router.{
  State, Request, Reply, dispatched, check_rate, check_replay, purged, stale, seen_ttl,
  receive_signed, receive, handle_message, handle_frame,
}

Distinct-purged : (now : ℕ) (seen : Dict ℕ) → Distinct seen → Distinct (purged now seen)
Distinct-purged now seen d = ground (arith, Distinct-erase_all (keys_where (stale now) seen) seen d)

lookup-purged_recent :
    (now t : ℕ) (id : String) (seen : Dict ℕ)
    → Distinct seen
    → now ≤ t + seen_ttl
    → lookup id seen ≡ some t
    → lookup id (purged now seen) ≡ some t
lookup-purged_recent now t id seen d l h = ground (
  arith,
  lookup-erase_all id (keys_where (stale now) seen) seen,
  elem-keys_where id (stale now) seen d,
)

-- The table knows the id since the time `t`.
record Knows (id : String) (t : ℕ) (seen : Dict ℕ) : Type 0 where
  distinct : Distinct seen
  known : lookup id seen ≡ some t

Knows-check_replay :
    (now t : ℕ) (id j : String) (seen : Dict ℕ)
    → now ≤ t + seen_ttl
    → Knows id t seen
    → Knows id t (check_replay now j seen).0
unfolding check_replay
Knows-check_replay now t id j seen l k =
    let kept = purged now seen in
    let d = Distinct-purged now seen k.distinct in
    let f = lookup-purged_recent now t id seen k.distinct l k.known in
    ground (arith, d, f, Distinct-insert j now kept d, lookup-insert id j now kept)

check_replay-fresh :
    (now : ℕ) (id : String) (seen : Dict ℕ)
    → Distinct seen
    → (check_replay now id seen).1 ≡ false
    → Knows id now (check_replay now id seen).0
unfolding check_replay
check_replay-fresh now id seen d h =
    let kept = purged now seen in
    let d' = Distinct-purged now seen d in
    ground (arith, h, Distinct-insert id now kept d', lookup-insert_self id now kept)

check_replay-known :
    (now t : ℕ) (id : String) (seen : Dict ℕ)
    → now ≤ t + seen_ttl
    → Knows id t seen
    → (check_replay now id seen).1 ≡ true
unfolding check_replay
check_replay-known now t id seen l k =
    ground (arith, lookup-purged_recent now t id seen k.distinct l k.known)

-- The table is purged of old ids only, and only when it is over its size: as long as no id in it is
-- older than the TTL, every new id makes it one longer, however long it is already.
pub check_replay-grows :
    (now : ℕ) (id : String) (seen : Dict ℕ)
    → keys_where (stale now) seen ≡ []
    → lookup id seen ≡ none
    → length (check_replay now id seen).0 ≡ length seen + 1
unfolding check_replay
check_replay-grows now id seen young new = ground (arith, young, length-insert id now seen)

-- A request comes by HTTP or as a frame of the WebSocket.
pub data Entry : Type 0 where
  http websocket : Entry

module _ (e : Ed25519) (hexdigest : String → String → String) where
  unfoldable pub serve : Entry → Request → State → State × Reply
  serve http q s = handle_message e hexdigest q s
  serve websocket q s = handle_frame e hexdigest q s

  unfoldable pub serve_all : List (Entry × Request) → State → State
  serve_all [] s = s
  serve_all ((w, q) ∷ qs) s = serve_all qs (serve w q s).0

  -- There is no strict verifier, and the table knows the id since the time `t`.
  record Remembers (id : String) (t : ℕ) (s : State) : Type 0 where
    off : s.strict ≡ none
    table : Knows id t s.seen

  check_rate-keeps :
      (now : ℕ) (s : State)
      → ((check_rate now s).0.strict ≡ s.strict) × ((check_rate now s).0.seen ≡ s.seen)
  unfolding check_rate
  check_rate-keeps now s = ground arith

  receive_signed-Remembers :
      (id : String) (t : ℕ) (q : Request) (m : RoarMessage) (s : State)
      → q.replay_at ≤ t + seen_ttl
      → Remembers id t s
      → Remembers id t (receive_signed e hexdigest q m s).0
  unfolding receive_signed
  receive_signed-Remembers id t q m s l r =
      let k = Knows-check_replay q.replay_at t id m.id s.seen l r.table in ground (arith, r, k)

  receive-off :
      (q : Request) (m : RoarMessage) (s : State)
      → s.strict ≡ none
      → receive e hexdigest q m s ≡ receive_signed e hexdigest q m s
  unfolding receive
  receive-off q m s off = ground arith

  limited-Remembers :
      (id : String) (t now : ℕ) (s : State) → Remembers id t s → Remembers id t (check_rate now s).0
  limited-Remembers id t now s r = let keeps = check_rate-keeps now s in ground (arith, keeps, r)

  serve-Remembers :
      (id : String) (t : ℕ) (w : Entry) (q : Request) (s : State)
      → q.replay_at ≤ t + seen_ttl
      → Remembers id t s
      → Remembers id t (serve w q s).0
  unfolding serve handle_message handle_frame
  serve-Remembers id t http q s l r =
      let s' = (check_rate q.bucket_at s).0 in
      let r' = limited-Remembers id t q.bucket_at s r in
      elim (Option-cases q.parsed) [
        | inl bad ↦ ground (arith, r')
        | inr (m, ok) ↦
            ground (arith, r', receive-off q m s' r'.off, receive_signed-Remembers id t q m s' l r')
      ]
  serve-Remembers id t websocket q s l r =
      let s' = (check_rate q.bucket_at s).0 in
      let r' = limited-Remembers id t q.bucket_at s r in
      elim (Option-cases q.parsed) [
        | inl bad ↦ ground (arith, r')
        | inr (m, ok) ↦ ground (arith, r', receive_signed-Remembers id t q m s' l r')
      ]

  -- A request that dispatches is a run of the signed tests on the state that the limiter left.
  serve-dispatched :
      (w : Entry) (q : Request) (m : RoarMessage) (s : State)
      → s.strict ≡ none
      → (serve w q s).1 ≡ dispatched m
      → serve w q s ≡ receive_signed e hexdigest q m (check_rate q.bucket_at s).0
  unfolding serve handle_message handle_frame
  serve-dispatched http q m s off h =
      let s' = (check_rate q.bucket_at s).0 in
      let keeps = check_rate-keeps q.bucket_at s in
      elim (Option-cases q.parsed) [
        | inl bad ↦ absurd (ground arith)
        | inr (m₀, ok) ↦
            let off' = receive-off q m₀ s' (ground (arith, keeps, off)) in
            let same = receive_signed-dispatched e hexdigest q m₀ m s' in ground (arith, off', same)
      ]
  serve-dispatched websocket q m s off h =
      let s' = (check_rate q.bucket_at s).0 in
      elim (Option-cases q.parsed) [
        | inl bad ↦ absurd (ground arith)
        | inr (m₀, ok) ↦ ground (arith, receive_signed-dispatched e hexdigest q m₀ m s')
      ]

  serve_all-Remembers :
      (id : String) (t : ℕ) (later : List (Entry × Request)) (s : State)
      → All (λ x. x.1.replay_at ≤ t + seen_ttl) later
      → Remembers id t s
      → Remembers id t (serve_all later s)
  unfolding serve_all
  serve_all-Remembers id t [] s l r = r
  serve_all-Remembers id t ((w, q) ∷ later) s l r =
      serve_all-Remembers id t later (serve w q s).0 l.1 (serve-Remembers id t w q s l.0 r)

  dispatched-Remembers :
      (q : Request) (m : RoarMessage) (s : State)
      → s.strict ≡ none
      → Distinct s.seen
      → (receive_signed e hexdigest q m s).1 ≡ dispatched m
      → Remembers m.id q.replay_at (receive_signed e hexdigest q m s).0
  unfolding receive_signed
  dispatched-Remembers q m s off d h =
      let (_, _, _, fresh) = receive_signed-dispatched e hexdigest q m m s (ground arith) in
      let k = check_replay-fresh q.replay_at m.id s.seen d fresh in ground (arith, k, off)

  -- Without a strict verifier, a message that was handed to the server is not handed to it again, nor
  -- is any message with its id, over HTTP or the WebSocket, whatever requests come in between, as
  -- long as no replay test is made more than 600 seconds after the first.
  pub serve-once :
      (w w' : Entry) (q q' : Request) (m m' : RoarMessage) (s : State)
      (later : List (Entry × Request))
      → s.strict ≡ none
      → Distinct s.seen
      → (serve w q s).1 ≡ dispatched m
      → All (λ x. x.1.replay_at ≤ q.replay_at + seen_ttl) later
      → q'.replay_at ≤ q.replay_at + seen_ttl
      → m'.id ≡ m.id
      → (serve w' q' (serve_all later (serve w q s).0)).1 ≢ dispatched m'
  serve-once w w' q q' m m' s later off d first l l' same again =
      let s₁ = (check_rate q.bucket_at s).0 in
      let keeps = check_rate-keeps q.bucket_at s in
      let run₁ = serve-dispatched w q m s off first in
      let r₁ : Remembers m.id q.replay_at (serve w q s).0 =
        rw run₁ (dispatched-Remembers q m s₁ (keeps.0 ∙ off) (rw keeps.1 d) (rw run₁ at first)) in
      let s₂ = serve_all later (serve w q s).0 in
      let r₂ = serve_all-Remembers m.id q.replay_at later (serve w q s).0 l r₁ in
      let run₂ = serve-dispatched w' q' m' s₂ r₂.off again in
      let s₃ = (check_rate q'.bucket_at s₂).0 in
      let r₃ = limited-Remembers m.id q.replay_at q'.bucket_at s₂ r₂ in
      let (_, _, _, fresh) = receive_signed-dispatched e hexdigest q' m' m' s₃ (rw run₂ at again) in
      let known = check_replay-known q'.replay_at q.replay_at m.id s₃.seen l' r₃.table in
      ground (arith, fresh, known, same)
