-- ===== src/Hub/Sync.antt =====
-- Federation between hubs: `receive_sync`, `export_for_peers`, `push_to_peers` and `pull_from_peers`
-- of python/src/roar_sdk/hub.py.
use roar_protocol.Base.{
  ℕ, ◌+◌, String, Bool, true, false, Option, none, some, List, [], ◌∷◌, if◌then◌else◌, length,
  nonempty, strip_prefix, compare_digest, is_some,
}
use roar_protocol.Base.Dict.{insert}
use roar_protocol.Json.{Json, Items, Fields, nil, cons, end, field, num, str, arr, obj}
use roar_protocol.Types.{DiscoveryEntry}
use roar_protocol.Types.Directory.{Directory, register, find_entry, list_all}
use roar_protocol.Hub.{
  Libraries, Hub, Reply, Body, failed, not_configured, invalid_secret, synced, exported, refused,
  read, read_bounded_json, get_or,
}

-- The elements that a `for` loop over a value takes; none where it raises. A dict gives its keys, and a
-- text its characters.
abbrev pub items_of : Items → List Json
items_of nil = []
items_of (cons x xs) = x ∷ items_of xs

abbrev pub keys_of : Fields → List Json
keys_of end = []
keys_of (field k v fs) = str k ∷ keys_of fs

abbrev pub chars_of : String → List Json
chars_of String.[] = []
chars_of (String.◌∷◌ c s) = str (String.◌∷◌ c "") ∷ chars_of s

abbrev pub elements : Json → Option (List Json)
elements (arr xs) = some (items_of xs)
elements (obj fs) = some (keys_of fs)
elements (str s) = some (chars_of s)
elements _ = none

-- The test of the `Authorization` header; `header` is empty where there is none.
unfoldable pub check_secret : String → String → Option Reply
check_secret secret header =
    if nonempty secret
    then elim (strip_prefix "Bearer " header) [
      | none ↦ some invalid_secret
      | some given ↦ elim (compare_digest given secret) [
        | none ↦ some failed
        | some false ↦ some invalid_secret
        | some true ↦ none
      ]
    ]
    else some not_configured

-- The result of a pull, and of a push, for a peer.
pub data Pulled : Type 0 where
  imported : ℕ → Pulled
  pull_failed : Pulled

pub data Pushed : Type 0 where
  pushed : ℕ → Json → Pushed
  push_failed : Pushed

-- A request to a peer: its `Authorization` header, empty where there is none, and its body.
pub record Request : Type 0 where
  pub authorization : String
  pub json : Json

module _ (lib : Libraries) where
  -- One entry of a batch is imported unless its DID is known.
  unfoldable pub sync_entry : Json → ℕ → ℕ → Directory → Directory × Bool
  sync_entry raw registered_at last_seen d = elim (lib.parse_entry raw) [
    | none ↦ (d, false)
    | some entry ↦
        if is_some (find_entry entry.agent_card.identity.did d)
        then (d, false)
        else ((register entry.agent_card registered_at last_seen d).0, true)
  ]

  unfoldable pub sync_entries : List Json → ℕ → Directory → Directory × ℕ
  sync_entries [] now d = (d, 0)
  sync_entries (raw ∷ raws) now d =
      let (d', added) = sync_entry raw now now d in
      let (d'', n) = sync_entries raws now d' in (d'', if added then n + 1 else n)

  unfoldable pub receive_sync : String → String → Body → ℕ → Hub → Hub × Reply
  receive_sync secret header body now hub = elim (check_secret secret header) [
    | some r ↦ (hub, r)
    | none ↦ elim (read_bounded_json body) [
      | refused r ↦ (hub, r)
      | read fields ↦ elim (elements (get_or "entries" (arr nil) fields)) [
        | none ↦ (hub, failed)
        | some raws ↦
            let (d, n) = sync_entries raws now hub.directory in
            (record hub { directory = d }, synced n (length raws))
      ]
    ]
  ]

  unfoldable pub export_for_peers : String → String → Hub → Reply
  export_for_peers secret header hub = elim (check_secret secret header) [
    | some r ↦ r
    | none ↦ exported hub.hub_url (list_all hub.directory)
  ]

  -- An entry of a peer is filed as it comes.
  unfoldable pub pull_entry : Json → Directory → Directory × Bool
  pull_entry raw d = elim (lib.parse_entry raw) [
    | none ↦ (d, false)
    | some entry ↦
        let did = entry.agent_card.identity.did in
        if is_some (find_entry did d) then (d, false) else (insert did entry d, true)
  ]

  unfoldable pub pull_entries : List Json → Directory → Directory × ℕ
  pull_entries [] d = (d, 0)
  pull_entries (raw ∷ raws) d =
      let (d', added) = pull_entry raw d in
      let (d'', n) = pull_entries raws d' in (d'', if added then n + 1 else n)

  -- `fetch` is the JSON of the reply of a peer, none where the request fails.
  unfoldable pub pull_peer : Option Json → Directory → Directory × Pulled
  pull_peer none d = (d, pull_failed)
  pull_peer (some (obj fields)) d = elim (elements (get_or "entries" (arr nil) fields)) [
    | none ↦ (d, pull_failed)
    | some raws ↦ let (d', n) = pull_entries raws d in (d', imported n)
  ]
  pull_peer (some _) d = (d, pull_failed)

  unfoldable pub pull_from_peers :
      (String → Option Json) → List String → Directory → Directory × List (String × Pulled)
  pull_from_peers fetch [] d = (d, [])
  pull_from_peers fetch (peer ∷ peers) d =
      let (d', outcome) = pull_peer (fetch peer) d in
      let (d'', results) = pull_from_peers fetch peers d' in (d'', (peer, outcome) ∷ results)

  abbrev pub dump_entries : List DiscoveryEntry → Items
  dump_entries [] = nil
  dump_entries (e ∷ es) = cons (lib.dump_entry e) (dump_entries es)

  -- the request that `push_to_peers` sends to every peer
  unfoldable pub push_request : ℕ → Hub → Request
  push_request now hub = record {
    authorization = "";
    json = obj (
        field "hub_url" (str hub.hub_url) (
          field "exported_at" (num now)
            (field "entries" (arr (dump_entries (list_all hub.directory))) end)));
  }

  -- The reply of a peer: its status and JSON, none where the request fails.
  abbrev pub push_result : Option (ℕ × Json) → Pushed
  push_result none = push_failed
  push_result (some (code, obj fields)) = pushed code (get_or "imported" (num 0) fields)
  push_result (some _) = push_failed

  unfoldable pub push_to_peers :
      (String → Request → Option (ℕ × Json)) → ℕ → List String → Hub → List (String × Pushed)
  push_to_peers post now [] hub = []
  push_to_peers post now (peer ∷ peers) hub =
      (peer, push_result (post peer (push_request now hub))) ∷ push_to_peers post now peers hub
