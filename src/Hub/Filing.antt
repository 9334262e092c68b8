-- ===== src/Hub/Filing.antt =====
-- The DIDs that entries are filed under.
use roar_protocol.Base.{
  Bool-cases, ℕ, String, ◌≡◌, Option, none, some, List, [], ◌∷◌, arith, Option-cases, inl, inr,
  is_some,
}
use roar_protocol.Base.Dict.{insert, erase, lookup-insert, lookup-erase}
use roar_protocol.Json.{Json, Fields, arr, obj, nil}
use roar_protocol.Types.{AgentCard, DiscoveryEntry}
use roar_protocol.Types.Directory.{Directory, register, new_entry, find_entry}
use roar_protocol.Hub.{arr, get_or, obj, Fields, Libraries, Hub, admit}
use roar_protocol.Hub.Sync.{
  elements, sync_entry, sync_entries, pull_entry, pull_entries, pull_peer, pull_from_peers,
}

-- Every entry stands under the DID of its card.
abbrev pub Filed : Directory → Type 0
Filed d =
    (did : String) (e : DiscoveryEntry)
    → find_entry did d ≡ some e
    → e.agent_card.identity.did ≡ did

pub Filed-insert :
    (e : DiscoveryEntry) (d : Directory) → Filed d → Filed (insert e.agent_card.identity.did e d)
unfolding find_entry
Filed-insert e d f did e' h =
    ground (arith, lookup-insert did e.agent_card.identity.did e d, f did e')

pub Filed-erase : (k : String) (d : Directory) → Filed d → Filed (erase k d)
unfolding find_entry
Filed-erase k d f did e h = ground (arith, lookup-erase did k d, f did e)

pub Filed-register :
    (card : AgentCard) (r s : ℕ) (d : Directory) → Filed d → Filed (register card r s d).0
unfolding register new_entry
Filed-register card r s d f = Filed-insert (new_entry card r s) d f

module _ (lib : Libraries) where
  pub Filed-admit :
      (card : AgentCard) (r s : ℕ) (hub : Hub)
      → Filed hub.directory
      → Filed (admit lib card r s hub).directory
  unfolding register new_entry
  Filed-admit card r s hub f =
      Filed-insert (record (new_entry card r s) { hub_url = hub.hub_url })
        (register card r s hub.directory).0 (Filed-register card r s hub.directory f)

  pub Filed-sync_entry :
      (raw : Json) (r s : ℕ) (d : Directory) → Filed d → Filed (sync_entry lib raw r s d).0
  unfolding sync_entry
  Filed-sync_entry raw r s d f = elim (Option-cases (lib.parse_entry raw)) [
    | inl bad ↦ rw (sync_entry, bad) f
    | inr (entry, p) ↦ elim (Bool-cases (is_some (find_entry entry.agent_card.identity.did d))) [
      | inl known ↦ rw (sync_entry, p, known) f
      | inr new ↦ rw (sync_entry, p, new) (Filed-register entry.agent_card r s d f)
    ]
  ]

  pub Filed-sync_entries :
      (raws : List Json) (n : ℕ) (d : Directory) → Filed d → Filed (sync_entries lib raws n d).0
  unfolding sync_entries
  Filed-sync_entries [] n d f = f
  Filed-sync_entries (raw ∷ raws) n d f =
      Filed-sync_entries raws n (sync_entry lib raw n n d).0 (Filed-sync_entry raw n n d f)

  pub Filed-pull_entry : (raw : Json) (d : Directory) → Filed d → Filed (pull_entry lib raw d).0
  unfolding pull_entry
  Filed-pull_entry raw d f = elim (Option-cases (lib.parse_entry raw)) [
    | inl bad ↦ rw (pull_entry, bad) f
    | inr (entry, p) ↦ elim (Bool-cases (is_some (find_entry entry.agent_card.identity.did d))) [
      | inl known ↦ rw (pull_entry, p, known) f
      | inr new ↦ rw (pull_entry, p, new) (Filed-insert entry d f)
    ]
  ]

  pub Filed-pull_entries :
      (raws : List Json) (d : Directory) → Filed d → Filed (pull_entries lib raws d).0
  unfolding pull_entries
  Filed-pull_entries [] d f = f
  Filed-pull_entries (raw ∷ raws) d f =
      Filed-pull_entries raws (pull_entry lib raw d).0 (Filed-pull_entry raw d f)

  pub Filed-pull_object :
      (fields : Fields) (d : Directory) → Filed d → Filed (pull_peer lib (some (obj fields)) d).0
  unfolding pull_peer
  Filed-pull_object fields d f =
      elim (Option-cases (elements (get_or "entries" (arr nil) fields))) [
        | inl bad ↦ rw (pull_peer, bad) f
        | inr (raws, p) ↦ rw (pull_peer, p) (Filed-pull_entries raws d f)
      ]

  pub Filed-pull_peer :
      (reply : Option Json) (d : Directory) → Filed d → Filed (pull_peer lib reply d).0
  unfolding pull_peer
  Filed-pull_peer none d f = f
  Filed-pull_peer (some (obj fields)) d f = Filed-pull_object fields d f
  Filed-pull_peer (some _) d f = f

  pub Filed-pull_from_peers :
      (fetch : String → Option Json) (peers : List String) (d : Directory)
      → Filed d
      → Filed (pull_from_peers lib fetch peers d).0
  unfolding pull_from_peers
  Filed-pull_from_peers fetch [] d f = f
  Filed-pull_from_peers fetch (peer ∷ peers) d f =
      Filed-pull_from_peers fetch peers (pull_peer lib (fetch peer) d).0
        (Filed-pull_peer (fetch peer) d f)
