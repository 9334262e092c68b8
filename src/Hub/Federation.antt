-- ===== src/Hub/Federation.antt =====
-- The exchange of entries between hubs.
use roar_protocol.Base.{
  nonempty, Bool-cases, ℕ, ◌+◌, ◌≤◌, String, ◌≡◌, some, List, [], ◌∷◌, arith, if◌then◌else◌, length,
  Option-cases, inl, inr, ◌⊎◌,
}
use roar_protocol.Base.Dict.{lookup-insert, length-insert}
use roar_protocol.Json.{Json}
use roar_protocol.Types.{DiscoveryEntry}
use roar_protocol.Types.Directory.{Directory, register, new_entry, find_entry}
use roar_protocol.Hub.{Libraries, Hub, Body, not_configured, invalid_secret}
use roar_protocol.Hub.Sync.{
  sync_entry, sync_entries, check_secret, receive_sync, export_for_peers, push_request,
}

-- What a batch does to a directory of which it took `n` of `total` entries: every agent that was
-- known is found as before, and there are `n` more.
pub record Grown (d d' : Directory) (n total : ℕ) : Type 0 where
  pub kept :
      (did : String) (e : DiscoveryEntry) → find_entry did d ≡ some e → find_entry did d' ≡ some e
  pub grown : length d' ≡ length d + n
  pub bounded : n ≤ total

sync_entry-kept :
    (lib : Libraries) (raw : Json) (r s : ℕ) (d : Directory) (did : String) (e : DiscoveryEntry)
    → find_entry did d ≡ some e
    → find_entry did (sync_entry lib raw r s d).0 ≡ some e
unfolding sync_entry find_entry register
sync_entry-kept lib raw r s d did e h = elim (Option-cases (lib.parse_entry raw)) [
  | inl bad ↦ ground arith
  | inr (entry, p) ↦
      let card = entry.agent_card in
      ground (arith, lookup-insert did card.identity.did (new_entry card r s) d)
]

sync_entry-grown :
    (lib : Libraries) (raw : Json) (r s : ℕ) (d : Directory)
    → let (d', added) = sync_entry lib raw r s d in length d' ≡ length d + (if added then 1 else 0)
unfolding sync_entry find_entry register
sync_entry-grown lib raw r s d = elim (Option-cases (lib.parse_entry raw)) [
  | inl bad ↦ ground arith
  | inr (entry, p) ↦
      let card = entry.agent_card in
      ground (arith, length-insert card.identity.did (new_entry card r s) d)
]

-- A hub that receives a batch keeps every agent that it knows as it is, and its directory grows by
-- the number of entries that it imports, at most as many as the batch has.
pub sync_entries-Grown :
    (lib : Libraries) (raws : List Json) (now : ℕ) (d : Directory)
    → let (d', n) = sync_entries lib raws now d in Grown d d' n (length raws)
unfolding sync_entries
sync_entries-Grown lib [] now d = record {
  kept = λ did e h. h;
  grown = omega arith;
  bounded = omega arith;
}
sync_entries-Grown lib (raw ∷ raws) now d =
    let d1 = (sync_entry lib raw now now d).0 in
    let rest = sync_entries-Grown lib raws now d1 in
    let one = sync_entry-grown lib raw now now d in
    record {
      kept = λ did e h. rest.kept did e (sync_entry-kept lib raw now now d did e h);
      grown = ground (arith, rest.grown, one);
      bounded = ground (arith, rest.bounded);
    }

-- A push does not reach a peer: its request has no `Authorization` header, and a hub refuses it and
-- stays as it was, whatever its secret is. A pull has none either, and the export is refused.
pub receive_sync-push_request :
    (lib : Libraries) (secret : String) (body : Body) (now sent : ℕ) (hub peer : Hub)
    → let header = (push_request lib sent hub).authorization in
      let (peer', reply) = receive_sync lib secret header body now peer in
      (peer' ≡ peer)
      × ((reply ≡ not_configured) ⊎ (reply ≡ invalid_secret))
      × (export_for_peers lib secret header peer ≡ reply)
unfolding receive_sync export_for_peers push_request check_secret
receive_sync-push_request lib secret body now sent hub peer = elim (Bool-cases (nonempty secret)) [
  | inl set ↦ (ground arith, inr (ground arith), ground arith)
  | inr unset ↦ (ground arith, inl (ground arith), ground arith)
]
