-- ===== src/Registry.antt =====
-- The public registry, `PublicRegistry` of python/src/roar_sdk/registry.py: its hubs, and the agents
-- that it pulls from them. `parse_entry` is `DiscoveryEntry(**raw)`, none where it raises. Limits and
-- offsets are natural numbers.
pub mod Newest
mod Tests
use roar_protocol.Base.{
  ◌==◌, ℕ, zero, suc, ◌+◌, String, Bool, true, false, ◌&&◌, not, Option, none, some, List, [], ◌∷◌,
  ◌++◌, leb, if◌then◌else◌, nonempty, elem, nat_eq, drop,
}
use roar_protocol.Base.Dict.{Dict, lookup, insert, contains, values}
use roar_protocol.Json.{Json, Number, finite, not_a_number, obj, arr, nil}
use roar_protocol.Types.{AgentCard, DiscoveryEntry}
use roar_protocol.Types.Directory.{Directory}
use roar_protocol.Hub.{get_or}
use roar_protocol.Hub.Sync.{elements}
use roar_protocol.Hub.Listing.{take}

pub record RegistryEntry : Type 0 where
  pub agent_card : AgentCard
  pub hub_url : String
  pub registered_at : Number
  pub last_seen : Number
  pub protocols_supported : List String

-- the channels that are not listed yet, each once
unfoldable pub add_protocols : List String → List String → List String
add_protocols [] protocols = protocols
add_protocols (c ∷ channels) protocols =
    add_protocols channels (if elem c protocols then protocols else protocols ++ c ∷ [])

-- `a or b` of texts, and the time that stands for none given
abbrev pub or_else : String → String → String
or_else a b = if nonempty a then a else b

abbrev pub time_or : ℕ → Number → Number
time_or now not_a_number = not_a_number
time_or now (finite t) = finite (if nat_eq t 0 then now else t)

-- A time of 0 is replaced by the clock's: `registered` and `seen` are its readings.
unfoldable pub from_discovery_entry : DiscoveryEntry → String → ℕ → ℕ → RegistryEntry
from_discovery_entry e hub_url registered seen = record {
  agent_card = e.agent_card;
  hub_url = or_else hub_url e.hub_url;
  registered_at = time_or registered e.registered_at;
  last_seen = time_or seen e.last_seen;
  protocols_supported = add_protocols e.agent_card.channels ("roar/1.0" ∷ []);
}

pub record Registry : Type 0 where
  pub hubs : Dict ℕ
  pub agents : Dict RegistryEntry
  pub directory : Directory

-- `url.rstrip("/")`
unfoldable pub strip_slashes : String → String
strip_slashes String.[] = String.[]
strip_slashes (String.◌∷◌ c s) =
    let rest = strip_slashes s in if String.◌∷◌ c rest == "/" then String.[] else String.◌∷◌ c rest

unfoldable pub register_hub : String → Registry → Registry
register_hub hub_url r =
    let url = strip_slashes hub_url in
    if contains url r.hubs then r else record r { hubs = insert url 0 r.hubs }

-- `a >= b`, which is False where one is NaN
abbrev pub not_older : Number → Number → Bool
not_older (finite a) (finite b) = leb b a
not_older _ _ = false

-- the agent that is held is replaced by one that is not older
abbrev pub is_newer : RegistryEntry → Option RegistryEntry → Bool
is_newer e none = true
is_newer e (some old) = not_older e.registered_at old.registered_at

unfoldable pub ingest_entry : DiscoveryEntry → String → ℕ → ℕ → Registry → Registry
ingest_entry e hub_url registered seen r =
    let did = e.agent_card.identity.did in
    let new = from_discovery_entry e hub_url registered seen in
    if is_newer new (lookup did r.agents)
    then record r { agents = insert did new r.agents; directory = insert did e r.directory }
    else r

module _ (parse_entry : Json → Option DiscoveryEntry) where
  unfoldable pub ingest_raws : String → ℕ → List Json → Registry → Registry × ℕ
  ingest_raws hub_url now [] r = (r, 0)
  ingest_raws hub_url now (raw ∷ raws) r = elim (parse_entry raw) [
    | none ↦ ingest_raws hub_url now raws r
    | some e ↦
        let (r', n) = ingest_raws hub_url now raws (ingest_entry e hub_url now now r) in (r', n + 1)
  ]

  -- One hub: `reply` is its JSON, none where the request fails. The number of entries, or none for
  -- an error.
  unfoldable pub pull_hub : String → Option Json → ℕ → Registry → Registry × Option ℕ
  pull_hub hub_url none now r = (r, none)
  pull_hub hub_url (some (obj fields)) now r = elim (elements (get_or "entries" (arr nil) fields)) [
    | none ↦ (r, none)
    | some raws ↦
        let (r', n) = ingest_raws hub_url now raws r in
        (record r' { hubs = insert hub_url now r'.hubs }, some n)
  ]
  pull_hub hub_url (some _) now r = (r, none)

  unfoldable pub pull_from : (String → Option Json) → ℕ → List (String × ℕ) → Registry → Registry
  pull_from fetch now [] r = r
  pull_from fetch now ((url, synced) ∷ hubs) r =
      pull_from fetch now hubs (pull_hub url (fetch url) now r).0

  unfoldable pub pull_from_hubs : (String → Option Json) → ℕ → Registry → Registry
  pull_from_hubs fetch now r = pull_from fetch now r.hubs r

-- a filter that is given and not empty
abbrev pub wants : Option String → List String → Bool
wants none xs = true
wants (some s) xs = if nonempty s then elem s xs else true

unfoldable pub found : Option String → Option String → List RegistryEntry → List RegistryEntry
found capability protocol [] = []
found capability protocol (e ∷ es) =
    let rest = found capability protocol es in
    if wants capability e.agent_card.identity.capabilities && wants protocol e.protocols_supported
    then e ∷ rest
    else rest

unfoldable pub search : Option String → Option String → ℕ → ℕ → Registry → List RegistryEntry
search capability protocol limit offset r =
    take limit (drop offset (found capability protocol (values r.agents)))
