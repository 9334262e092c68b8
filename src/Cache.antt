-- ===== src/Cache.antt =====
-- The discovery cache, `DiscoveryCache` of python/src/roar_sdk/discovery_cache.py: an ordered dict
-- from DIDs to entries with a lifetime, oldest use first. Times are whole seconds. A pass over all
-- entries reads the clock once.
pub mod Bounds
pub mod Fresh
mod Tests
use roar_protocol.Base.{
  ℕ, ◌+◌, String, Bool, true, false, ◌||◌, not, Option, none, some, List, [], ◌∷◌, ltb, elem,
  if◌then◌else◌, length, is_some,
}
use roar_protocol.Base.Dict.{
  Dict, lookup, insert, erase, erase_all, keys_where, values, contains, drop_oldest,
}
use roar_protocol.Base.Recency.{move_to_end}
use roar_protocol.Types.{DiscoveryEntry}

pub record CacheEntry : Type 0 where
  pub entry : DiscoveryEntry
  pub cached_at : ℕ
  pub ttl : ℕ

-- `now - cached_at > ttl`
abbrev pub expired : ℕ → CacheEntry → Bool
expired now ce = ltb (ce.cached_at + ce.ttl) now

pub record Cache : Type 0 where
  pub max_entries : ℕ
  pub default_ttl : ℕ
  pub items : Dict CacheEntry
  pub hits : ℕ
  pub misses : ℕ

unfoldable pub init : ℕ → ℕ → Cache
init max_entries default_ttl = record {
  max_entries = max_entries;
  default_ttl = default_ttl;
  items = [];
  hits = 0;
  misses = 0;
}

unfoldable pub get : ℕ → String → Cache → Cache × Option DiscoveryEntry
get now did c = elim (lookup did c.items) [
  | none ↦ (record c { misses = c.misses + 1 }, none)
  | some ce ↦
      if expired now ce
      then (record c { items = erase did c.items; misses = c.misses + 1 }, none)
      else (record c { items = move_to_end did c.items; hits = c.hits + 1 }, some ce.entry)
]

abbrev pub entry_did : DiscoveryEntry → String
entry_did e = e.agent_card.identity.did

-- the entry that `put` stores; without a `ttl` of its own it takes the default
abbrev pub cached : ℕ → DiscoveryEntry → Option ℕ → Cache → CacheEntry
cached now entry ttl c = record {
  entry = entry;
  cached_at = now;
  ttl = elim ttl [ none ↦ c.default_ttl | some t ↦ t ];
}

unfoldable pub put : ℕ → DiscoveryEntry → Option ℕ → Cache → Cache
put now entry ttl c =
    let did = entry_did entry in
    record c {
      items =
          drop_oldest c.max_entries (move_to_end did (insert did (cached now entry ttl c) c.items));
    }

unfoldable pub invalidate : String → Cache → Cache × Bool
invalidate did c =
    if contains did c.items then (record c { items = erase did c.items }, true) else (c, false)

unfoldable pub clear : Cache → Cache
clear c = record c { items = [] }

unfoldable pub evict_expired : ℕ → Cache → Cache
evict_expired now c = record c { items = erase_all (keys_where (expired now) c.items) c.items }

-- whether a cached entry offers the capability
abbrev pub offers : String → CacheEntry → Bool
offers capability ce =
    elem capability ce.entry.agent_card.identity.capabilities
    || elem capability ce.entry.agent_card.skills

pub matching : String → Dict CacheEntry → List DiscoveryEntry
matching capability [] = []
matching capability ((k, ce) ∷ d) =
    if offers capability ce then ce.entry ∷ matching capability d else matching capability d

unfoldable pub search : ℕ → String → Cache → Cache × List DiscoveryEntry
unfolding evict_expired matching
search now capability c = let c' = evict_expired now c in (c', matching capability c'.items)

unfoldable pub size : Cache → ℕ
size c = length c.items
