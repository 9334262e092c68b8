-- ===== src/Cache/Fresh.antt =====
-- What a lookup in the discovery cache can return: entries that were put and have not expired.
use roar_protocol.Base.{
  ◌∙◌, ap, ℕ, ◌+◌, ◌≤◌, ◌<◌, String, ◌≡◌, refl, ◌↔◌, Option, none, some, arith, if◌then◌else◌,
  Option-cases, inl, inr,
}
use roar_protocol.Base.Dict.{
  lookup, erase, keys_where, lookup-erase, lookup-erase_all, elem-keys_where,
}
use roar_protocol.Base.Recency.{lookup-drop_oldest_last}
use roar_protocol.Types.{DiscoveryEntry}
use roar_protocol.Cache.{
  CacheEntry, Cache, expired, get, put, search, evict_expired, entry_did, cached,
}
use roar_protocol.Cache.Bounds.{IsValid, items-put}

-- A lookup answers with an entry exactly when the cache holds it for that DID and its lifetime has
-- not run out.
pub get-some_iff :
    (now : ℕ) (did : String) (c : Cache) (e : DiscoveryEntry)
    → ((get now did c).1 ≡ some e) ↔ (
        (ce : CacheEntry) × (lookup did c.items ≡ some ce)
        × (ce.entry ≡ e)
        × (now ≤ ce.cached_at + ce.ttl))
unfolding get
get-some_iff now did c e = (found, kept)
  where
    found :
        (get now did c).1 ≡ some e
        → (ce : CacheEntry) × (lookup did c.items ≡ some ce)
          × (ce.entry ≡ e)
          × (now ≤ ce.cached_at + ce.ttl)
    found h = elim (Option-cases (lookup did c.items)) [
      | inl miss ↦ absurd (ground arith)
      | inr (ce, hit) ↦ (ce, hit, ground arith, ground arith)
    ]

    kept :
        (ce : CacheEntry) × (lookup did c.items ≡ some ce)
          × (ce.entry ≡ e)
          × (now ≤ ce.cached_at + ce.ttl)
        → (get now did c).1 ≡ some e
    kept (ce, hit, same, live) = ground arith

-- An entry that was just put is found until its lifetime runs out, in a cache with room for one.
pub get-put :
    (now : ℕ) (entry : DiscoveryEntry) (ttl : Option ℕ) (c : Cache) (now' : ℕ)
    → 0 < c.max_entries
    → now' ≤ now + (cached now entry ttl c).ttl
    → (get now' (entry_did entry) (put now entry ttl c)).1 ≡ some entry
get-put now entry ttl c now' room live =
    let did = entry_did entry in
    let ce = cached now entry ttl c in
    (get-some_iff now' did (put now entry ttl c) entry).1 (
      ce,
      ap (lookup did) (items-put now entry ttl c)
          ∙ lookup-drop_oldest_last c.max_entries did ce (erase did c.items) room
              (ground (arith, lookup-erase did did c.items)),
      refl,
      live,
    )

-- A search takes the expired entries out of a valid cache, and leaves every other as it was.
pub lookup-search :
    (now : ℕ) (capability j : String) (c : Cache)
    → IsValid c
    → lookup j (search now capability c).0.items
      ≡ elim (lookup j c.items) [ none ↦ none | some ce ↦ if expired now ce then none else some ce ]
unfolding search evict_expired
lookup-search now capability j c v = ground (
  arith,
  lookup-erase_all j (keys_where (expired now) c.items) c.items,
  elem-keys_where j (expired now) c.items v.distinct,
)
