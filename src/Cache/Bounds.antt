-- ===== src/Cache/Bounds.antt =====
-- The capacity bound of the discovery cache, and which entry gives way.
use roar_protocol.Base.{
  ◌∙◌, List, ap, ℕ, ◌-◌, ◌≤◌, String, ◌≡◌, Option, [], ◌∷◌, ◌++◌, arith, length, drop, Option-cases,
  inl, inr,
}
use roar_protocol.Base.Dict.{
  lookup, erase, drop_oldest, Distinct, Distinct-erase, Distinct-erase_all, Distinct-drop_oldest,
  length-drop_oldest-le, length-erase-le, length-erase_all-le, keys_where, drop_oldest-eq-drop,
}
use roar_protocol.Base.Recency.{move_to_end-insert, Distinct-refresh, length-refresh-le}
use roar_protocol.Types.{DiscoveryEntry}
use roar_protocol.Cache.{Cache, expired, get, put, invalidate, clear, search, entry_did, cached}

-- Each DID once, and never more entries than the capacity.
pub record IsValid (c : Cache) : Type 0 where
  pub distinct : Distinct c.items
  pub bounded : length c.items ≤ c.max_entries

-- A lookup keeps the cache valid, on a hit, a miss and an expired entry.
pub get-IsValid : (now : ℕ) (did : String) (c : Cache) → IsValid c → IsValid (get now did c).0
unfolding get
get-IsValid now did c v = elim (Option-cases (lookup did c.items)) [
  | inl miss ↦ ground (arith, v)
  | inr (ce, hit) ↦ ground (
    arith,
    v,
    Distinct-erase did c.items v.distinct,
    length-erase-le did c.items,
    Distinct-refresh did ce c.items v.distinct,
    length-refresh-le did ce ce c.items hit,
  )
]

-- The items after `put`: the new entry is the last, and what gives way stands at the front.
pub items-put :
    (now : ℕ) (entry : DiscoveryEntry) (ttl : Option ℕ) (c : Cache)
    → (put now entry ttl c).items
      ≡ drop_oldest c.max_entries
          (erase (entry_did entry) c.items ++ (entry_did entry, cached now entry ttl c) ∷ [])
unfolding put
items-put now entry ttl c =
    ap (drop_oldest c.max_entries)
      (move_to_end-insert (entry_did entry) (cached now entry ttl c) c.items)

-- A `put` keeps the cache valid: the DIDs stay distinct, and the capacity is not exceeded.
pub put-IsValid :
    (now : ℕ) (entry : DiscoveryEntry) (ttl : Option ℕ) (c : Cache)
    → IsValid c
    → IsValid (put now entry ttl c)
unfolding put
put-IsValid now entry ttl c v =
    let did = entry_did entry in
    let l = erase did c.items ++ (did, cached now entry ttl c) ∷ [] in
    record {
      distinct = rw (items-put now entry ttl c) (
          Distinct-drop_oldest c.max_entries l
            (Distinct-refresh did (cached now entry ttl c) c.items v.distinct));
      bounded = rw (items-put now entry ttl c) (length-drop_oldest-le c.max_entries l);
    }

-- The calls that a client can make.
pub data Op : Type 0 where
  get_op : ℕ → String → Op
  put_op : ℕ → DiscoveryEntry → Option ℕ → Op
  invalidate_op : String → Op
  clear_op : Op
  search_op : ℕ → String → Op

unfoldable pub apply : Op → Cache → Cache
apply (get_op now did) c = (get now did c).0
apply (put_op now entry ttl) c = put now entry ttl c
apply (invalidate_op did) c = (invalidate did c).0
apply clear_op c = clear c
apply (search_op now capability) c = (search now capability c).0

unfoldable pub run : List Op → Cache → Cache
run [] c = c
run (o ∷ os) c = run os (apply o c)

apply-IsValid : (o : Op) (c : Cache) → IsValid c → IsValid (apply o c)
unfolding apply invalidate clear search
apply-IsValid (get_op now did) c v = get-IsValid now did c v
apply-IsValid (put_op now entry ttl) c v = put-IsValid now entry ttl c v
apply-IsValid (invalidate_op did) c v =
    ground (arith, v, Distinct-erase did c.items v.distinct, length-erase-le did c.items)
apply-IsValid clear_op c v = record { distinct = tt; bounded = omega arith }
apply-IsValid (search_op now capability) c v = record {
  distinct = Distinct-erase_all (keys_where (expired now) c.items) c.items v.distinct;
  bounded =
      omega (arith, length-erase_all-le (keys_where (expired now) c.items) c.items, v.bounded);
}

-- After any sequence of calls a valid cache is valid: every DID is held once, and the entries are
-- never more than the capacity.
pub run-IsValid : (os : List Op) (c : Cache) → IsValid c → IsValid (run os c)
unfolding run
run-IsValid [] c v = v
run-IsValid (o ∷ os) c v = run-IsValid os (apply o c) (apply-IsValid o c v)

-- What `put` keeps: the entry takes the last place, the others keep their order of use, and of all
-- these the cache holds on to the last `max_entries`, so the least recently used give way.
pub put_keeps_newest :
    (now : ℕ) (entry : DiscoveryEntry) (ttl : Option ℕ) (c : Cache)
    → let l = erase (entry_did entry) c.items ++ (entry_did entry, cached now entry ttl c) ∷ [] in
      (put now entry ttl c).items ≡ drop (length l - c.max_entries) l
put_keeps_newest now entry ttl c = items-put now entry ttl c ∙ drop_oldest-eq-drop c.max_entries _
