-- ===== src/Dedup/Bounds.antt =====
-- The capacity bound of the replay guard, and which keys it answers to.
use roar_protocol.Base.{
  ℕ, ◌+◌, ◌≤◌, ◌<◌, String, ◌≡◌, ◌↔◌, true, none, some, [], ◌∷◌, arith, length, Option-cases, inl,
  inr,
}
use roar_protocol.Base.Dict.{
  Dict, lookup, insert, erase, Distinct, Distinct-insert, Distinct-erase, Distinct-drop_oldest,
  length-drop_oldest-le,
}
use roar_protocol.Dedup.{Guard, drop_expired, evict_expired, mark_seen, check_key, is_duplicate}

-- No key twice, and never more keys than `max_keys`.
pub record IsValid (g : Guard) : Type 0 where
  pub distinct : Distinct g.seen
  pub bounded : length g.seen ≤ g.max_keys

Distinct-drop_expired : (now ttl : ℕ) (d : Dict ℕ) → Distinct d → Distinct (drop_expired now ttl d)
unfolding drop_expired
Distinct-drop_expired now ttl [] h = tt
Distinct-drop_expired now ttl ((k, ts) ∷ d) h = ground (arith, Distinct-drop_expired now ttl d h.1)

length-drop_expired-le : (now ttl : ℕ) (d : Dict ℕ) → length (drop_expired now ttl d) ≤ length d
unfolding drop_expired
length-drop_expired-le now ttl [] = omega arith
length-drop_expired-le now ttl ((k, ts) ∷ d) = ground (arith, length-drop_expired-le now ttl d)

pub evict_expired-IsValid : (now : ℕ) (g : Guard) → IsValid g → IsValid (evict_expired now g)
unfolding evict_expired
evict_expired-IsValid now g v = record {
  distinct = Distinct-drop_expired now g.ttl g.seen v.distinct;
  bounded = omega (arith, length-drop_expired-le now g.ttl g.seen, v.bounded);
}

mark_seen-IsValid_of_Distinct :
    (now : ℕ) (key : String) (g : Guard) → Distinct g.seen → IsValid (mark_seen now key g)
unfolding mark_seen
mark_seen-IsValid_of_Distinct now key g h = record {
  distinct =
      Distinct-drop_oldest g.max_keys (insert key now g.seen) (Distinct-insert key now g.seen h);
  bounded = length-drop_oldest-le g.max_keys (insert key now g.seen);
}

-- Marking a key keeps the guard valid: the keys stay distinct and within the capacity.
pub mark_seen-IsValid :
    (now : ℕ) (key : String) (g : Guard) → IsValid g → IsValid (mark_seen now key g)
mark_seen-IsValid now key g v = mark_seen-IsValid_of_Distinct now key g v.distinct

check_key-IsValid :
    (now : ℕ) (key : String) (g : Guard) → IsValid g → IsValid (check_key now key g).0
unfolding check_key
check_key-IsValid now key g v = ground (
  arith,
  mark_seen-IsValid now key g v,
  mark_seen-IsValid_of_Distinct now key (record g { seen = erase key g.seen })
      (Distinct-erase key g.seen v.distinct),
)

-- On every branch `is_duplicate` keeps the guard valid: the keys stay distinct, and never more
-- than `max_keys` of them are held.
pub is_duplicate-IsValid :
    (evicted_at now : ℕ) (key : String) (g : Guard)
    → IsValid g
    → IsValid (is_duplicate evicted_at now key g).0
unfolding is_duplicate
is_duplicate-IsValid evicted_at now key g v =
    check_key-IsValid now key (evict_expired evicted_at g) (evict_expired-IsValid evicted_at g v)

-- Eviction keeps what is not expired, and invents nothing.
lookup-drop_expired_live :
    (now ttl ts : ℕ) (k : String) (d : Dict ℕ)
    → lookup k d ≡ some ts
    → now < ts + ttl
    → lookup k (drop_expired now ttl d) ≡ some ts
unfolding drop_expired
lookup-drop_expired_live now ttl ts k [] h live = h
lookup-drop_expired_live now ttl ts k ((j, u) ∷ d) h live =
    ground (arith, lookup-drop_expired_live now ttl ts k d)

lookup-drop_expired_absent :
    (now ttl : ℕ) (k : String) (d : Dict ℕ)
    → lookup k d ≡ none
    → lookup k (drop_expired now ttl d) ≡ none
unfolding drop_expired
lookup-drop_expired_absent now ttl k [] h = h
lookup-drop_expired_absent now ttl k ((j, u) ∷ d) h =
    ground (arith, lookup-drop_expired_absent now ttl k d)

lookup-drop_expired-some :
    (now ttl ts : ℕ) (k : String) (d : Dict ℕ)
    → Distinct d
    → lookup k (drop_expired now ttl d) ≡ some ts
    → lookup k d ≡ some ts
unfolding drop_expired
lookup-drop_expired-some now ttl ts k [] dd h = h
lookup-drop_expired-some now ttl ts k ((j, u) ∷ d) dd h = ground (
  arith,
  lookup-drop_expired-some now ttl ts k d dd.1,
  lookup-drop_expired_absent now ttl j d dd.0,
)

-- A key is reported as a duplicate exactly when the guard holds a time for it that is less than
-- the TTL ago, for a valid guard and a clock that does not run backwards during the call.
pub is_duplicate_iff :
    (evicted_at now : ℕ) (key : String) (g : Guard)
    → IsValid g
    → evicted_at ≤ now
    → ((is_duplicate evicted_at now key g).1 ≡ true)
      ↔ ((ts : ℕ) × (lookup key g.seen ≡ some ts) × (now < ts + g.ttl))
unfolding is_duplicate check_key evict_expired
is_duplicate_iff evicted_at now key g v h = (found, live)
  where
    found :
        (is_duplicate evicted_at now key g).1 ≡ true
        → (ts : ℕ) × (lookup key g.seen ≡ some ts) × (now < ts + g.ttl)
    found e = elim (Option-cases (lookup key (drop_expired evicted_at g.ttl g.seen))) [
      | inl miss ↦ absurd (ground arith)
      | inr (ts, hit) ↦
          (ts, lookup-drop_expired-some evicted_at g.ttl ts key g.seen v.distinct hit, ground arith)
    ]

    live :
        (ts : ℕ) × (lookup key g.seen ≡ some ts) × (now < ts + g.ttl)
        → (is_duplicate evicted_at now key g).1 ≡ true
    live (ts, e, l) =
        ground (arith, lookup-drop_expired_live evicted_at g.ttl ts key g.seen e (omega arith))
