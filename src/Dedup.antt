-- ===== src/Dedup.antt =====
-- The replay guard, `IdempotencyGuard` of python/src/roar_sdk/dedup.py. Times and durations are
-- whole ticks of the clock. Each reading of `time.time()` is an argument of its own: a call of
-- `is_duplicate` reads the clock once in `_evict_expired` and once after it. A comparison of a
-- difference of times is written as one of sums.
pub mod Bounds
pub mod Held
pub mod Window
mod Tests
use roar_protocol.Base.{
  ℕ, ◌+◌, String, Bool, true, false, Option, none, some, List, [], ◌∷◌, ltb, if◌then◌else◌, length,
}
use roar_protocol.Base.Dict.{Dict, lookup, insert, erase, drop_oldest}

pub record Guard : Type 0 where
  pub max_keys : ℕ
  pub ttl : ℕ
  pub seen : Dict ℕ

unfoldable pub init : ℕ → ℕ → Guard
init max_keys ttl = record { max_keys = max_keys; ttl = ttl; seen = [] }

-- the loop of `_evict_expired`: it stops at the first key with `ts > now - ttl`
pub drop_expired : ℕ → ℕ → Dict ℕ → Dict ℕ
drop_expired now ttl [] = []
drop_expired now ttl ((k, ts) ∷ d) =
    if ltb now (ts + ttl) then (k, ts) ∷ d else drop_expired now ttl d

unfoldable pub evict_expired : ℕ → Guard → Guard
unfolding drop_expired
evict_expired now g = record g { seen = drop_expired now g.ttl g.seen }

-- `self._seen[key] = now`, and the eviction over capacity
unfoldable pub mark_seen : ℕ → String → Guard → Guard
mark_seen now key g = record g { seen = drop_oldest g.max_keys (insert key now g.seen) }

-- the body of `is_duplicate` after the eviction
pub check_key : ℕ → String → Guard → Guard × Bool
unfolding mark_seen
check_key now key g = elim (lookup key g.seen) [
  | none ↦ (mark_seen now key g, false)
  | some ts ↦
      if ltb now (ts + g.ttl)
      then (g, true)
      else (mark_seen now key (record g { seen = erase key g.seen }), false)
]

unfoldable pub is_duplicate : ℕ → ℕ → String → Guard → Guard × Bool
unfolding evict_expired check_key
is_duplicate evicted_at now key g = check_key now key (evict_expired evicted_at g)

unfoldable pub size : Guard → ℕ
size g = length g.seen

unfoldable pub clear : Guard → Guard
clear g = record g { seen = [] }
