-- ===== src/TokenStore.antt =====
-- `InMemoryTokenStore` of python/src/roar_sdk/token_store.py. The lock makes each call one step, so
-- the calls of any number of threads are a sequence.
pub mod Limits
mod Tests
use roar_protocol.Base.{
  ℕ, ◌+◌, ◌≤◌, String, ◌≡◌, refl, Bool, true, false, Option, none, some, List, [], ◌∷◌, arith, leb,
  if◌then◌else◌, ◌==◌, All, str_dec, ◌≢◌,
}
use roar_protocol.Base.Dict.{Dict, lookup, insert, lookup-insert}

unfoldable pub get_count : String → Dict ℕ → ℕ
get_count id counts = elim (lookup id counts) [ none ↦ 0 | some n ↦ n ]

-- `max_uses is not None and current >= max_uses`
abbrev pub exhausted : Option ℕ → ℕ → Bool
exhausted none current = false
exhausted (some limit) current = leb limit current

unfoldable pub get_and_increment : String → Option ℕ → Dict ℕ → Dict ℕ × Bool
unfolding get_count
get_and_increment id max_uses counts =
    let current = get_count id counts in
    if exhausted max_uses current then (counts, false) else (insert id (current + 1) counts, true)
