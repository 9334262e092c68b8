-- ===== src/Delegation/Uses.antt =====
-- How often a delegation token can be used.
use roar_protocol.Base.{
  ℕ, ◌+◌, ◌≤◌, ◌<◌, String, ◌≡◌, refl, false, some, List, [], ◌∷◌, arith, if◌then◌else◌, length,
  All,
}
use roar_protocol.Json.{finite}
use roar_protocol.Delegation.{DelegationToken, consume, grants}

-- Uses of a token at a list of times: the token at the end, and how many were accepted.
unfoldable pub run : List ℕ → DelegationToken → DelegationToken × ℕ
run [] t = (t, 0)
run (now ∷ times) t =
    let (t', ok) = consume now t in let (t'', n) = run times t' in (t'', if ok then n + 1 else n)

-- However often and whenever a token with a limit is used, the uses that it accepts are counted, and
-- with those before them they do not exceed the limit; the token at the end is the one at the start
-- with only its count raised.
pub run-max_uses :
    (times : List ℕ) (limit : ℕ) (t : DelegationToken)
    → t.max_uses ≡ some limit
    → t.use_count ≤ limit
    → let (t', n) = run times t in
      (t' ≡ record t { use_count = t.use_count + n }) × (t.use_count + n ≤ limit)
unfolding run consume
run-max_uses [] limit t m h = (ground arith, omega arith)
run-max_uses (now ∷ times) limit t m h = ground (
  arith,
  run-max_uses times limit t m h,
  run-max_uses times limit (record t { use_count = t.use_count + 1 }) m,
)

-- Before its expiry a token with a limit accepts exactly the uses that are left: of any number of
-- uses all are accepted while the limit is not reached.
pub run-All_accepted :
    (times : List ℕ) (limit expires_at : ℕ) (t : DelegationToken)
    → t.max_uses ≡ some limit
    → t.expires_at ≡ some (finite expires_at)
    → All (λ now. now ≤ expires_at) times
    → t.use_count + length times ≤ limit
    → (run times t).1 ≡ length times
unfolding run consume
run-All_accepted [] limit expires_at t m x b h = refl
run-All_accepted (now ∷ times) limit expires_at t m x b h = ground (
  arith,
  b.0,
  run-All_accepted times limit expires_at (record t { use_count = t.use_count + 1 }) m x b.1,
)

-- An expired token grants nothing and accepts no use.
pub consume-expired :
    (now expires_at : ℕ) (capability : String) (t : DelegationToken)
    → t.expires_at ≡ some (finite expires_at)
    → expires_at < now
    → (grants now capability t ≡ false) × (consume now t ≡ (t, false))
unfolding grants consume
consume-expired now expires_at capability t x late = ground arith
