-- ===== src/Bucket.antt =====
-- `TokenBucket` of python/src/roar_sdk/router.py. Amounts are counted in 60ths of a token, and the
-- monotonic clock in whole seconds: the router's rate of `rate_limit / 60.0` tokens a second is then
-- `rate_limit` parts a second, with no rounding.
pub mod Rate
mod Tests
use roar_protocol.Base.{ℕ, ◌+◌, ◌-◌, ◌*◌, Bool, true, false, min, leb, if◌then◌else◌}

-- one token, in parts
abbrev pub one_token : ℕ
one_token = 60

pub record Bucket : Type 0 where
  pub capacity : ℕ
  pub rate : ℕ
  pub tokens : ℕ
  pub last : ℕ

unfoldable pub init : ℕ → ℕ → ℕ → Bucket
init max_tokens refill_rate now = record {
  capacity = max_tokens;
  rate = refill_rate;
  tokens = max_tokens;
  last = now;
}

-- The bucket after the refill at the time `now`.
unfoldable pub refill : ℕ → Bucket → Bucket
refill now b = record b { tokens = min b.capacity (b.tokens + (now - b.last) * b.rate); last = now }

unfoldable pub consume : ℕ → Bucket → Bucket × Bool
unfolding refill
consume now b =
    let b' = refill now b in
    if leb one_token b'.tokens
    then (record b' { tokens = b'.tokens - one_token }, true)
    else (b', false)
