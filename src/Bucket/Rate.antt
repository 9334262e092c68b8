-- ===== src/Bucket/Rate.antt =====
-- How many requests a token bucket lets through.
use roar_protocol.Base.{ℕ, ◌+◌, ◌-◌, ◌*◌, ◌≤◌, ◌≡◌, ap, true, List, [], ◌∷◌, arith, if◌then◌else◌}
use roar_protocol.Bucket.{Bucket, one_token, refill, consume}

-- A run of requests, each at the seconds that have passed since the one before it: the bucket at
-- the end, and how many were let through.
unfoldable pub run : List ℕ → Bucket → Bucket × ℕ
run [] b = (b, 0)
run (d ∷ ds) b =
    let (b', ok) = consume (b.last + d) b in
    let (b'', n) = run ds b' in (b'', if ok then n + 1 else n)

abbrev pub total : List ℕ → ℕ
total [] = 0
total (d ∷ ds) = d + total ds

elapsed : (d : ℕ) (b : Bucket) → (b.last + d - b.last) * b.rate ≡ d * b.rate
elapsed d b = ap (λ t. t * b.rate) (omega arith)

consume_cost :
    (d : ℕ) (b : Bucket)
    → b.tokens ≤ b.capacity
    → let (b', ok) = consume (b.last + d) b in
      (b'.tokens + (if ok then one_token else 0) ≤ b.tokens + d * b.rate)
      × (b'.tokens ≤ b'.capacity)
      × (b'.rate ≡ b.rate)
      × (b'.last ≡ b.last + d)
      × (b'.capacity ≡ b.capacity)
unfolding consume
consume_cost d b h = ground (arith, elapsed d b)

-- In any run of requests from a bucket within its capacity, the tokens that were let through and
-- those left never exceed the tokens at the start and the refill over the time that passed; the
-- bucket stays within its capacity.
pub run_bounded :
    (ds : List ℕ) (b : Bucket)
    → b.tokens ≤ b.capacity
    → let (b', n) = run ds b in
      (n * one_token + b'.tokens ≤ b.tokens + total ds * b.rate) × (b'.tokens ≤ b.capacity)
unfolding run
run_bounded [] b h = omega arith
run_bounded (d ∷ ds) b h =
    let c = consume_cost d b h in
    let rest = run_bounded ds (consume (b.last + d) b).0 c.1 in
    let same : total ds * (consume (b.last + d) b).0.rate ≡ total ds * b.rate =
      ap (λ r. total ds * r) c.2 in
    (ground (arith, c, rest, same), omega (arith, rest.1, c))

-- A request is let through once the bucket has had time to gain a token, if it can hold one.
pub consume-after_wait :
    (d : ℕ) (b : Bucket)
    → one_token ≤ b.capacity
    → one_token ≤ b.tokens + d * b.rate
    → (consume (b.last + d) b).1 ≡ true
unfolding consume refill
consume-after_wait d b room enough = ground (arith, elapsed d b)
