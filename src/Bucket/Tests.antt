-- ===== src/Bucket/Tests.antt =====
-- Tests and concrete instances for the token bucket.
use roar_protocol.Base.{ℕ, ◌+◌, ◌*◌, ◌≤◌, ◌≡◌, refl, List, [], ◌∷◌, arith}
use roar_protocol.Bucket.{Bucket, one_token, consume}
use roar_protocol.Bucket.Rate.{run, total, run_bounded}

-- two tokens of room, one token a second
abbrev small : Bucket
small = record { capacity = 120; rate = 60; tokens = 120; last = 7 }

abbrev gaps : List ℕ
gaps = 0 ∷ 0 ∷ 0 ∷ 1 ∷ []

run_three : (run gaps small).1 ≡ 3
unfolding run consume
run_three = refl

run_bounded_example :
    ((run gaps small).1 * one_token + (run gaps small).0.tokens
      ≤ small.tokens + total gaps * small.rate)
    × ((run gaps small).0.tokens ≤ small.capacity)
run_bounded_example = run_bounded gaps small (omega arith)
