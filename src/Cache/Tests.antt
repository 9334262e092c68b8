-- ===== src/Cache/Tests.antt =====
-- Tests and concrete instances for the discovery cache.
use roar_protocol.Base.{◌≡◌, refl, none, [], ◌∷◌, arith, str_dec}
use roar_protocol.Types.Samples.{alice, bob, entry_of}
use roar_protocol.Cache.{Cache, get, put}
use roar_protocol.Cache.Bounds.{IsValid, get_op, put_op, search_op, run, run-IsValid}

abbrev small : Cache
small = record {
  max_entries = 1;
  default_ttl = 300;
  items = (alice.did, record { entry = entry_of alice; cached_at = 5; ttl = 10 }) ∷ [];
  hits = 0;
  misses = 0;
}

small-IsValid : IsValid small
small-IsValid = record { distinct = (refl, tt); bounded = omega arith }

-- Bob's entry takes the one place, and Alice's then misses.
alice_out : (get 7 alice.did (put 6 (entry_of bob) none small)).1 ≡ none
unfolding get put str_dec
alice_out = refl

run-IsValid_example :
    IsValid
      (run (get_op 6 alice.did ∷ put_op 7 (entry_of bob) none ∷ search_op 8 "code" ∷ []) small)
run-IsValid_example =
    run-IsValid (get_op 6 alice.did ∷ put_op 7 (entry_of bob) none ∷ search_op 8 "code" ∷ []) small
      small-IsValid
