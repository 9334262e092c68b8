-- ===== src/Dedup/Tests.antt =====
-- Tests and concrete instances for the replay guard.
use roar_protocol.Base.{◌≡◌, refl, true, false, List, [], ◌∷◌, arith, str_dec}
use roar_protocol.Dedup.{Guard, is_duplicate, mark_seen}
use roar_protocol.Dedup.Bounds.{IsValid}
use roar_protocol.Dedup.Window.{Op, asks, marks, run, is_duplicate-run}

abbrev guard : Guard
guard = record { max_keys = 2; ttl = 300; seen = ("a", 5) ∷ [] }

-- The same key again inside the TTL, after it, and a third key that pushes the oldest out.
duplicate_inside : (is_duplicate 100 100 "a" guard).1 ≡ true
unfolding is_duplicate str_dec
duplicate_inside = refl

fresh_after : (is_duplicate 305 305 "a" guard).1 ≡ false
unfolding is_duplicate str_dec
fresh_after = refl

oldest_out : (is_duplicate 9 9 "c" (is_duplicate 8 8 "b" guard).0).0.seen ≡ ("b", 8) ∷ ("c", 9) ∷ []
unfolding is_duplicate str_dec
oldest_out = refl

-- `mark_seen` on a known key keeps its place: the front is no longer the oldest, and eviction stops
-- before an expired key.
kept_expired :
    (is_duplicate 310 310 "c" (mark_seen 200 "a" (mark_seen 8 "b" guard))).0.seen
    ≡ ("b", 8) ∷ ("c", 310) ∷ []
unfolding is_duplicate str_dec
kept_expired = refl

-- the key is marked again, and another key is asked for
abbrev later : List Op
later = marks 12 "b" ∷ asks (record { evicted_at = 20; now = 21; key = "c" }) ∷ []

abbrev roomy : Guard
roomy = record guard { max_keys = 3 }

roomy-IsValid : IsValid roomy
roomy-IsValid = record { distinct = (refl, tt); bounded = omega arith }

is_duplicate-run_example :
    (is_duplicate 30 31 "b" (run later (is_duplicate 8 9 "b" roomy).0)).1 ≡ true
unfolding is_duplicate str_dec
is_duplicate-run_example =
    is_duplicate-run 8 9 "b" roomy later 30 31 roomy-IsValid (omega arith) refl
      (omega arith, ((omega arith, omega arith), tt)) (omega arith) (omega arith)
