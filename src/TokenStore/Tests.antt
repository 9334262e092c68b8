-- ===== src/TokenStore/Tests.antt =====
-- Tests and concrete instances for the token store.
use roar_protocol.Base.{ℕ, ◌+◌, ◌≤◌, ◌≡◌, refl, some, List, [], ◌∷◌, arith, str_dec}
use roar_protocol.Base.Dict.{Dict}
use roar_protocol.TokenStore.{get_count, get_and_increment}
use roar_protocol.TokenStore.Limits.{Call, run, run-Limited}

abbrev one_use : Dict ℕ
one_use = ("a", 1) ∷ []

abbrev calls : List Call
calls =
    record { token = "a"; max_uses = some 2 }
    ∷ record { token = "b"; max_uses = some 2 }
    ∷ record { token = "a"; max_uses = some 2 }
    ∷ []

run_once : (run "a" calls one_use).1 ≡ 1
unfolding run get_and_increment str_dec
run_once = refl

run-Limited_example : get_count "a" one_use + (run "a" calls one_use).1 ≤ 2
unfolding get_count str_dec
run-Limited_example =
    run-Limited "a" 2 calls one_use ((λ e. refl), ((λ e. refl), ((λ e. refl), tt))) (omega arith)
