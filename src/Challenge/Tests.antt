-- ===== src/Challenge/Tests.antt =====
-- Tests and concrete instances for the challenge table.
use roar_protocol.Base.{◌≡◌, refl, ◌≢◌, none, [], ◌∷◌, arith, str_dec}
use roar_protocol.Json.{null}
use roar_protocol.Challenge.{
  Pending, PendingChallenge, new_challenge, issue, consume, evict_expired,
}
use roar_protocol.Challenge.OneShot.{IsValid, consume_op, serve, consume-once}

abbrev first : PendingChallenge
first = new_challenge "did:roar:agent:alice" "pk" null "c1" "n1" 100

abbrev pending : Pending
pending = ("c1", first) ∷ []

pending-IsValid : IsValid pending
pending-IsValid = record { distinct = (refl, tt); bounded = omega arith }

issued : (issue "did:roar:agent:bob" "pk" null "c2" "n2" 110 110 pending).1 ≢ none
unfolding issue evict_expired str_dec
issued = λ h. ground arith

consume-once_example :
    (consume "c1" 122 122 (serve (consume_op "c1" 121 121 ∷ []) (consume "c1" 120 120 pending).0)).1
    ≡ none
consume-once_example =
    consume-once "c1" 120 120 (consume_op "c1" 121 121 ∷ []) 122 122 pending (tt, tt)
