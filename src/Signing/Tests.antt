-- ===== src/Signing/Tests.antt =====
-- Tests and concrete instances for Ed25519 signatures.
use roar_protocol.Base.{◌≡◌, refl, true, some, [], ◌∷◌, arith, str_dec}
use roar_protocol.Json.{num, str}
use roar_protocol.Types.{AgentCard, RoarMessage}
use roar_protocol.Types.Samples.{alice, card_of, greeting}
use roar_protocol.Signing.{verify_ed25519, sign_ed25519}
use roar_protocol.Signing.Cards.{verify-sign_ed25519}
use roar_protocol.Signing.Toy.{toy, toy_pair}

abbrev attested : AgentCard
attested = record (card_of alice) { attestation = some "c2ln" }

abbrev signed : RoarMessage
signed = record greeting {
  auth = ("timestamp", num 100) ∷ ("signature", str "ed25519:c2ln") ∷ ("public_key", str "pk") ∷ [];
}

verify-sign_ed25519_example : verify_ed25519 toy 300 200 (some "pk") signed ≡ some true
unfolding sign_ed25519 str_dec
verify-sign_ed25519_example =
    verify-sign_ed25519 toy "sk" "pk" 300 100 200 greeting signed toy_pair (λ _. omega arith) refl
