-- ===== src/Signing/Toy.antt =====
-- A concrete `Ed25519`, with one key pair, for the tests.
use roar_protocol.Base.{nonempty, String, some, ◌≡◌, refl, true, str_dec, ◌&&◌, ◌==◌}
use roar_protocol.Signing.{Ed25519, check_text}
use roar_protocol.Signing.Cards.{IsKeyPair}

abbrev pub toy : Ed25519
toy = record {
  dumps = λ _. "body";
  sign = λ key body. some "c2ln";
  public_of = λ key. some "pk";
  decode = λ s. some s;
  check = λ key raw body. key == "pk" && raw == "c2ln";
}

toy_verifies :
    (sig : String)
    → "c2ln" ≡ sig
    → (nonempty sig ≡ true) × (check_text toy "pk" sig "body" ≡ some true)
unfolding str_dec
toy_verifies sig same = rw (← same) (refl, refl)

pub toy_pair : IsKeyPair toy "sk" "pk"
unfolding str_dec
toy_pair = record { known = refl; public = refl; verifies = λ body sig q. toy_verifies sig (cc) }
