-- ===== src/KeyTrust/Tests.antt =====
-- Tests and concrete instances for the trust store.
use roar_protocol.Base.{
  ap, String, ◌≡◌, ◌≢◌, refl, Bool, true, false, some, none, [], ◌∷◌, arith, str_dec,
}
use Prim.Native.String.{count}
use roar_protocol.Json.{num, str}
use roar_protocol.Types.{RoarMessage}
use roar_protocol.Types.Samples.{alice, greeting}
use roar_protocol.KeyTrust.{
  KeyMetadata, Store, new_key, trusted, is_key_trusted, get_trusted_key, rotate_key,
}
use roar_protocol.KeyTrust.Rotation.{is_trusted, rotate_key-trust, rotate_key-malformed}

abbrev no_keys : Store
no_keys = record { default_max_age = 24; rotation_grace = 1; keys = [] }

abbrev key : KeyMetadata
key = new_key alice.did "pk" none "manual" 100 no_keys

abbrev store : Store
store = record no_keys { keys = (alice.did, key ∷ []) ∷ [] }

abbrev any_hex : String → Bool
any_hex _ = true

abbrev signed : RoarMessage
signed = record greeting { auth = ("timestamp", num 100) ∷ ("signature", str "ed25519:c2ln") ∷ [] }

abbrev new_text : String
new_text = "00112233445566778899aabbccddeeff00112233445566778899aabbccddeeff"

new_text_differs : ◌≢◌ {A = String} "pk" new_text
new_text_differs h = omega (arith, ap count h)

rotate_key-trust_example :
    let (s', made) = rotate_key any_hex alice.did new_text "rotation" 200 201 store in
    let k = new_key alice.did new_text none "rotation" 201 store in
    (made ≡ some k)
    × (get_trusted_key 300 alice.did s' ≡ trusted k)
    × (is_trusted (is_key_trusted 300 alice.did "pk" s') ≡ true
        → is_trusted (is_key_trusted 300 alice.did "pk" store) ≡ true)
rotate_key-trust_example =
    rotate_key-trust any_hex alice.did new_text "rotation" "pk" 200 201 300 store refl (omega arith)
      new_text_differs

rotate_key-malformed_example :
    let (s', made) = rotate_key any_hex alice.did "short" "rotation" 200 201 store in
    (made ≡ none) × (is_trusted (get_trusted_key 300 alice.did s') ≡ false)
unfolding str_dec
rotate_key-malformed_example =
    rotate_key-malformed any_hex alice.did "short" "rotation" 200 201 300 store key refl refl refl
      refl
