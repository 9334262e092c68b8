-- ===== src/Types/Message/Tests.antt =====
-- Tests and concrete instances for HMAC signatures.
use roar_protocol.Base.{String, [], ◌∷◌, ◌≡◌, refl, true, some, arith, str_dec}
use roar_protocol.Json.{Json, num, nan, str}
use roar_protocol.Types.{RoarMessage}
use roar_protocol.Types.Samples.{greeting}
use roar_protocol.Types.Message.{signing_body, signature_text, out_of_window, sign, verify}
use roar_protocol.Types.Message.Signing.{signed_time, verify-sign, verify_binds}

abbrev plain : Json → String
plain _ = "body"

abbrev digest : String → String → String
digest _ _ = "ab12"

-- the greeting as `sign` leaves it
abbrev signed : RoarMessage
signed = record greeting {
  auth = ("timestamp", num 100) ∷ ("signature", str "hmac-sha256:ab12") ∷ [];
}

accepted : verify plain digest "secret" 300 250 signed ≡ some true
unfolding sign str_dec
accepted = verify-sign plain digest "secret" 300 100 250 greeting (λ k b. refl) (λ _. omega arith)

-- the same message with a key identifier in front, and with another time of its own
abbrev renamed : RoarMessage
renamed = record signed { auth = ("kid", str "k1") ∷ signed.auth; timestamp = 7 }

renamed-accepted : verify plain digest "secret" 300 260 renamed ≡ some true
unfolding verify out_of_window str_dec
renamed-accepted = refl

-- A time that is NaN passes the age test at every later time.
nan_accepted :
    verify plain digest "secret" 300 999_999
      (record signed { auth = ("timestamp", nan) ∷ ("signature", str "hmac-sha256:ab12") ∷ [] })
    ≡ some true
unfolding verify out_of_window str_dec
nan_accepted = refl

same_signature : signature_text signed.auth ≡ signature_text renamed.auth
unfolding str_dec
same_signature = refl

same_body : signing_body signed ≡ signing_body renamed
unfolding signing_body str_dec
same_body = refl

verify_binds_example :
    (signed.id ≡ renamed.id)
    × (signed.from_identity.did ≡ renamed.from_identity.did)
    × (signed.to_identity.did ≡ renamed.to_identity.did)
    × (signed.intent ≡ renamed.intent)
    × (signed.payload ≡ renamed.payload)
    × (signed.context ≡ renamed.context)
    × (signed_time signed ≡ signed_time renamed)
verify_binds_example =
    verify_binds plain digest "secret" 300 250 300 260 signed renamed same_signature
      (λ _. same_body) accepted renamed-accepted
