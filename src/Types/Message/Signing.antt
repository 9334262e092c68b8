-- ===== src/Types/Message/Signing.antt =====
-- What an HMAC signature proves: `sign` and `verify` agree, and an accepted signature binds the
-- protected fields.
use roar_protocol.Base.{
  ◌∙◌, sym, ℕ, ◌≤◌, ◌<◌, String, ◌≡◌, refl, ap, true, false, some, [], ◌∷◌, arith, str_dec,
  strip_prefix, strip_prefix-append, is_ascii,
}
use roar_protocol.Base.Dict.{Dict}
use roar_protocol.Json.{Json, num, of_dict}
use roar_protocol.Types.{RoarMessage, MessageIntent}
use roar_protocol.Types.Message.{
  get_default, intent_of_text, intent_text, signing_body, signature_text, distance, out_of_window,
  sign, verify,
}

some_injective : {A : Type 0} {a b : A} → some a ≡ some b → a ≡ b
some_injective h = cc

of_dict_injective : (d e : Dict Json) → of_dict d ≡ of_dict e → d ≡ e
of_dict_injective [] [] h = refl
of_dict_injective [] (x ∷ e) h = cc
of_dict_injective (x ∷ d) [] h = cc
of_dict_injective ((k, v) ∷ d) ((j, w) ∷ e) h = ground (arith, of_dict_injective d e)

pub intent_of_text-intent_text : (a : MessageIntent) → intent_of_text (intent_text a) ≡ some a
unfolding intent_text intent_of_text str_dec
intent_of_text-intent_text MessageIntent.execute = refl
intent_of_text-intent_text MessageIntent.delegate = refl
intent_of_text-intent_text MessageIntent.update = refl
intent_of_text-intent_text MessageIntent.ask = refl
intent_of_text-intent_text MessageIntent.respond = refl
intent_of_text-intent_text MessageIntent.notify = refl
intent_of_text-intent_text MessageIntent.discover = refl

intent_text_injective : (a b : MessageIntent) → intent_text a ≡ intent_text b → a ≡ b
intent_text_injective a b h =
    some_injective
      (sym (intent_of_text-intent_text a) ∙ ap intent_of_text h ∙ intent_of_text-intent_text b)

-- The time that is signed: the one in `auth`, or else the message's own.
abbrev pub signed_time : RoarMessage → Json
signed_time m = get_default "timestamp" (num m.timestamp) m.auth

-- The body determines the protected fields.
body_fields :
    (m m' : RoarMessage)
    → signing_body m ≡ signing_body m'
    → (m.id ≡ m'.id)
      × (m.from_identity.did ≡ m'.from_identity.did)
      × (m.to_identity.did ≡ m'.to_identity.did)
      × (m.intent ≡ m'.intent)
      × (m.payload ≡ m'.payload)
      × (m.context ≡ m'.context)
      × (signed_time m ≡ signed_time m')
unfolding signing_body
body_fields m m' h = ground (
  arith,
  intent_text_injective m.intent m'.intent,
  of_dict_injective m.payload m'.payload,
  of_dict_injective m.context m'.context,
)

module _ (dumps : Json → String) (hexdigest : String → String → String) where
  -- the digest that `sign` computes
  digest_of : String → ℕ → RoarMessage → String
  digest_of secret now m =
      hexdigest secret (dumps (signing_body (record m { auth = ("timestamp", num now) ∷ [] })))

  signing_body-sign :
      (secret : String) (now : ℕ) (m : RoarMessage)
      → hexdigest secret (dumps (signing_body (sign dumps hexdigest secret now m)))
        ≡ digest_of secret now m
  unfolding sign signing_body str_dec digest_of
  signing_body-sign secret now m = refl

  signature-sign :
      (secret : String) (now : ℕ) (m : RoarMessage)
      → strip_prefix "hmac-sha256:" (signature_text (sign dumps hexdigest secret now m).auth)
        ≡ some (digest_of secret now m)
  unfolding sign str_dec digest_of
  signature-sign secret now m = strip_prefix-append "hmac-sha256:" (digest_of secret now m)

  window-sign :
      (secret : String) (max_age signed_at now : ℕ) (m : RoarMessage)
      → (0 < max_age → distance now signed_at ≤ max_age)
      → out_of_window max_age now (sign dumps hexdigest secret signed_at m).auth ≡ some false
  unfolding sign str_dec out_of_window
  window-sign secret max_age signed_at now m age = ground arith

  -- A signed message is accepted under the same secret, at every time within `max_age` of the
  -- signing, or at any time if `max_age` is 0; the digests are ASCII texts.
  pub verify-sign :
      (secret : String) (max_age signed_at now : ℕ) (m : RoarMessage)
      → ((k b : String) → is_ascii (hexdigest k b) ≡ true)
      → (0 < max_age → distance now signed_at ≤ max_age)
      → verify dumps hexdigest secret max_age now (sign dumps hexdigest secret signed_at m)
        ≡ some true
  unfolding verify digest_of
  verify-sign secret max_age signed_at now m ascii age = ground (
    arith,
    signature-sign secret signed_at m,
    window-sign secret max_age signed_at now m age,
    signing_body-sign secret signed_at m,
    ascii secret (dumps (signing_body (record m { auth = ("timestamp", num signed_at) ∷ [] }))),
  )

  -- What acceptance means: the signature text is the HMAC of the body under the secret, and the
  -- message is not out of its time window.
  pub verify-true :
      (secret : String) (max_age now : ℕ) (m : RoarMessage)
      → verify dumps hexdigest secret max_age now m ≡ some true
      → (strip_prefix "hmac-sha256:" (signature_text m.auth)
          ≡ some (hexdigest secret (dumps (signing_body m))))
        × (out_of_window max_age now m.auth ≡ some false)
  unfolding verify
  verify-true secret max_age now m h = ground arith

  -- Two messages with the same signature text that are both accepted under one secret agree in id,
  -- sender's DID, recipient's DID, intent, payload, context and signed time, if their bodies do not
  -- collide under the digest. Nothing is assumed of the rest of `auth`.
  pub verify_binds :
      (secret : String) (max_age now max_age' now' : ℕ) (m m' : RoarMessage)
      → signature_text m.auth ≡ signature_text m'.auth
      → (hexdigest secret (dumps (signing_body m)) ≡ hexdigest secret (dumps (signing_body m'))
          → signing_body m ≡ signing_body m')
      → verify dumps hexdigest secret max_age now m ≡ some true
      → verify dumps hexdigest secret max_age' now' m' ≡ some true
      → (m.id ≡ m'.id)
        × (m.from_identity.did ≡ m'.from_identity.did)
        × (m.to_identity.did ≡ m'.to_identity.did)
        × (m.intent ≡ m'.intent)
        × (m.payload ≡ m'.payload)
        × (m.context ≡ m'.context)
        × (signed_time m ≡ signed_time m')
  verify_binds secret max_age now max_age' now' m m' same free h h' =
      let (sig, _) = verify-true secret max_age now m h in
      let (sig', _) = verify-true secret max_age' now' m' h' in
      body_fields m m'
        (free (some_injective (sym sig ∙ ap (λ a. strip_prefix "hmac-sha256:" a) same ∙ sig')))
