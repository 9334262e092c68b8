-- ===== src/Signing.antt =====
-- Ed25519 signatures on messages and agent cards: python/src/roar_sdk/signing.py. The `cryptography`
-- package, base64 and `json.dumps` are parameters.
pub mod Cards
pub mod Toy
mod Tests
use Prim.Native.String.{count}
use roar_protocol.Base.{
  ℕ, ◌-◌, ◌%◌, ◌+◌, zero, suc, String, Bool, true, false, Option, none, some, List, [], ◌∷◌, ltb,
  if◌then◌else◌, nonempty, strip_prefix, append_text,
}
use roar_protocol.Base.Dict.{Dict, insert, lookup}
use roar_protocol.Json.{Json, num, str}
use roar_protocol.Types.{RoarMessage}
use roar_protocol.Types.Message.{signing_body, signature_text, out_of_window}

-- Keys are hex texts. `sign` gives the base64 text of a signature without padding, `public_of` the
-- public key of a private one; none where the key is malformed and the call raises. `decode` is
-- base64 with padding, none where it raises. `check` answers false on a malformed key.
pub record Ed25519 : Type 0 where
  pub dumps : Json → String
  pub sign : String → String → Option String
  pub public_of : String → Option String
  pub decode : String → Option String
  pub check : String → String → String → Bool

abbrev pub equals_signs : ℕ → String
equals_signs zero = ""
equals_signs (suc n) = append_text "=" (equals_signs n)

-- `b64 + "=" * ((4 - len(b64) % 4) % 4)`
abbrev pub padded : String → String
padded s = append_text s (equals_signs ((4 - count s % 4) % 4))

abbrev pub text_or : Option String → String
text_or none = ""
text_or (some s) = s

-- `a or b` of texts
abbrev pub or_text : String → String → String
or_text a b = if nonempty a then a else b

-- `auth.get("signature", "")`, none where it is no text and `startswith` raises
abbrev pub ed25519_text : Dict Json → Option String
ed25519_text auth = elim (lookup "signature" auth) [
  | none ↦ some ""
  | some (str s) ↦ some s
  | some _ ↦ none
]

-- the base64 text after the scheme; the outer none where the call raises
abbrev pub ed25519_base64 : Dict Json → Option (Option String)
ed25519_base64 auth = elim (ed25519_text auth) [
  | none ↦ none
  | some s ↦ some (strip_prefix "ed25519:" s)
]

module _ (e : Ed25519) where
  -- a base64 signature of a body under a key, none where decoding raises
  abbrev pub check_text : String → String → String → Option Bool
  check_text key b64 body = elim (e.decode (padded b64)) [
    | none ↦ none
    | some raw ↦ some (e.check key raw body)
  ]

  abbrev pub body_text : RoarMessage → String
  body_text m = e.dumps (signing_body m)

  -- The signed message, or none where the private key is malformed.
  unfoldable pub sign_ed25519 : String → ℕ → RoarMessage → Option RoarMessage
  sign_ed25519 private_key now m =
      let timed = record m { auth = ("timestamp", num now) ∷ [] } in
      elim (e.public_of private_key) [
        | none ↦ none
        | some public_key ↦ elim (e.sign private_key (body_text timed)) [
          | none ↦ none
          | some sig ↦ some (record timed {
            auth =
                insert "public_key" (str public_key)
                  (insert "signature" (str (append_text "ed25519:" sig)) timed.auth);
          })
        ]
      ]

  -- Whether the message is accepted; none where the call raises. `public_key` overrides the key
  -- that the message names for its sender.
  unfoldable pub verify_ed25519 : ℕ → ℕ → Option String → RoarMessage → Option Bool
  verify_ed25519 max_age now public_key m = elim (ed25519_base64 m.auth) [
    | none ↦ none
    | some none ↦ some false
    | some (some b64) ↦ elim (out_of_window max_age now m.auth) [
      | none ↦ none
      | some true ↦ some false
      | some false ↦
          let key = or_text (text_or public_key) (text_or m.from_identity.public_key) in
          if nonempty key then check_text key b64 (body_text m) else some false
    ]
  ]
