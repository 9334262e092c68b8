-- ===== src/Signing/Cards.antt =====
-- Attestations of agent cards, and that what is signed verifies.
use roar_protocol.Base.{
  ap, ◌≢◌, ℕ, ◌≤◌, ◌<◌, String, ◌≡◌, refl, Bool, true, false, Option, none, some, List, [], ◌∷◌,
  arith, if◌then◌else◌, nonempty, str_dec, Option-cases, inl, inr, strip_prefix-append, append_text,
}
use roar_protocol.Base.Dict.{Dict}
use roar_protocol.Json.{Json, Items, num, str, arr, obj, nil, cons, of_dict, of_texts}
use roar_protocol.Types.{AgentCard, AgentCapability, RoarMessage}
use roar_protocol.Types.Message.{signing_body, out_of_window, distance}
use roar_protocol.Signing.{
  ed25519_base64, Ed25519, text_or, check_text, body_text, sign_ed25519, verify_ed25519,
}

-- `cap.model_dump()`
capability_body : AgentCapability → Json
capability_body cap = obj (
    of_dict (
      ("name", str cap.name)
      ∷ ("description", str cap.description)
      ∷ ("input_schema", obj (of_dict cap.input_schema))
      ∷ ("output_schema", obj (of_dict cap.output_schema))
      ∷ []))

capability_bodies : List AgentCapability → Items
unfolding capability_body
capability_bodies [] = nil
capability_bodies (cap ∷ caps) = cons (capability_body cap) (capability_bodies caps)

text_fields : Dict String → Dict Json
text_fields [] = []
text_fields ((k, v) ∷ d) = (k, str v) ∷ text_fields d

unfoldable pub card_body : AgentCard → Json
unfolding capability_bodies text_fields
card_body card = obj (
    of_dict (
      ("did", str card.identity.did)
      ∷ ("capabilities", arr (of_texts card.identity.capabilities))
      ∷ ("description", str card.description)
      ∷ ("skills", arr (of_texts card.skills))
      ∷ ("channels", arr (of_texts card.channels))
      ∷ ("endpoints", obj (of_dict (text_fields card.endpoints)))
      ∷ ("declared_capabilities", arr (capability_bodies card.declared_capabilities))
      ∷ []))

module _ (e : Ed25519) where
  -- The card with its attestation, none where the key is malformed and the call raises.
  unfoldable pub sign_agent_card : String → AgentCard → Option AgentCard
  sign_agent_card private_key card = elim (e.sign private_key (e.dumps (card_body card))) [
    | none ↦ none
    | some sig ↦ some (record card { attestation = some sig })
  ]

  -- Whether the attestation is the card's own key's signature of the card; none where it raises.
  unfoldable pub verify_agent_card : AgentCard → Option Bool
  verify_agent_card card =
      let attestation = text_or card.attestation in
      let key = text_or card.identity.public_key in
      if nonempty attestation
      then if nonempty key
        then check_text e key attestation (e.dumps (card_body card))
        else some false
      else some false

  -- A private and a public key belong together: what the one signs is a text that is not empty,
  -- decodes, and passes the check under the other.
  pub record IsKeyPair (private_key public_key : String) : Type 0 where
    pub known : nonempty public_key ≡ true
    pub public : e.public_of private_key ≡ some public_key
    pub verifies :
        (body sig : String)
        → e.sign private_key body ≡ some sig
        → (nonempty sig ≡ true) × (check_text e public_key sig body ≡ some true)

  -- A card that is signed with the private key of the public key in it verifies; if the card is
  -- signed, only its attestation has changed.
  pub verify-sign_agent_card :
      (private_key public_key : String) (card signed : AgentCard)
      → IsKeyPair private_key public_key
      → card.identity.public_key ≡ some public_key
      → sign_agent_card private_key card ≡ some signed
      → (verify_agent_card signed ≡ some true) × (card_body signed ≡ card_body card)
  unfolding sign_agent_card verify_agent_card card_body
  verify-sign_agent_card private_key public_key card signed pair owns h =
      let body = e.dumps (card_body card) in
      elim (Option-cases (e.sign private_key body)) [
        | inl bad ↦ absurd (ground arith)
        | inr (sig, q) ↦
            let v = pair.verifies body sig q in
            let s : record card { attestation = some sig } ≡ signed = ground arith in
            rw (← s) (ground (arith, v, owns, pair.known), refl)
      ]

  signed_body :
      (private_key public_key : String) (now : ℕ) (m : RoarMessage) (sig : String)
      → (let timed = record m { auth = ("timestamp", num now) ∷ [] } in
          let signed = record m {
            auth =
                ("timestamp", num now)
                ∷ ("signature", str (append_text "ed25519:" sig))
                ∷ ("public_key", str public_key)
                ∷ [];
          } in
          (e.public_of private_key ≡ some public_key
            → e.sign private_key (body_text e timed) ≡ some sig
            → sign_ed25519 e private_key now m ≡ some signed)
          × (body_text e signed ≡ body_text e timed)
          × (ed25519_base64 signed.auth ≡ some (some sig)))
  unfolding sign_ed25519 signing_body str_dec
  signed_body private_key public_key now m sig =
      (λ p q. rw (p, q, sign_ed25519), refl, ap some (strip_prefix-append "ed25519:" sig))

  window_signed :
      (max_age now now' : ℕ) (rest : Dict Json)
      → (0 < max_age → distance now' now ≤ max_age)
      → out_of_window max_age now' (("timestamp", num now) ∷ rest) ≡ some false
  unfolding out_of_window str_dec
  window_signed max_age now now' rest age = ground arith

  no_signature :
      (private_key public_key : String) (now : ℕ) (m signed : RoarMessage)
      → IsKeyPair private_key public_key
      → e.sign private_key (body_text e (record m { auth = ("timestamp", num now) ∷ [] })) ≡ none
      → sign_ed25519 e private_key now m ≢ some signed
  unfolding sign_ed25519
  no_signature private_key public_key now m signed pair bad h = ground (arith, pair.public)

  accepted_signed :
      (private_key public_key : String) (max_age now now' : ℕ) (m signed : RoarMessage)
      (sig : String)
      → IsKeyPair private_key public_key
      → (0 < max_age → distance now' now ≤ max_age)
      → e.sign private_key (body_text e (record m { auth = ("timestamp", num now) ∷ [] }))
        ≡ some sig
      → sign_ed25519 e private_key now m ≡ some signed
      → verify_ed25519 e max_age now' (some public_key) signed ≡ some true
  unfolding verify_ed25519
  accepted_signed private_key public_key max_age now now' m signed sig pair age q h =
      let (makes, body, text) = signed_body private_key public_key now m sig in
      let made = makes pair.public q in
      let rest : Dict Json =
        ("signature", str (append_text "ed25519:" sig)) ∷ ("public_key", str public_key) ∷ [] in
      let v = pair.verifies _ sig q in
      let final = record m { auth = ("timestamp", num now) ∷ rest } in
      let same : final ≡ signed = ground (arith, made, h) in
      rw (← same)
        (ground (arith, body, text, v, pair.known, window_signed max_age now now' rest age))

  -- A message that is signed with a private key is accepted under its public key at every time
  -- within `max_age` of the signing, or at any time if `max_age` is 0.
  pub verify-sign_ed25519 :
      (private_key public_key : String) (max_age now now' : ℕ) (m signed : RoarMessage)
      → IsKeyPair private_key public_key
      → (0 < max_age → distance now' now ≤ max_age)
      → sign_ed25519 e private_key now m ≡ some signed
      → verify_ed25519 e max_age now' (some public_key) signed ≡ some true
  verify-sign_ed25519 private_key public_key max_age now now' m signed pair age h =
      let timed = record m { auth = ("timestamp", num now) ∷ [] } in
      elim (Option-cases (e.sign private_key (body_text e timed))) [
        | inl bad ↦ absurd (no_signature private_key public_key now m signed pair bad h)
        | inr (sig, q) ↦
            accepted_signed private_key public_key max_age now now' m signed sig pair age q h
      ]
