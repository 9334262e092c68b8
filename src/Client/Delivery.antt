-- ===== src/Client/Delivery.antt =====
-- The delivery of what a client sends.
use roar_protocol.Base.{
  ℕ, ◌≤◌, String, ◌≡◌, refl, true, false, Option, none, some, arith, nonempty, is_ascii,
}
use roar_protocol.Base.Dict.{Dict, lookup}
use roar_protocol.Json.{Json}
use roar_protocol.Types.{RoarMessage, MessageIntent}
use roar_protocol.Types.Message.{sign, verify, distance}
use roar_protocol.Types.Message.Signing.{verify-sign}
use roar_protocol.Signing.{Ed25519}
use roar_protocol.Did.{Network}
use roar_protocol.Delegation.{DelegationToken}
use roar_protocol.Server.{Server, Times, Counts, handled, handle_verified, handle_message}
use roar_protocol.Client.{Client, Drawn, unsigned_message, send, dict_or}

send-sign :
    (dumps : Json → String) (hexdigest : String → String → String) (to : String)
    (intent : MessageIntent) (content : Dict Json) (context : Option (Dict Json)) (drawn : Drawn)
    (c : Client)
    → nonempty c.signing_secret ≡ true
    → send dumps hexdigest to intent content context drawn c
      ≡ sign dumps hexdigest c.signing_secret drawn.signed_at
          (unsigned_message to intent content context drawn c)
unfolding send
send-sign dumps hexdigest to intent content context drawn c h = ground arith

sign_keeps :
    (dumps : Json → String) (hexdigest : String → String → String) (secret : String) (now : ℕ)
    (m : RoarMessage)
    → ((sign dumps hexdigest secret now m).context ≡ m.context)
      × ((sign dumps hexdigest secret now m).intent ≡ m.intent)
unfolding sign
sign_keeps dumps hexdigest secret now m = (refl, refl)

module _ (e : Ed25519) (hexdigest : String → String → String) (network : Network)
    (validate : Json → Option DelegationToken) where
  handle_message-verified :
      (times : Times) (s : Server) (m : RoarMessage) (counts : Counts)
      → verify e.dumps hexdigest s.signing_secret 300 times.verify_at m ≡ some true
      → lookup "delegation_token" m.context ≡ none
      → s.handles m.intent ≡ true
      → handle_message e hexdigest network validate false times s m counts ≡ (counts, handled m)
  unfolding handle_message handle_verified
  handle_message-verified times s m counts good plain handles = ground arith

  -- A message that a client signs and sends is handled by every server with its secret that has a
  -- handler for the intent and gets it within 300 seconds, if it carries no delegation token; the
  -- digits of a digest are ASCII.
  pub handle_message-send :
      (c : Client) (s : Server) (to : String) (intent : MessageIntent) (content : Dict Json)
      (context : Option (Dict Json)) (drawn : Drawn) (times : Times) (counts : Counts)
      → ((k b : String) → is_ascii (hexdigest k b) ≡ true)
      → nonempty c.signing_secret ≡ true
      → s.signing_secret ≡ c.signing_secret
      → s.handles intent ≡ true
      → lookup "delegation_token" (dict_or context) ≡ none
      → distance times.verify_at drawn.signed_at ≤ 300
      → let m = send e.dumps hexdigest to intent content context drawn c in
        handle_message e hexdigest network validate false times s m counts ≡ (counts, handled m)
  handle_message-send c s to intent content context drawn times counts ascii has_secret same handles
        plain soon =
      let raw = unsigned_message to intent content context drawn c in
      let m = sign e.dumps hexdigest c.signing_secret drawn.signed_at raw in
      let (kept, kept') = sign_keeps e.dumps hexdigest c.signing_secret drawn.signed_at raw in
      let good : verify e.dumps hexdigest s.signing_secret 300 times.verify_at m ≡ some true =
        rw same (
          verify-sign e.dumps hexdigest c.signing_secret 300 drawn.signed_at times.verify_at raw
            ascii (λ _. soon)) in
      rw (send-sign e.dumps hexdigest to intent content context drawn c has_secret)
        (handle_message-verified times s m counts good (rw kept plain) (rw kept' handles))
