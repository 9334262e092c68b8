-- ===== src/Client/Tests.antt =====
-- Tests and concrete instances for the client.
use roar_protocol.Base.{String, ◌≡◌, refl, Option, true, false, none, [], ◌∷◌, arith}
use roar_protocol.Json.{Json, str}
use roar_protocol.Types.{MessageIntent, RoarMessage}
use roar_protocol.Types.Samples.{alice, bob}
use roar_protocol.Signing.Toy.{toy}
use roar_protocol.Did.Samples.{network}
use roar_protocol.Delegation.{DelegationToken}
use roar_protocol.Server.{Server, Times, handled, handle_message}
use roar_protocol.Client.{Client, Drawn, send}
use roar_protocol.Client.Delivery.{handle_message-send}

abbrev client : Client
client = record { identity = alice; signing_secret = "secret"; directory = [] }

abbrev server : Server
server = record { identity = bob; signing_secret = "secret"; handles = λ i. true }

abbrev drawn : Drawn
drawn = record { id = "m1"; did = "did:roar:agent:unknown"; created_at = 100; signed_at = 101 }

abbrev times : Times
times = record { verify_at = 120; expiry_at = 120; token_at = 120 }

abbrev hexdigest : String → String → String
hexdigest key body = "00"

abbrev no_tokens : Json → Option DelegationToken
no_tokens raw = none

abbrev hello : RoarMessage
hello =
    send toy.dumps hexdigest "did:roar:agent:bob" MessageIntent.ask (("text", str "hello") ∷ [])
      none drawn client

handle_message-send_example :
    handle_message toy hexdigest network no_tokens false times server hello [] ≡ ([], handled hello)
handle_message-send_example =
    handle_message-send toy hexdigest network no_tokens client server "did:roar:agent:bob"
      MessageIntent.ask (("text", str "hello") ∷ []) none drawn times [] (λ k b. refl) refl refl
      refl refl (omega arith)
