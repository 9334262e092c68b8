-- ===== src/Router/Tests.antt =====
-- Tests and concrete instances for the router.
use roar_protocol.Base.{ℕ, String, ◌≡◌, ◌≢◌, refl, false, some, none, [], ◌∷◌, arith, str_dec}
use roar_protocol.Base.Dict.{Dict}
use roar_protocol.Json.{num, str}
use roar_protocol.Types.{RoarMessage}
use roar_protocol.Types.Samples.{greeting}
use roar_protocol.Types.Message.{verify, out_of_window}
use roar_protocol.Bucket.{consume}
use roar_protocol.Signing.Toy.{toy}
use roar_protocol.Router.{
  State, Request, dispatched, check_rate, check_replay, receive_signed, receive, handle_message,
}
use roar_protocol.Router.Dispatch.{Admitted, handle_message-dispatched}
use roar_protocol.Router.Replay.{http, websocket, serve, serve_all, serve-once}

abbrev digest : String → String → String
digest _ _ = "ab12"

abbrev genuine : RoarMessage
genuine = record greeting {
  auth = ("timestamp", num 100) ∷ ("signature", str "hmac-sha256:ab12") ∷ [];
}

abbrev state : State
state = record {
  limiter = some (record { capacity = 120; rate = 2; tokens = 120; last = 0 });
  seen = ("m0", 90) ∷ [];
  strict = none;
  signing_secret = "secret";
}

abbrev request : ℕ → Request
request n = record {
  parsed = some genuine;
  bucket_at = n;
  verify_at = n;
  replay_at = n;
  strict_clock = record { age_at = n; evicted_at = n; guard_at = n };
}

first_dispatched : (handle_message toy digest (request 150) state).1 ≡ dispatched genuine
unfolding handle_message receive receive_signed check_rate check_replay consume verify out_of_window
    str_dec
first_dispatched = refl

handle_message-dispatched_example :
    ((request 150).parsed ≡ some genuine)
    × ((check_rate (request 150).bucket_at state).1 ≡ false)
    × Admitted toy digest (request 150) genuine (check_rate (request 150).bucket_at state).0
handle_message-dispatched_example =
    handle_message-dispatched toy digest (request 150) genuine state first_dispatched

serve-once_example :
    (serve toy digest websocket (request 170) (
      serve_all toy digest
        ((http, request 160) ∷ [])
        (serve toy digest http (request 150) state).0)).1
    ≢ dispatched genuine
unfolding serve
serve-once_example =
    serve-once toy digest http websocket (request 150) (request 170) genuine genuine state
      ((http, request 160) ∷ []) refl (refl, tt) first_dispatched (omega arith, tt) (omega arith)
      refl

abbrev table : Dict ℕ
table = ("m0", 90) ∷ []
