-- ===== src/Stream/Tests.antt =====
-- Tests and a concrete instance for the event bus.
use roar_protocol.Base.{
  ℕ, String, ◌≡◌, ◌≢◌, refl, ap, true, false, some, none, List, [], ◌∷◌, arith, str_dec, inr,
}
use Prim.Native.String.{count}
use roar_protocol.Stream.{
  StreamEvent, StreamFilter, EventBus, Subscription, tool_call, type_text, init, subscribe, prefill,
  publish, offer_all, offer, matches, get,
}
use roar_protocol.Stream.Channel.{Op, publish_op, get_op, subscribe_op}
use roar_protocol.Stream.Refine.{run, Holds, Refines, run-Refines}

abbrev event : ℕ → StreamEvent
event n = record { type = tool_call; source = "a"; session_id = ""; payload = []; timestamp = n }

abbrev tools : StreamFilter
tools = record { event_types = "tool_call" ∷ []; source_dids = []; session_ids = [] }

abbrev subscription : Subscription
subscription = record {
  filter = tools;
  maxsize = 2;
  queue = [];
  closed = false;
  events_received = 0;
  events_dropped = 0;
}

abbrev bus : EventBus
bus = record {
  max_buffer = 1000;
  replay_size = 2;
  replay_buffer = [];
  subscriptions = ("s1", subscription) ∷ [];
  event_count = 0;
}

subscribed :
    (subscribe "s1" (some tools) (some 2) true (init 1000 2)).subscriptions ≡ bus.subscriptions
unfolding subscribe init prefill
subscribed = refl

-- With room for one event, the replay gives the oldest that is kept, not the most recent.
replay_oldest :
    (run "s2"
      (publish_op (event 1)
        ∷ publish_op (event 2)
        ∷ subscribe_op "s2" none (some 1) true
        ∷ get_op "s2"
        ∷ [])
      bus).1
    ≡ some (event 1) ∷ []
unfolding run subscribe prefill publish offer_all offer matches type_text get str_dec
replay_oldest = refl

abbrev calls : List Op
calls =
    publish_op (event 1)
    ∷ publish_op (event 2)
    ∷ subscribe_op "s22" none none true
    ∷ publish_op (event 3)
    ∷ get_op "s1"
    ∷ get_op "s22"
    ∷ []

-- The oldest of three events gives way in a queue for two.
oldest_gone : (run "s1" calls bus).1 ≡ some (event 2) ∷ []
unfolding run subscribe prefill publish offer_all offer matches type_text get str_dec
oldest_gone = refl

other_id : ◌≢◌ {A = String} "s1" "s22"
other_id h = omega (arith, ap count h)

bus-Holds : Holds "s1" tools 2 [] 0 bus
unfolding str_dec
bus-Holds = record {
  sub = subscription;
  found = refl;
  valid = record { is_open = refl; bounded = inr (omega arith) };
  filter = refl;
  maxsize = refl;
  queue = refl;
  consumed = refl;
}

run-Refines_example : Refines "s1" tools 2 0 [] calls bus
run-Refines_example =
    run-Refines "s1" tools 2 0 [] calls bus bus-Holds (tt, (tt, (other_id, (tt, (tt, (tt, tt))))))
