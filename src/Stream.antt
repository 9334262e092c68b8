-- ===== src/Stream.antt =====
-- The event bus, python/src/roar_sdk/streaming.py, with the stream events of types.py. A publish
-- and a subscription contain no await, so each is one step. `asyncio.Queue` with a maximum size is
-- a list and its size, where 0 is no limit, and `deque(maxlen=n)` is a list cut to its last `n`.
pub mod Channel
pub mod Offer
pub mod Refine
mod Tests
use roar_protocol.Base.{
  ℕ, ◌+◌, ◌-◌, String, Bool, true, false, ◌&&◌, ◌||◌, not, Option, none, some, List, [], ◌∷◌, ◌++◌,
  zero, suc, ltb, leb, elem, if◌then◌else◌, length, drop, is_some,
}
use roar_protocol.Base.Dict.{Dict, lookup, insert, erase}
use roar_protocol.Json.{Json}

pub data StreamEventType : Type 0 where
  tool_call mcp_request reasoning task_update monitor_alert agent_status : StreamEventType
  checkpoint world_update stream_start stream_end agent_delegate : StreamEventType

unfoldable pub type_text : StreamEventType → String
type_text tool_call = "tool_call"
type_text mcp_request = "mcp_request"
type_text reasoning = "reasoning"
type_text task_update = "task_update"
type_text monitor_alert = "monitor_alert"
type_text agent_status = "agent_status"
type_text checkpoint = "checkpoint"
type_text world_update = "world_update"
type_text stream_start = "stream_start"
type_text stream_end = "stream_end"
type_text agent_delegate = "agent_delegate"

pub record StreamEvent : Type 0 where
  pub type : StreamEventType
  pub source : String
  pub session_id : String
  pub payload : Dict Json
  pub timestamp : ℕ

pub record StreamFilter : Type 0 where
  pub event_types : List String
  pub source_dids : List String
  pub session_ids : List String

-- an empty list of a filter asks nothing
abbrev pub passes : String → List String → Bool
passes s [] = true
passes s (x ∷ xs) = elem s (x ∷ xs)

unfoldable pub matches : StreamFilter → StreamEvent → Bool
unfolding type_text
matches f e =
    passes (type_text e.type) f.event_types
    && passes e.source f.source_dids
    && passes e.session_id f.session_ids

-- `Queue.put_nowait`; none is `QueueFull`
abbrev pub put_nowait : ℕ → List StreamEvent → StreamEvent → Option (List StreamEvent)
put_nowait maxsize q e =
    if ltb 0 maxsize && leb maxsize (length q) then none else some (q ++ e ∷ [])

pub record Subscription : Type 0 where
  pub filter : StreamFilter
  pub maxsize : ℕ
  pub queue : List StreamEvent
  pub closed : Bool
  pub events_received : ℕ
  pub events_dropped : ℕ

-- `deque(maxlen=n)`: the last `n` items
abbrev pub keep_last {ℓ} : {A : Type ℓ} → ℕ → List A → List A
keep_last n xs = drop (length xs - n) xs

pub record EventBus : Type 0 where
  pub max_buffer : ℕ
  pub replay_size : ℕ
  pub replay_buffer : List StreamEvent
  pub subscriptions : Dict Subscription
  pub event_count : ℕ

unfoldable pub init : ℕ → ℕ → EventBus
init max_buffer replay_size = record {
  max_buffer = max_buffer;
  replay_size = replay_size;
  replay_buffer = [];
  subscriptions = [];
  event_count = 0;
}

-- the loop that pre-fills a queue: it stops at the first event that finds the queue full
unfoldable pub prefill : StreamFilter → ℕ → List StreamEvent → List StreamEvent → List StreamEvent
prefill f maxsize [] q = q
prefill f maxsize (e ∷ es) q =
    let skipped = prefill f maxsize es q in
    elim (put_nowait maxsize q e) [
      | none ↦ if matches f e then q else skipped
      | some q' ↦ let put = prefill f maxsize es q' in if matches f e then put else skipped
    ]

-- `buffer_size or self._max_buffer`
abbrev pub size_or : Option ℕ → ℕ → ℕ
size_or none d = d
size_or (some zero) d = d
size_or (some (suc n)) d = suc n

abbrev pub filter_or : Option StreamFilter → StreamFilter
filter_or none = record { event_types = []; source_dids = []; session_ids = [] }
filter_or (some f) = f

abbrev pub new_subscription : Option StreamFilter → Option ℕ → Bool → EventBus → Subscription
new_subscription filter_spec buffer_size replay b =
    let f = filter_or filter_spec in
    let maxsize = size_or buffer_size b.max_buffer in
    record {
      filter = f;
      maxsize = maxsize;
      queue = if replay then prefill f maxsize b.replay_buffer [] else [];
      closed = false;
      events_received = 0;
      events_dropped = 0;
    }

unfoldable pub subscribe : String → Option StreamFilter → Option ℕ → Bool → EventBus → EventBus
unfolding prefill
subscribe sub_id filter_spec buffer_size replay b = record b {
  subscriptions = insert sub_id (new_subscription filter_spec buffer_size replay b) b.subscriptions;
}

-- the queue after `get_nowait`, and what the loss adds to the count of dropped events
abbrev pub pop_oldest : List StreamEvent → List StreamEvent × ℕ
pop_oldest [] = ([], 0)
pop_oldest (e ∷ q) = (q, 1)

-- one turn of the loop of `publish`, with the number of deliveries
unfoldable pub offer : StreamEvent → Subscription → Subscription × ℕ
offer e s =
    if s.closed || not (matches s.filter e) then (s, 0) else elim (put_nowait s.maxsize s.queue e) [
      | some q ↦ (record s { queue = q }, 1)
      | none ↦
          let (q, lost) = pop_oldest s.queue in
          elim (put_nowait s.maxsize q e) [
            | some q' ↦ (record s { queue = q'; events_dropped = s.events_dropped + lost }, 1)
            | none ↦ (record s { queue = q; events_dropped = s.events_dropped + lost + 1 }, 0)
          ]
    ]

unfoldable pub offer_all : StreamEvent → Dict Subscription → Dict Subscription × ℕ
unfolding offer
offer_all e [] = ([], 0)
offer_all e ((k, s) ∷ d) =
    let (s', n) = offer e s in let (d', m) = offer_all e d in ((k, s') ∷ d', n + m)

-- The bus, and how many subscriptions the event was delivered to.
unfoldable pub publish : StreamEvent → EventBus → EventBus × ℕ
unfolding offer_all
publish e b =
    let (subs, delivered) = offer_all e b.subscriptions in
    (
      record b {
        event_count = b.event_count + 1;
        replay_buffer = keep_last b.replay_size (b.replay_buffer ++ e ∷ []);
        subscriptions = subs;
      },
      delivered,
    )

-- `Subscription.get`: an event that is there or arrives in time, which is then published before;
-- none after the timeout and on a closed subscription, which the bus no longer has.
unfoldable pub get : String → EventBus → EventBus × Option StreamEvent
get sub_id b = elim (lookup sub_id b.subscriptions) [
  | none ↦ (b, none)
  | some s ↦ if s.closed then (b, none) else elim s.queue [
    | [] ↦ (b, none)
    | e ∷ q ↦ (
      record b {
        subscriptions =
            insert sub_id (record s { queue = q; events_received = s.events_received + 1 })
              b.subscriptions;
      },
      some e,
    )
  ]
]

-- `Subscription.close` and the `_unsubscribe` that it calls
unfoldable pub close : String → EventBus → EventBus
close sub_id b = record b { subscriptions = erase sub_id b.subscriptions }

unfoldable pub close_all : EventBus → EventBus
close_all b = record b { subscriptions = [] }

unfoldable pub subscriber_count : EventBus → ℕ
subscriber_count b = length b.subscriptions
