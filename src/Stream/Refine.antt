-- ===== src/Stream/Refine.antt =====
-- Each subscription of the bus is such a channel, whatever the other subscribers do.
use roar_protocol.Base.{
  List-cases, ℕ, ◌+◌, String, ◌≡◌, ◌≢◌, refl, ap, ◌∙◌, inl, inr, Bool, Option, none, some, List, [],
  ◌∷◌, suc, arith, if◌then◌else◌, length, All, Bool-cases, Option-cases, ◌==◌,
}
use roar_protocol.Base.Dict.{lookup, insert, lookup-insert, lookup-erase}
use roar_protocol.Stream.{
  StreamEvent, StreamFilter, Subscription, EventBus, matches, offer, publish, get, subscribe, close,
  new_subscription,
}
use roar_protocol.Stream.Channel.{
  sent, received, Op, publish_op, get_op, subscribe_op, close_op, channel, taken,
}
use roar_protocol.Stream.Offer.{IsOpen, offer-Offered, lookup-offer_all}

-- The bus after the calls, and what the subscriber `id` got.
unfoldable pub run : String → List Op → EventBus → EventBus × List (Option StreamEvent)
run id [] b = (b, [])
run id (publish_op e ∷ ops) b = run id ops (publish e b).0
run id (get_op j ∷ ops) b =
    let (b', out) = get j b in
    let (last, outs) = run id ops b' in (last, if j == id then out ∷ outs else outs)
run id (subscribe_op j f n r ∷ ops) b = run id ops (subscribe j f n r b)
run id (close_op j ∷ ops) b = run id ops (close j b)

-- The call opens or closes another subscription, or none.
abbrev pub Spares : String → Op → Type 0
Spares id (publish_op e) = Unit
Spares id (get_op j) = Unit
Spares id (subscribe_op j f n r) = id ≢ j
Spares id (close_op j) = id ≢ j

-- how many of the answers are events
abbrev pub answered : List (Option StreamEvent) → ℕ
answered [] = 0
answered (none ∷ outs) = answered outs
answered (some e ∷ outs) = suc (answered outs)

-- The subscription `id` of the bus, which is open and holds the queue `q`.
pub record Holds (id : String) (f : StreamFilter) (m : ℕ) (q : List StreamEvent) (gone : ℕ)
    (b : EventBus) : Type 0 where
  pub sub : Subscription
  pub found : lookup id b.subscriptions ≡ some sub
  pub valid : IsOpen sub
  pub filter : sub.filter ≡ f
  pub maxsize : sub.maxsize ≡ m
  pub queue : sub.queue ≡ q
  pub consumed : sub.events_received + sub.events_dropped ≡ gone

publish-Holds :
    (id : String) (f : StreamFilter) (m gone : ℕ) (q : List StreamEvent) (e : StreamEvent)
    (b : EventBus)
    → Holds id f m q gone b
    → (gone' : ℕ) × Holds id f m (sent f m e q) gone' (publish e b).0
      × (gone' + length (sent f m e q) ≡ gone + length q + (if matches f e then 1 else 0))
unfolding publish
publish-Holds id f m gone q e b h =
    let s = h.sub in
    let o = offer-Offered e s h.valid in
    let s' = (offer e s).0 in
    let gone' : ℕ = s'.events_received + s'.events_dropped in
    let same : sent s.filter s.maxsize e s.queue ≡ sent f m e q =
      rw (h.filter, h.maxsize, h.queue) refl in
    (
      gone',
      record {
        sub = s';
        found = lookup-offer_all id e b.subscriptions s h.found;
        valid = o.valid;
        filter = o.filter ∙ h.filter;
        maxsize = o.maxsize ∙ h.maxsize;
        queue = o.queue ∙ same;
        consumed = refl;
      },
      omega (
        arith,
        o.counted,
        o.unread,
        h.consumed,
        ap length (o.queue ∙ same),
        ap length h.queue,
        o.delivered ∙ ap (λ g. if matches g e then 1 else 0) h.filter,
      ),
    )

get-other-Holds :
    (id j : String) (f : StreamFilter) (m gone : ℕ) (q : List StreamEvent) (b : EventBus)
    → id ≢ j
    → Holds id f m q gone b
    → Holds id f m q gone (get j b).0
unfolding get
get-other-Holds id j f m gone q b n h = record {
  sub = h.sub;
  found = elim (Option-cases (lookup j b.subscriptions)) [
    | inl absent ↦ ground (arith, absent, h.found)
    | inr (t, there) ↦ elim (List-cases t.queue) [
      | inl empty ↦ ground (arith, there, empty, h.found)
      | inr (x, r, full) ↦ ground (
        arith,
        there,
        full,
        h.found,
        lookup-insert id j (record t { queue = r; events_received = t.events_received + 1 })
            b.subscriptions,
      )
    ]
  ];
  valid = h.valid;
  filter = h.filter;
  maxsize = h.maxsize;
  queue = h.queue;
  consumed = h.consumed;
}

get-own-Holds :
    (id : String) (f : StreamFilter) (m gone : ℕ) (q : List StreamEvent) (b : EventBus)
    → Holds id f m q gone b
    → let (q', out) = received q in
      ((get id b).1 ≡ out) × Holds id f m q' (gone + answered (out ∷ [])) (get id b).0
unfolding get
get-own-Holds id f m gone [] b h =
    let s = h.sub in
    let same : get id b ≡ (b, none) = ground (arith, h.found, h.valid.is_open, h.queue) in
    (
      ap (λ x. x.1) same,
      rw same (record {
        sub = s;
        found = h.found;
        valid = h.valid;
        filter = h.filter;
        maxsize = h.maxsize;
        queue = h.queue;
        consumed = omega (arith, h.consumed);
      }),
    )
get-own-Holds id f m gone (x ∷ q) b h =
    let s = h.sub in
    let s' = record s { queue = q; events_received = s.events_received + 1 } in
    let same : get id b ≡ (record b { subscriptions = insert id s' b.subscriptions }, some x) =
      ground (arith, h.found, h.valid.is_open, h.queue) in
    (
      ap (λ y. y.1) same,
      rw same (record {
        sub = s';
        found = ground (arith, lookup-insert id id s' b.subscriptions);
        valid = record {
          is_open = h.valid.is_open;
          bounded = ground (arith, h.valid.bounded, ap length h.queue);
        };
        filter = h.filter;
        maxsize = h.maxsize;
        queue = refl;
        consumed = omega (arith, h.consumed);
      }),
    )

subscribe-Holds :
    (id j : String) (f : StreamFilter) (m gone : ℕ) (q : List StreamEvent) (g : Option StreamFilter)
    (n : Option ℕ) (r : Bool) (b : EventBus)
    → id ≢ j
    → Holds id f m q gone b
    → Holds id f m q gone (subscribe j g n r b)
unfolding subscribe
subscribe-Holds id j f m gone q g n r b other h = record {
  sub = h.sub;
  found = ground (arith, h.found, lookup-insert id j (new_subscription g n r b) b.subscriptions);
  valid = h.valid;
  filter = h.filter;
  maxsize = h.maxsize;
  queue = h.queue;
  consumed = h.consumed;
}

close-Holds :
    (id j : String) (f : StreamFilter) (m gone : ℕ) (q : List StreamEvent) (b : EventBus)
    → id ≢ j
    → Holds id f m q gone b
    → Holds id f m q gone (close j b)
unfolding close
close-Holds id j f m gone q b other h = record {
  sub = h.sub;
  found = ground (arith, h.found, lookup-erase id j b.subscriptions);
  valid = h.valid;
  filter = h.filter;
  maxsize = h.maxsize;
  queue = h.queue;
  consumed = h.consumed;
}

length-received :
    (q : List StreamEvent) → length (received q).0 + answered ((received q).1 ∷ []) ≡ length q
length-received [] = omega arith
length-received (e ∷ q) = omega arith

-- What the subscriber `id` observes, and what is left for it.
abbrev pub Refines : String → StreamFilter → ℕ → ℕ → List StreamEvent → List Op → EventBus → Type 0
Refines id f m gone q ops b =
    ((run id ops b).1 ≡ (channel id f m ops q).1)
    × ((gone' : ℕ) × Holds id f m (channel id f m ops q).0 gone' (run id ops b).0
        × (gone' + length (channel id f m ops q).0 ≡ gone + length q + taken f ops))

-- Whatever calls of `publish`, `get`, `subscribe` and `close` are made on a bus, an open
-- subscription within its limit answers its own subscriber as the channel with its filter, limit
-- and queue does, as long as no call closes it or takes its id; what is left in its queue is what
-- the channel holds, and every event that its filter took has been received, was dropped, or is
-- still there.
pub run-Refines :
    (id : String) (f : StreamFilter) (m gone : ℕ) (q : List StreamEvent) (ops : List Op)
    (b : EventBus)
    → Holds id f m q gone b
    → All (Spares id) ops
    → Refines id f m gone q ops b
unfolding run channel
run-Refines id f m gone q [] b h s = (refl, (gone, h, omega arith))
run-Refines id f m gone q (publish_op e ∷ ops) b h s =
    let (gone', h', count) = publish-Holds id f m gone q e b h in
    let (outs, (last, held, total)) =
      run-Refines id f m gone' (sent f m e q) ops (publish e b).0 h' s.1 in
    (outs, (last, held, omega (arith, count, total)))
run-Refines id f m gone q (get_op j ∷ ops) b h s = elim (Bool-cases (j == id)) [
  | inl own ↦
      let e : j ≡ id = ground arith in
      let (out, h') = get-own-Holds id f m gone q b h in
      let (outs, (last, held, total)) =
        run-Refines id f m (gone + answered ((received q).1 ∷ [])) (received q).0 ops (get id b).0
          h' s.1 in
      rw (own, e) (ground (arith, out, outs), (last, held, omega (arith, total, length-received q)))
  | inr other ↦
      let n : id ≢ j = λ e. ground (arith, e) in
      rw other
        (run-Refines id f m gone q ops (get j b).0 (get-other-Holds id j f m gone q b n h) s.1)
]
run-Refines id f m gone q (subscribe_op j g n r ∷ ops) b h s =
    run-Refines id f m gone q ops (subscribe j g n r b)
      (subscribe-Holds id j f m gone q g n r b s.0 h) s.1
run-Refines id f m gone q (close_op j ∷ ops) b h s =
    run-Refines id f m gone q ops (close j b) (close-Holds id j f m gone q b s.0 h) s.1
