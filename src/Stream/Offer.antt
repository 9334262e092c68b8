-- ===== src/Stream/Offer.antt =====
-- What `publish` does to one subscription: its queue keeps the newest events up to its limit.
use roar_protocol.Base.{
  List-cases, ℕ, ◌+◌, ◌-◌, ◌≤◌, String, ◌≡◌, refl, ap, sym, ◌⊎◌, inl, inr, Bool, true, false, ◌&&◌,
  some, List, [], ◌∷◌, ◌++◌, zero, suc, arith, ltb, leb, if◌then◌else◌, length, drop, length-append,
  Bool-cases, str_dec,
}
use roar_protocol.Base.Dict.{Dict, lookup}
use roar_protocol.Stream.{StreamEvent, Subscription, matches, offer, offer_all}
use roar_protocol.Stream.Channel.{newest, sent}

abbrev is_full : ℕ → List StreamEvent → Bool
is_full m q = ltb 0 m && leb m (length q)

newest-append :
    (m : ℕ) (q : List StreamEvent) (e : StreamEvent)
    → is_full m q ≡ false
    → newest m (q ++ e ∷ []) ≡ q ++ e ∷ []
newest-append zero q e h = refl
newest-append (suc n) q e h =
    let short : length (q ++ e ∷ []) - suc n ≡ 0 = ground (arith, length-append q (e ∷ [])) in
    ap (λ k. drop k (q ++ e ∷ [])) short

newest-full :
    (m : ℕ) (x : StreamEvent) (q : List StreamEvent) (e : StreamEvent)
    → is_full m (x ∷ q) ≡ true
    → length (x ∷ q) ≤ m
    → (newest m (x ∷ q ++ e ∷ []) ≡ q ++ e ∷ []) × (is_full m q ≡ false)
newest-full zero x q e h l = absurd (ground arith)
newest-full (suc n) x q e h l =
    let one : length (x ∷ (q ++ e ∷ [])) - suc n ≡ 1 = ground (arith, length-append q (e ∷ [])) in
    (ap (λ k. drop k (x ∷ (q ++ e ∷ []))) one, ground arith)

-- A subscription that is open and within its limit.
pub record IsOpen (s : Subscription) : Type 0 where
  pub is_open : s.closed ≡ false
  pub bounded : (s.maxsize ≡ 0) ⊎ (length s.queue ≤ s.maxsize)

-- What an offer of an event does to one subscription.
pub record Offered (e : StreamEvent) (s s' : Subscription) (n : ℕ) : Type 0 where
  pub filter : s'.filter ≡ s.filter
  pub maxsize : s'.maxsize ≡ s.maxsize
  pub valid : IsOpen s'
  pub queue : s'.queue ≡ sent s.filter s.maxsize e s.queue
  pub delivered : n ≡ (if matches s.filter e then 1 else 0)
  pub unread : s'.events_received ≡ s.events_received
  pub counted : s'.events_dropped + length s'.queue ≡ s.events_dropped + length s.queue + n

offer-skipped :
    (e : StreamEvent) (s : Subscription)
    → IsOpen s
    → matches s.filter e ≡ false
    → Offered e s (offer e s).0 (offer e s).1
unfolding offer
offer-skipped e s v m =
    let same : offer e s ≡ (s, 0) = ground (arith, m) in
    rw same (record {
      filter = refl;
      maxsize = refl;
      valid = v;
      queue = ground (arith, m);
      delivered = ground (arith, m);
      unread = refl;
      counted = omega arith;
    })

offer-put :
    (e : StreamEvent) (s : Subscription)
    → IsOpen s
    → matches s.filter e ≡ true
    → is_full s.maxsize s.queue ≡ false
    → Offered e s (offer e s).0 (offer e s).1
unfolding offer
offer-put e s v m room =
    let o = v.is_open in
    let same : offer e s ≡ (record s { queue = s.queue ++ e ∷ [] }, 1) =
      ground (arith, o, m, room) in
    let l = length-append s.queue (e ∷ []) in
    rw same (record {
      filter = refl;
      maxsize = refl;
      valid = record { is_open = o; bounded = ground (arith, v.bounded, l, room) };
      queue = rw m (sym (newest-append s.maxsize s.queue e room));
      delivered = ground (arith, m);
      unread = refl;
      counted = omega (arith, l);
    })

offer-full :
    (e : StreamEvent) (s : Subscription) (x : StreamEvent) (q : List StreamEvent)
    → IsOpen s
    → matches s.filter e ≡ true
    → s.queue ≡ x ∷ q
    → is_full s.maxsize (x ∷ q) ≡ true
    → length (x ∷ q) ≤ s.maxsize
    → Offered e s (offer e s).0 (offer e s).1
unfolding offer
offer-full e s x q v m was full within =
    let o = v.is_open in
    let (kept, room) = newest-full s.maxsize x q e full within in
    let same : offer e s
        ≡ (record s { queue = q ++ e ∷ []; events_dropped = s.events_dropped + 1 }, 1) =
      ground (arith, o, m, was, full, room) in
    let l = length-append q (e ∷ []) in
    rw same (record {
      filter = refl;
      maxsize = refl;
      valid = record { is_open = o; bounded = inr (omega (arith, within, l)) };
      queue = rw (m, was) (sym kept);
      delivered = ground (arith, m);
      unread = refl;
      counted = omega (arith, l, ap length was);
    })

pub offer-Offered :
    (e : StreamEvent) (s : Subscription) → IsOpen s → Offered e s (offer e s).0 (offer e s).1
offer-Offered e s v = elim (Bool-cases (matches s.filter e)) [
  | inr other ↦ offer-skipped e s v other
  | inl takes ↦ elim (Bool-cases (is_full s.maxsize s.queue)) [
    | inr room ↦ offer-put e s v takes room
    | inl full ↦ elim (List-cases s.queue) [
      | inl empty ↦ absurd (ground (arith, full, empty))
      | inr (x, q, was) ↦
          offer-full e s x q v takes was (ground (arith, full, was))
            (ground (arith, v.bounded, full, was))
    ]
  ]
]

pub lookup-offer_all :
    (id : String) (e : StreamEvent) (d : Dict Subscription) (s : Subscription)
    → lookup id d ≡ some s
    → lookup id (offer_all e d).0 ≡ some (offer e s).0
unfolding offer_all
lookup-offer_all id e [] s h = absurd (ground arith)
lookup-offer_all id e ((k, t) ∷ d) s h = elim (str_dec id k) [
  | yes same ↦ ground (arith, same)
  | no other ↦ ground (arith, other, lookup-offer_all id e d s)
]
