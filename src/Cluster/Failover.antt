-- ===== src/Cluster/Failover.antt =====
-- The attempts of `send`.
use roar_protocol.Base.{
  ◌<◌, ℕ, zero, suc, ◌+◌, ◌≤◌, String, ◌≡◌, refl, true, false, Option, none, some, List, [], ◌∷◌,
  arith, length, elem, Option-cases, Bool-cases, inl, inr, All,
}
use roar_protocol.Json.{Json}
use roar_protocol.Cluster.{
  healthy_from, HubHealth, Settings, Sent, replied, no_healthy_hubs, all_failed, pick_hub, hub_at,
  change_at, send_failed, attempt, send,
}

-- No address is tried twice.
abbrev pub Tried : (String → Option Json) → List String → Type 0
Tried post [] = Unit
Tried post (url ∷ urls) = (elem url urls ≡ false) × Tried post urls

abbrev pub Failed : (String → Option Json) → List String → Type 0
Failed post urls = All (λ url. post url ≡ none) urls

-- How a call ends: a reply is that of the last address tried, after every other one failed.
abbrev pub Ends : (String → Option Json) → List String → Sent → Type 0
Ends post urls (replied url reply) =
    (earlier : List String) × (urls ≡ url ∷ earlier) × (post url ≡ some reply) × Failed post earlier
Ends post urls no_healthy_hubs = Failed post urls
Ends post urls all_failed = Failed post urls

-- What a call of `send` has done: the addresses that it tried, each once and no more than there were
-- attempts, and how it ends.
pub record Done (post : String → Option Json) (limit : ℕ) (urls : List String) (sent : Sent)
    : Type 0 where
  pub once : Tried post urls
  pub ends : Ends post urls sent
  pub bounded : length urls ≤ limit

attempt-Done :
    (s : Settings) (post : String → Option Json) (draw : ℕ → ℕ) (n : ℕ) (tried : List String)
    (hubs : List HubHealth) (limit : ℕ)
    → Tried post tried
    → Failed post tried
    → length tried + n ≤ limit
    → let (_, urls, sent) = attempt s post draw n tried hubs in Done post limit urls sent
unfolding attempt
attempt-Done s post draw zero tried hubs limit t f b = record {
  once = t;
  ends = f;
  bounded = omega (arith, b);
}
attempt-Done s post draw (suc n) tried hubs limit t f b =
    elim (Option-cases (pick_hub (draw n) hubs)) [
      | inl empty ↦ rw (attempt, empty) (record { once = t; ends = f; bounded = omega (arith, b) })
      | inr (place, p) ↦ elim (Option-cases (hub_at place hubs)) [
        | inl gone ↦
            rw (attempt, p, gone) (record { once = t; ends = f; bounded = omega (arith, b) })
        | inr (hub, h) ↦ elim (Bool-cases (elem hub.url tried)) [
          | inl known ↦
              rw (attempt, p, h, known)
                (attempt-Done s post draw n tried hubs limit t f (omega (arith, b)))
          | inr new ↦ elim (Option-cases (post hub.url)) [
            | inr (reply, r) ↦
                rw (attempt, p, h, new, r)
                  (record {
                    once = (new, t);
                    ends = (tried, refl, r, f);
                    bounded = omega (arith, b);
                  })
            | inl down ↦
                rw (attempt, p, h, new, down)
                  (attempt-Done s post draw n (hub.url ∷ tried)
                    (change_at place (send_failed s) hubs) limit (new, t) (down, f)
                    (omega (arith, b)))
          ]
        ]
      ]
    ]

-- A message goes to each hub at most once, to one after the other until one of them replies: the
-- reply that is returned is that of the last one, and every other one that was tried has failed.
-- There are at most as many as the cluster has hubs.
pub send-Done :
    (s : Settings) (post : String → Option Json) (draw : ℕ → ℕ) (hubs : List HubHealth)
    → let (_, urls, sent) = send s post draw hubs in Done post (length hubs) urls sent
unfolding send
send-Done s post draw hubs =
    attempt-Done s post draw (length hubs) [] hubs (length hubs) tt tt (omega arith)

again-all_failed :
    (s : Settings) (post : String → Option Json) (n : ℕ) (tried : List String) (a : HubHealth)
    (hubs : List HubHealth)
    → a.alive ≡ true
    → elem a.url tried ≡ true
    → let (_, urls, sent) = attempt s post (λ _. 0) n tried (a ∷ hubs) in
      (urls ≡ tried) × (sent ≡ all_failed)
unfolding attempt pick_hub healthy_from
again-all_failed s post zero tried a hubs up known = (refl, refl)
again-all_failed s post (suc n) tried a hubs up known =
    ground (arith, again-all_failed s post n tried a hubs up known)

-- All hubs are reported to have failed when the first one has, where every draw picks it and it is
-- not down yet: no other hub is tried, however many are healthy.
pub send-all_failed :
    (s : Settings) (post : String → Option Json) (a : HubHealth) (hubs : List HubHealth)
    → a.alive ≡ true
    → post a.url ≡ none
    → a.consecutive_failures + 1 < s.max_failures
    → let (_, urls, sent) = send s post (λ _. 0) (a ∷ hubs) in
      (urls ≡ a.url ∷ []) × (sent ≡ all_failed)
unfolding send attempt pick_hub healthy_from
send-all_failed s post a hubs up down few =
    let known : elem (send_failed s a).url (a.url ∷ []) ≡ true = ground arith in
    let alive : (send_failed s a).alive ≡ true = ground arith in
    let e = again-all_failed s post (length hubs) (a.url ∷ []) (send_failed s a) hubs alive known in
    ground (arith, e)
