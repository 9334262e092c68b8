-- ===== src/Cluster.antt =====
-- The client's view of several hubs, `HubCluster` of python/src/roar_sdk/ha.py. The place that a
-- random number picks among the healthy hubs, weighted by their latency, is an argument; what the
-- hubs answer is a parameter. Latencies and times are whole milliseconds and seconds.
pub mod Failover
mod Tests
use roar_protocol.Base.{
  ◌||◌, ℕ, zero, suc, ◌+◌, ◌*◌, String, Bool, true, false, Option, none, some, List, [], ◌∷◌, ◌++◌,
  leb, if◌then◌else◌, length, elem, nat_eq,
}
use roar_protocol.Json.{Json}

pub record HubHealth : Type 0 where
  pub url : String
  pub alive : Bool
  pub latency_ms : ℕ
  pub last_check : ℕ
  pub consecutive_failures : ℕ
  pub weight : ℕ

pub record Settings : Type 0 where
  pub max_failures : ℕ
  pub timeout : ℕ

abbrev pub new_hub : String → HubHealth
new_hub url = record {
  url = url;
  alive = true;
  latency_ms = 0;
  last_check = 0;
  consecutive_failures = 0;
  weight = 1;
}

-- a hub with one more failure, which is down once there are too many
abbrev pub failed_once : HubHealth → HubHealth
failed_once h = record h { consecutive_failures = h.consecutive_failures + 1 }

abbrev pub mark_down : ℕ → HubHealth → HubHealth
mark_down max_failures h =
    if leb max_failures h.consecutive_failures then record h { alive = false } else h

-- What a probe sees: a status with the time that it took, or an exception.
pub data Probe : Type 0 where
  answers : ℕ → ℕ → Probe
  unreachable : Probe

abbrev pub probed : Settings → Probe → HubHealth → HubHealth
probed s (answers status elapsed) h =
    if nat_eq status 200
    then record h { alive = true; latency_ms = elapsed; consecutive_failures = 0 }
    else failed_once h
probed s unreachable h = record (failed_once h) { latency_ms = s.timeout * 1000 }

unfoldable pub check_health : Settings → Probe → ℕ → HubHealth → HubHealth
check_health s p now h = record (mark_down s.max_failures (probed s p h)) { last_check = now }

unfoldable pub check_all_health : Settings → (String → Probe) → ℕ → List HubHealth → List HubHealth
check_all_health s probe now [] = []
check_all_health s probe now (h ∷ hubs) =
    check_health s (probe h.url) now h ∷ check_all_health s probe now hubs

-- The healthy hubs, by their places in the list from `k` on.
unfoldable pub healthy_from : ℕ → List HubHealth → List ℕ
healthy_from k [] = []
healthy_from k (h ∷ hubs) =
    if h.alive then k ∷ healthy_from (k + 1) hubs else healthy_from (k + 1) hubs

-- The element at a place, the last one where there are not so many.
abbrev pub at_or_last : ℕ → List ℕ → ℕ → ℕ
at_or_last last [] n = last
at_or_last last (x ∷ xs) zero = x
at_or_last last (x ∷ xs) (suc n) = at_or_last x xs n

-- `_pick_hub`: the place of a healthy hub, none where it raises
unfoldable pub pick_hub : ℕ → List HubHealth → Option ℕ
pick_hub draw hubs = elim (healthy_from 0 hubs) [
  | [] ↦ none
  | x ∷ xs ↦ some (at_or_last x (x ∷ xs) draw)
]

abbrev pub hub_at : ℕ → List HubHealth → Option HubHealth
hub_at n [] = none
hub_at zero (h ∷ hubs) = some h
hub_at (suc n) (h ∷ hubs) = hub_at n hubs

abbrev pub change_at : ℕ → (HubHealth → HubHealth) → List HubHealth → List HubHealth
change_at n f [] = []
change_at zero f (h ∷ hubs) = f h ∷ hubs
change_at (suc n) f (h ∷ hubs) = h ∷ change_at n f hubs

-- How `send` ends: with the reply of a hub, or by raising, for want of a healthy hub or since all
-- attempts failed; with the addresses that were tried, the last one first.
pub data Sent : Type 0 where
  replied : String → Json → Sent
  no_healthy_hubs all_failed : Sent

abbrev pub send_failed : Settings → HubHealth → HubHealth
send_failed s h = mark_down s.max_failures (failed_once h)

-- The attempts that are left. `post` is the JSON of a hub's reply, none where the request raises.
unfoldable pub attempt :
    Settings
    → (String → Option Json)
    → (ℕ → ℕ)
    → ℕ
    → List String
    → List HubHealth
    → List HubHealth × List String × Sent
attempt s post draw zero tried hubs = (hubs, tried, all_failed)
attempt s post draw (suc n) tried hubs =
    let again = attempt s post draw n in
    elim (pick_hub (draw n) hubs) [
      | none ↦ (hubs, tried, no_healthy_hubs)
      | some place ↦ elim (hub_at place hubs) [
        | none ↦ (hubs, tried, no_healthy_hubs)
        | some hub ↦ if elem hub.url tried then again tried hubs else elim (post hub.url) [
          | some reply ↦ (hubs, hub.url ∷ tried, replied hub.url reply)
          | none ↦ again (hub.url ∷ tried) (change_at place (send_failed s) hubs)
        ]
      ]
    ]

unfoldable pub send :
    Settings
    → (String → Option Json)
    → (ℕ → ℕ)
    → List HubHealth
    → List HubHealth × List String × Sent
send s post draw hubs = attempt s post draw (length hubs) [] hubs

-- `register_agent`: the addresses of the healthy hubs that answer 200 or 201; `post` is none where
-- the request raises.
unfoldable pub register_agent : (String → Option ℕ) → List HubHealth → List String
register_agent post [] = []
register_agent post (h ∷ hubs) =
    let rest = register_agent post hubs in
    if h.alive
    then elim (post h.url) [
      | none ↦ rest
      | some status ↦ if nat_eq status 200 || nat_eq status 201 then h.url ∷ rest else rest
    ]
    else rest

-- `heal_split_brain`: how many requests to sync succeed between two healthy hubs
unfoldable pub sync_pair : (String → String → Bool) → String → String → ℕ
sync_pair post a b = (if post a b then 1 else 0) + (if post b a then 1 else 0)

unfoldable pub sync_with : (String → String → Bool) → String → List String → ℕ
sync_with post a [] = 0
sync_with post a (b ∷ urls) = sync_pair post a b + sync_with post a urls

unfoldable pub heal_split_brain : (String → String → Bool) → List String → ℕ
heal_split_brain post [] = 0
heal_split_brain post (a ∷ urls) = sync_with post a urls + heal_split_brain post urls
