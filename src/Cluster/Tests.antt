-- ===== src/Cluster/Tests.antt =====
-- Tests and concrete instances for the cluster.
use roar_protocol.Base.{
  ℕ, String, ◌≡◌, refl, Option, some, none, List, [], ◌∷◌, str_dec, ◌==◌, arith, leb, if◌then◌else◌,
}
use roar_protocol.Json.{Json, str}
use roar_protocol.Cluster.{
  HubHealth, Settings, new_hub, replied, all_failed, send, attempt, pick_hub, healthy_from,
}
use roar_protocol.Cluster.Failover.{Done, send-Done, send-all_failed}

abbrev hubs : List HubHealth
hubs = new_hub "a" ∷ new_hub "b" ∷ new_hub "c" ∷ []

abbrev settings : Settings
settings = record { max_failures = 3; timeout = 5 }

-- only the hub `b` is up
abbrev only_b : String → Option Json
only_b url = if url == "b" then some (str "ok") else none

-- the first draw picks `a`, the others `b`
abbrev draws : ℕ → ℕ
draws n = if leb 2 n then 0 else 1

failover : (send settings only_b draws hubs).2 ≡ replied "b" (str "ok")
unfolding send attempt pick_hub healthy_from str_dec
failover = refl

send-Done_example :
    let (_, urls, ended) = send settings only_b draws hubs in Done only_b 3 urls ended
send-Done_example = send-Done settings only_b draws hubs

send-all_failed_example :
    let (_, urls, ended) = send settings only_b (λ _. 0) hubs in
    (urls ≡ "a" ∷ []) × (ended ≡ all_failed)
unfolding str_dec
send-all_failed_example =
    send-all_failed settings only_b (new_hub "a") (new_hub "b" ∷ new_hub "c" ∷ []) refl refl
      (omega arith)
