-- ===== src/Registry/Tests.antt =====
-- Tests and concrete instances for the registry.
use roar_protocol.Base.{ℕ, String, ◌≡◌, refl, some, List, [], ◌∷◌, All, str_dec}
use roar_protocol.Base.Dict.{lookup}
use roar_protocol.Json.{Number, finite, not_a_number}
use roar_protocol.Types.Samples.{alice, entry_of}
use roar_protocol.Registry.{Registry, from_discovery_entry, ingest_entry, add_protocols}
use roar_protocol.Registry.Newest.{
  Incoming, did_of, time_of, Holds, InStep, ingest_all, ingest_all-Holds,
}

abbrev empty : Registry
empty = record { hubs = []; agents = []; directory = [] }

-- alice's entry at a time, from a hub
abbrev at : ℕ → String → Incoming
at t hub = record {
  discovered = record (entry_of alice) { registered_at = finite t };
  hub_url = hub;
  registered = 0;
  seen = 0;
}

abbrev entries : List Incoming
entries = at 5 "http://a" ∷ at 9 "http://b" ∷ at 7 "http://c" ∷ []

newest_wins :
    lookup alice.did (ingest_all entries empty).agents
    ≡ some (from_discovery_entry (at 9 "http://b").discovered "http://b" 0 0)
unfolding ingest_all ingest_entry from_discovery_entry add_protocols str_dec
newest_wins = refl

-- A registration at a time that is NaN is never replaced.
nan_stays :
    lookup alice.did
      (ingest_all
        (record (at 0 "http://a") {
          discovered = record (entry_of alice) { registered_at = not_a_number };
        }
          ∷ at 9 "http://b"
          ∷ [])
        empty).agents
    ≡ some (
        from_discovery_entry
          (record (entry_of alice) { registered_at = not_a_number })
          "http://a"
          0
          0)
unfolding ingest_all ingest_entry from_discovery_entry add_protocols str_dec
nan_stays = refl

empty-InStep : InStep empty
empty-InStep did = refl

ingest_all-Holds_example :
    All (λ i. Holds (did_of i) (time_of i) (ingest_all entries empty)) entries
    × ((did : String) (t : Number) → Holds did t empty → Holds did t (ingest_all entries empty))
    × InStep (ingest_all entries empty)
ingest_all-Holds_example = ingest_all-Holds entries empty empty-InStep
