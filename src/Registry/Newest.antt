-- ===== src/Registry/Newest.antt =====
-- The registrations that the registry holds.
use roar_protocol.Base.{
  ℕ, ◌≤◌, String, ◌≡◌, none, some, List, [], ◌∷◌, arith, if◌then◌else◌, ◌==◌, All, Option-cases,
  Bool-cases, inl, inr,
}
use roar_protocol.Base.Dict.{lookup, lookup-insert}
use roar_protocol.Json.{Number, finite, not_a_number}
use roar_protocol.Types.{DiscoveryEntry}
use roar_protocol.Registry.{
  RegistryEntry, Registry, from_discovery_entry, is_newer, ingest_entry, time_or,
}

-- One entry that comes in, with its hub and the readings of the clock.
pub record Incoming : Type 0 where
  pub discovered : DiscoveryEntry
  pub hub_url : String
  pub registered : ℕ
  pub seen : ℕ

abbrev pub did_of : Incoming → String
did_of i = i.discovered.agent_card.identity.did

abbrev pub time_of : Incoming → Number
time_of i = time_or i.registered i.discovered.registered_at

abbrev pub ingest : Incoming → Registry → Registry
ingest i r = ingest_entry i.discovered i.hub_url i.registered i.seen r

unfoldable pub ingest_all : List Incoming → Registry → Registry
ingest_all [] r = r
ingest_all (i ∷ is) r = ingest_all is (ingest i r)

-- The second time is as late as the first, or one of them is NaN.
abbrev pub AsLate : Number → Number → Type 0
AsLate (finite a) (finite b) = a ≤ b
AsLate _ _ = Unit

AsLate-refl : (t : Number) → AsLate t t
AsLate-refl (finite t) = omega arith
AsLate-refl not_a_number = tt

-- The agent of a DID is held with a registration as late as that time.
abbrev pub Holds : String → Number → Registry → Type 0
Holds did t r = (e : RegistryEntry) × (lookup did r.agents ≡ some e) × AsLate t e.registered_at

-- Table and directory have the same agents, with the same cards.
abbrev pub InStep : Registry → Type 0
InStep r =
    (did : String)
    → elim (lookup did r.agents) [ none ↦ none | some e ↦ some e.agent_card ]
      ≡ elim (lookup did r.directory) [ none ↦ none | some e ↦ some e.agent_card ]

lookup-ingest :
    (did : String) (i : Incoming) (r : Registry)
    → let new = from_discovery_entry i.discovered i.hub_url i.registered i.seen in
      lookup did (ingest i r).agents ≡ (
        if did == did_of i
        then if is_newer new (lookup (did_of i) r.agents) then some new else lookup did r.agents
        else lookup did r.agents)
unfolding ingest_entry
lookup-ingest did i r =
    let new = from_discovery_entry i.discovered i.hub_url i.registered i.seen in
    ground (arith, lookup-insert did (did_of i) new r.agents)

Holds-ingest :
    (did : String) (t : Number) (i : Incoming) (r : Registry)
    → Holds did t r
    → Holds did t (ingest i r)
unfolding from_discovery_entry
Holds-ingest did t i r h =
    let new = from_discovery_entry i.discovered i.hub_url i.registered i.seen in
    let look = lookup-ingest did i r in
    let (e, there, late) = h in
    elim (Bool-cases (did == did_of i)) [
      | inr other ↦ (e, ground (arith, look, other, there), late)
      | inl it ↦ elim (Bool-cases (is_newer new (lookup (did_of i) r.agents))) [
        | inl newer ↦ (new, ground (arith, look, it, newer), ground (arith, it, newer, there, late))
        | inr older ↦ (e, ground (arith, look, it, older, there), late)
      ]
    ]

Holds-self : (i : Incoming) (r : Registry) → Holds (did_of i) (time_of i) (ingest i r)
unfolding from_discovery_entry
Holds-self i r =
    let new = from_discovery_entry i.discovered i.hub_url i.registered i.seen in
    let look = lookup-ingest (did_of i) i r in
    elim (Bool-cases (is_newer new (lookup (did_of i) r.agents))) [
      | inl newer ↦ (new, ground (arith, look, newer), AsLate-refl (time_of i))
      | inr older ↦ elim (Option-cases (lookup (did_of i) r.agents)) [
        | inl absent ↦ absurd (ground (arith, older, absent))
        | inr (e, there) ↦ (e, ground (arith, look, older, there), ground (arith, older, there))
      ]
    ]

InStep-ingest : (i : Incoming) (r : Registry) → InStep r → InStep (ingest i r)
unfolding ingest_entry from_discovery_entry
InStep-ingest i r h did =
    let new = from_discovery_entry i.discovered i.hub_url i.registered i.seen in
    elim (Bool-cases (is_newer new (lookup (did_of i) r.agents))) [
      | inl newer ↦ ground (
        arith,
        newer,
        h did,
        lookup-insert did (did_of i) new r.agents,
        lookup-insert did (did_of i) i.discovered r.directory,
      )
      | inr older ↦ ground (arith, older, h did)
    ]

Holds-ingest_all :
    (did : String) (t : Number) (is : List Incoming) (r : Registry)
    → Holds did t r
    → Holds did t (ingest_all is r)
unfolding ingest_all
Holds-ingest_all did t [] r h = h
Holds-ingest_all did t (i ∷ is) r h =
    Holds-ingest_all did t is (ingest i r) (Holds-ingest did t i r h)

newest :
    (is : List Incoming) (r : Registry)
    → All (λ i. Holds (did_of i) (time_of i) (ingest_all is r)) is
unfolding ingest_all
newest [] r = tt
newest (i ∷ is) r = (
  Holds-ingest_all (did_of i) (time_of i) is (ingest i r) (Holds-self i r),
  newest is (ingest i r),
)

in_step : (is : List Incoming) (r : Registry) → InStep r → InStep (ingest_all is r)
unfolding ingest_all
in_step [] r h = h
in_step (i ∷ is) r h = in_step is (ingest i r) (InStep-ingest i r h)

-- After any entries, from whatever hubs and in whatever order, the registry holds every agent of
-- them with a registration that is as late as each of its own, where neither time is NaN, and it
-- never goes back from one time to an earlier one; table and directory have the same agents with the
-- same cards, where they had before.
pub ingest_all-Holds :
    (is : List Incoming) (r : Registry)
    → InStep r
    → All (λ i. Holds (did_of i) (time_of i) (ingest_all is r)) is
      × ((did : String) (t : Number) → Holds did t r → Holds did t (ingest_all is r))
      × InStep (ingest_all is r)
ingest_all-Holds is r h =
    (newest is r, (λ did t kept. Holds-ingest_all did t is r kept), in_step is r h)
