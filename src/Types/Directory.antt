-- ===== src/Types/Directory.antt =====
-- `AgentDirectory` of python/src/roar_sdk/types.py. A call that reads the clock for `registered_at`
-- and for `last_seen` takes both readings.
use roar_protocol.Base.{
  ℕ, String, ◌≡◌, Bool, true, Option, none, some, List, [], ◌∷◌, arith, elem, if◌then◌else◌,
  is_some, ◌==◌,
}
use roar_protocol.Base.Dict.{Dict, lookup, insert, erase, values, lookup-insert, lookup-erase}
use roar_protocol.Json.{finite}
use roar_protocol.Types.{AgentCard, DiscoveryEntry}

abbrev pub Directory : Type 0
Directory = Dict DiscoveryEntry

unfoldable pub new_entry : AgentCard → ℕ → ℕ → DiscoveryEntry
new_entry card registered_at last_seen = record {
  agent_card = card;
  registered_at = finite registered_at;
  last_seen = finite last_seen;
  hub_url = "";
}

unfoldable pub register : AgentCard → ℕ → ℕ → Directory → Directory × DiscoveryEntry
unfolding new_entry
register card registered_at last_seen d =
    let entry = new_entry card registered_at last_seen in (insert card.identity.did entry d, entry)

unfoldable pub unregister : String → Directory → Directory × Bool
unregister did d = (erase did d, is_some (lookup did d))

unfoldable pub find_entry : String → Directory → Option DiscoveryEntry
find_entry did d = lookup did d

-- the entries that declare a capability
abbrev pub declares : String → DiscoveryEntry → Bool
declares capability e = elem capability e.agent_card.identity.capabilities

unfoldable pub keep_if {ℓ} : {A : Type ℓ} → (A → Bool) → List A → List A
keep_if p [] = []
keep_if p (x ∷ xs) = if p x then x ∷ keep_if p xs else keep_if p xs

unfoldable pub search : String → Directory → List DiscoveryEntry
unfolding keep_if
search capability d = keep_if (declares capability) (values d)

unfoldable pub list_all : Directory → List DiscoveryEntry
list_all d = values d

-- After `register` a lookup of the card's DID gives the new entry, every other DID is looked up as
-- before; `unregister` then gives True and takes the DID out, and no other.
pub directory_lookup :
    (card : AgentCard) (r s : ℕ) (d : Directory) (j : String)
    → let (d', entry) = register card r s d in
      (find_entry j d' ≡ (if j == card.identity.did then some entry else find_entry j d))
      × ((unregister card.identity.did d').1 ≡ true)
      × (find_entry j (unregister card.identity.did d').0
          ≡ (if j == card.identity.did then none else find_entry j d))
unfolding register find_entry unregister
directory_lookup card r s d j =
    let did = card.identity.did in
    let entry = new_entry card r s in
    let d' = insert did entry d in
    (
      lookup-insert j did entry d,
      ground (arith, lookup-insert did did entry d),
      ground (arith, lookup-insert j did entry d, lookup-erase j did d'),
    )
