-- ===== src/Types/Sqlite/Refine.antt =====
-- The directory in SQLite against the one in memory.
use roar_protocol.Base.{
  ℕ, String, Bool, ◌≡◌, refl, Option, none, some, List, [], ◌∷◌, if◌then◌else◌, ◌==◌, ltb, arith,
  is_some, All, ◌∙◌, Option-cases, inl, inr,
}
use roar_protocol.Base.Dict.{lookup, insert, lookup-insert, lookup-erase}
use roar_protocol.Json.{finite}
use roar_protocol.Types.{AgentCard, DiscoveryEntry}
use roar_protocol.Types.Directory
use roar_protocol.Types.Directory.{Directory, find_entry, new_entry}
use roar_protocol.Types.Sqlite.{Row, Database, CardJson, register, unregister, lookup_row}

-- What the statements do, as SQLite documents them.
pub record IsTable (db : Database) : Type 0 where
  pub select-replace :
      (did : String) (row : Row) (t : db.Table)
      → db.select did (db.replace row t) ≡ (if did == row.did then some row else db.select did t)
  pub select-delete :
      (did key : String) (t : db.Table)
      → db.select did (db.delete key t).0 ≡ (if did == key then none else db.select did t)
  pub delete-counts :
      (key : String) (t : db.Table) → ltb 0 (db.delete key t).1 ≡ is_some (db.select key t)

-- A call of a directory. `registers` has the two readings of the clock that the directory in memory
-- makes, and the one that SQLite makes. `addresses` sets the `hub_url` of an entry that the directory
-- has returned: the entry in memory is the live one, the one from SQLite is a copy.
pub data Op : Type 0 where
  registers : AgentCard → ℕ → ℕ → ℕ → Op
  unregisters : String → Op
  looks_up : String → Op
  addresses : String → String → Op

pub data Answer : Type 0 where
  entry : DiscoveryEntry → Answer
  was_removed : Bool → Answer
  found : Option DiscoveryEntry → Answer
  raised : Answer

-- An entry without its times and its address, and an answer and a lookup with such entries.
abbrev pub forget : DiscoveryEntry → DiscoveryEntry
forget e = record e { registered_at = finite 0; last_seen = finite 0; hub_url = "" }

abbrev pub forget_found : Option DiscoveryEntry → Option DiscoveryEntry
forget_found none = none
forget_found (some e) = some (forget e)

abbrev pub forget_row : Option (Option DiscoveryEntry) → Option (Option DiscoveryEntry)
forget_row none = none
forget_row (some e) = some (forget_found e)

abbrev pub forget_answer : Answer → Answer
forget_answer (entry e) = entry (forget e)
forget_answer (was_removed b) = was_removed b
forget_answer (found e) = found (forget_found e)
forget_answer raised = raised

abbrev pub forget_all : List Answer → List Answer
forget_all [] = []
forget_all (a ∷ rest) = forget_answer a ∷ forget_all rest

-- a write to the live entry of a DID
abbrev pub set_hub_url : String → String → Directory → Directory
set_hub_url did url d = elim (find_entry did d) [
  | none ↦ d
  | some e ↦ insert did (record e { hub_url = url }) d
]

unfoldable pub run_memory : List Op → Directory → List Answer
run_memory [] d = []
run_memory (registers card registered_at last_seen now ∷ ops) d =
    let (d', e) = Directory.register card registered_at last_seen d in entry e ∷ run_memory ops d'
run_memory (unregisters did ∷ ops) d =
    let (d', b) = Directory.unregister did d in was_removed b ∷ run_memory ops d'
run_memory (looks_up did ∷ ops) d = found (find_entry did d) ∷ run_memory ops d
run_memory (addresses did url ∷ ops) d = run_memory ops (set_hub_url did url d)

module _ (db : Database) (json : CardJson) where
  unfoldable pub run_sqlite : List Op → db.Table → List Answer
  run_sqlite [] t = []
  run_sqlite (registers card registered_at last_seen now ∷ ops) t =
      let (t', e) = register db json card now t in entry e ∷ run_sqlite ops t'
  run_sqlite (unregisters did ∷ ops) t =
      let (t', b) = unregister db json did t in was_removed b ∷ run_sqlite ops t'
  run_sqlite (looks_up did ∷ ops) t =
      elim (lookup_row db json did t) [ none ↦ raised | some e ↦ found e ] ∷ run_sqlite ops t
  run_sqlite (addresses did url ∷ ops) t = run_sqlite ops t

  -- The table holds the agents and the cards that the directory in memory does.
  abbrev pub Refines : db.Table → Directory → Type 0
  Refines t d =
      (did : String)
      → forget_row (lookup_row db json did t) ≡ some (forget_found (find_entry did d))

  Refines-register :
      (card : AgentCard) (r s now : ℕ) (t : db.Table) (d : Directory)
      → IsTable db
      → json.validate (json.dump card) ≡ some card
      → Refines t d
      → Refines (register db json card now t).0 (Directory.register card r s d).0
  unfolding register lookup_row find_entry Directory.register new_entry
  Refines-register card r s now t d table round rel did =
      let row : Row = record {
        did = card.identity.did;
        card_json = json.dump card;
        registered_at = now;
        last_seen = now;
        hub_url = "";
      } in
      ground (
        arith,
        table.select-replace did row t,
        round,
        rel did,
        lookup-insert did card.identity.did (new_entry card r s) d,
      )

  is_some-Refines :
      (did : String) (t : db.Table) (d : Directory)
      → Refines t d
      → is_some (db.select did t) ≡ is_some (find_entry did d)
  unfolding lookup_row
  is_some-Refines did t d rel = elim (Option-cases (db.select did t)) [
    | inl absent ↦ elim (Option-cases (find_entry did d)) [
      | inl absent' ↦ ground arith
      | inr (e, there) ↦ absurd (ground (arith, rel did))
    ]
    | inr (row, there) ↦ elim (Option-cases (find_entry did d)) [
      | inl absent ↦ absurd (ground (arith, rel did))
      | inr (e, there') ↦ ground arith
    ]
  ]

  Refines-unregister :
      (key : String) (t : db.Table) (d : Directory)
      → IsTable db
      → Refines t d
      → Refines (unregister db json key t).0 (Directory.unregister key d).0
        × ((unregister db json key t).1 ≡ (Directory.unregister key d).1)
  unfolding unregister lookup_row find_entry Directory.unregister
  Refines-unregister key t d table rel = (
    λ did. ground (arith, table.select-delete did key t, rel did, lookup-erase did key d),
    table.delete-counts key t ∙ is_some-Refines key t d rel,
  )

  Refines-set_hub_url :
      (key url : String) (t : db.Table) (d : Directory)
      → Refines t d
      → Refines t (set_hub_url key url d)
  unfolding find_entry
  Refines-set_hub_url key url t d rel did = elim (Option-cases (lookup key d)) [
    | inl absent ↦ ground (arith, rel did)
    | inr (e, there) ↦ ground (arith, rel did, lookup-insert did key (record e { hub_url = url }) d)
  ]

  answer-Refines :
      (did : String) (t : db.Table) (d : Directory)
      → Refines t d
      → forget_answer (elim (lookup_row db json did t) [ none ↦ raised | some e ↦ found e ])
        ≡ forget_answer (found (find_entry did d))
  answer-Refines did t d rel = elim (Option-cases (lookup_row db json did t)) [
    | inl bad ↦ absurd (ground (arith, rel did))
    | inr (e, there) ↦ ground (arith, rel did)
  ]

  register-entry :
      (card : AgentCard) (r s now : ℕ) (t : db.Table) (d : Directory)
      → forget (register db json card now t).1 ≡ forget (Directory.register card r s d).1
  unfolding register Directory.register new_entry
  register-entry card r s now t d = refl

  -- The card of a call is read back as it was written.
  abbrev pub Reads : Op → Type 0
  Reads (registers card registered_at last_seen now) = json.validate (json.dump card) ≡ some card
  Reads _ = Unit

  -- Apart from the times and the addresses of the entries, the directory in SQLite gives the answers
  -- of the one in memory, whatever calls of `register`, `unregister` and `lookup` and writes of a
  -- `hub_url` to returned entries a client makes, at whatever readings of the clock, from a table
  -- that holds the agents and cards of the directory; the cards that it registers are read back as
  -- they were written.
  pub run_sqlite-run_memory :
      (ops : List Op) (t : db.Table) (d : Directory)
      → IsTable db
      → All Reads ops
      → Refines t d
      → forget_all (run_sqlite ops t) ≡ forget_all (run_memory ops d)
  unfolding run_sqlite run_memory
  run_sqlite-run_memory [] t d table round rel = refl
  run_sqlite-run_memory (registers card r s now ∷ ops) t d table round rel =
      let rest =
        run_sqlite-run_memory ops (register db json card now t).0 (Directory.register card r s d).0
          table round.1 (Refines-register card r s now t d table round.0 rel) in
      rw (rest, register-entry card r s now t d) refl
  run_sqlite-run_memory (unregisters key ∷ ops) t d table round rel =
      let (rel', same) = Refines-unregister key t d table rel in
      let rest =
        run_sqlite-run_memory ops (unregister db json key t).0 (Directory.unregister key d).0 table
          round.1 rel' in
      rw (rest, same) refl
  run_sqlite-run_memory (looks_up did ∷ ops) t d table round rel =
      rw (run_sqlite-run_memory ops t d table round.1 rel, answer-Refines did t d rel) refl
  run_sqlite-run_memory (addresses key url ∷ ops) t d table round rel =
      run_sqlite-run_memory ops t (set_hub_url key url d) table round.1
        (Refines-set_hub_url key url t d rel)
