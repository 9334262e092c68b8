-- ===== src/Types/Sqlite.antt =====
-- `SQLiteAgentDirectory` of python/src/roar_sdk/sqlite_directory.py. The database is a parameter: its
-- operations are the statements that the code executes on the table `agents`.
pub mod Refine
mod Tests
use roar_protocol.Base.{
  ℕ, String, Bool, Option, none, some, List, [], ◌∷◌, if◌then◌else◌, elem, ◌==◌, ◌≡◌, ltb, Bool,
  true, false,
}
use roar_protocol.Json.{finite}
use roar_protocol.Types.{AgentCard, DiscoveryEntry}
use roar_protocol.Types.Directory.{new_entry, declares}

pub record Row : Type 0 where
  pub did : String
  pub card_json : String
  pub registered_at : ℕ
  pub last_seen : ℕ
  pub hub_url : String

-- `did` is the primary key: `replace` is INSERT OR REPLACE, `delete` gives the number of rows that
-- it removed, `select` is the row of a key, and `rows` are all of them.
pub record Database : Type 1 where
  pub Table : Type 0
  pub replace : Row → Table → Table
  pub delete : String → Table → Table × ℕ
  pub select : String → Table → Option Row
  pub rows : Table → List Row

-- `model_dump_json` and `model_validate_json`, none where it raises
pub record CardJson : Type 0 where
  pub dump : AgentCard → String
  pub validate : String → Option AgentCard

module _ (db : Database) (json : CardJson) where
  -- The card and its time go into the row, with an empty address.
  unfoldable pub register : AgentCard → ℕ → db.Table → db.Table × DiscoveryEntry
  register card now table = (
    db.replace
        (record {
          did = card.identity.did;
          card_json = json.dump card;
          registered_at = now;
          last_seen = now;
          hub_url = "";
        })
        table,
    new_entry card now now,
  )

  unfoldable pub unregister : String → db.Table → db.Table × Bool
  unregister did table = let (table', count) = db.delete did table in (table', ltb 0 count)

  -- none where the card in the row does not parse and the call raises
  abbrev pub row_to_entry : Row → Option DiscoveryEntry
  row_to_entry row = elim (json.validate row.card_json) [
    | none ↦ none
    | some card ↦ some (record {
      agent_card = card;
      registered_at = finite row.registered_at;
      last_seen = finite row.last_seen;
      hub_url = row.hub_url;
    })
  ]

  -- The entry if there is one; the outer none where the call raises.
  unfoldable pub lookup_row : String → db.Table → Option (Option DiscoveryEntry)
  lookup_row did table = elim (db.select did table) [
    | none ↦ some none
    | some row ↦ elim (row_to_entry row) [ none ↦ none | some entry ↦ some (some entry) ]
  ]

  abbrev pub entries : List Row → Option (List DiscoveryEntry)
  entries [] = some []
  entries (row ∷ rows) = elim (row_to_entry row) [
    | none ↦ none
    | some entry ↦ elim (entries rows) [ none ↦ none | some es ↦ some (entry ∷ es) ]
  ]

  unfoldable pub list_all : db.Table → Option (List DiscoveryEntry)
  list_all table = entries (db.rows table)

  abbrev pub declaring : String → List Row → Option (List DiscoveryEntry)
  declaring capability [] = some []
  declaring capability (row ∷ rows) = elim (row_to_entry row) [
    | none ↦ none
    | some entry ↦ elim (declaring capability rows) [
      | none ↦ none
      | some es ↦ some (if declares capability entry then entry ∷ es else es)
    ]
  ]

  unfoldable pub search : String → db.Table → Option (List DiscoveryEntry)
  search capability table = declaring capability (db.rows table)
