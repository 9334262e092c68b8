-- ===== src/Types/Sqlite/Tests.antt =====
-- A table for the tests, and concrete instances.
use roar_protocol.Base.{◌≡◌, refl, none, some, List, [], ◌∷◌, if◌then◌else◌, ◌==◌, arith, str_dec}
use roar_protocol.Base.Dict.{
  Dict, insert, erase, lookup, values, contains, lookup-insert, lookup-erase,
}
use roar_protocol.Types.Samples.{alice, bob, card_of}
use roar_protocol.Json.{finite}
use roar_protocol.Types.{DiscoveryEntry}
use roar_protocol.Types.Directory.{find_entry, new_entry}
use roar_protocol.Types.Directory
use roar_protocol.Types.Sqlite.{Row, Database, CardJson, register, lookup_row}
use roar_protocol.Types.Sqlite.Refine.{
  IsTable, Op, registers, unregisters, looks_up, addresses, entry, found, forget_all, Refines,
  run_memory, run_sqlite, run_sqlite-run_memory,
}

-- rows in a dict
abbrev rows_db : Database
rows_db = record {
  Table = Dict Row;
  replace = λ row t. insert row.did row t;
  delete = λ key t. (erase key t, if contains key t then 1 else 0);
  select = λ did t. lookup did t;
  rows = λ t. values t;
}

rows_db-IsTable : IsTable rows_db
rows_db-IsTable = record {
  select-replace = λ did row t. lookup-insert did row.did row t;
  select-delete = λ did key t. lookup-erase did key t;
  delete-counts = λ key t. ground arith;
}

-- cards by the name of their agent
abbrev names : CardJson
names = record {
  dump = λ c. c.identity.did;
  validate = λ s.
      if s == alice.did
      then some (card_of alice)
      else if s == bob.did
      then some (card_of bob)
      else none;
}

abbrev calls : List Op
calls =
    registers (card_of alice) 1 2 1
    ∷ addresses alice.did "http://hub"
    ∷ looks_up alice.did
    ∷ unregisters alice.did
    ∷ looks_up alice.did
    ∷ unregisters bob.did
    ∷ []

nothing-Refines : Refines rows_db names [] []
unfolding lookup_row find_entry
nothing-Refines did = refl

-- The address is there in memory, and lost in SQLite.
abbrev addressed : List Op
addressed =
    registers (card_of alice) 1 1 1 ∷ addresses alice.did "http://hub" ∷ looks_up alice.did ∷ []

abbrev filed : DiscoveryEntry
filed = record {
  agent_card = card_of alice;
  registered_at = finite 1;
  last_seen = finite 1;
  hub_url = "";
}

address_kept :
    run_memory addressed []
    ≡ entry filed ∷ found (some (record filed { hub_url = "http://hub" })) ∷ []
unfolding run_memory Directory.register find_entry new_entry str_dec
address_kept = refl

address_lost : run_sqlite rows_db names addressed [] ≡ entry filed ∷ found (some filed) ∷ []
unfolding run_sqlite register lookup_row new_entry str_dec
address_lost = refl

run_sqlite-run_memory_example :
    forget_all (run_sqlite rows_db names calls []) ≡ forget_all (run_memory calls [])
unfolding str_dec
run_sqlite-run_memory_example =
    run_sqlite-run_memory rows_db names calls [] [] rows_db-IsTable
      (refl, (tt, (tt, (tt, (tt, (tt, tt)))))) nothing-Refines
