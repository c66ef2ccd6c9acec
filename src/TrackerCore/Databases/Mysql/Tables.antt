-- ===== src/TrackerCore/Databases/Mysql/Tables.antt =====
-- packages/tracker-core/src/databases/driver/mysql.rs: the tables of the driver are made and dropped.
use torrust_tracker.Prelude.{Option, none, some, List, [], ◌∷◌, Result, ok, err, codes}
use torrust_tracker.TrackerCore.Authentication.Key.{auth_key_length}
use torrust_tracker.TrackerCore.Databases.{Error, my_sql, connection_pool}
use torrust_tracker.TrackerCore.Databases.Rusqlite.{whitelist_table, keys_table, torrents_table}
use torrust_tracker.TrackerCore.Databases.MysqlCrate.{
  Column, int, varchar, not_null, unique, primary_key, auto_increment, default_zero, Definition,
  create_table_if_not_exists, drop_table, valid_until_name, Engine,
}

abbrev info_hash_column : Column
info_hash_column = record {
  name = codes "info_hash";
  column_type = varchar 40;
  attributes = not_null ∷ unique ∷ [];
}

abbrev id_column : Column
id_column = record {
  name = codes "id";
  column_type = int none;
  attributes = primary_key ∷ auto_increment ∷ [];
}

unfoldable pub create_whitelist_table : List Column
create_whitelist_table = id_column ∷ info_hash_column ∷ []

unfoldable pub create_torrents_table : List Column
create_torrents_table =
    id_column
    ∷ info_hash_column
    ∷ record {
      name = codes "completed";
      column_type = int none;
      attributes = default_zero ∷ not_null ∷ [];
    }
    ∷ []

unfoldable pub create_keys_table : List Column
create_keys_table =
    record {
      name = codes "id";
      column_type = int none;
      attributes = not_null ∷ auto_increment ∷ primary_key ∷ [];
    }
    ∷ record {
      name = codes "key";
      column_type = varchar auth_key_length;
      attributes = not_null ∷ unique ∷ [];
    }
    ∷ record { name = valid_until_name; column_type = int (some 10); attributes = [] }
    ∷ []

module _ (E : Engine) where
  -- `conn.query_drop(..).expect(..)`, and what follows.
  abbrev expected {ℓ} :
      {A : Type ℓ}
      → Result E.SqlError (Unit {0}) × E.Db
      → (E.Db → Option A × E.Db)
      → Option A × E.Db
  expected (err e, db) next = (none, db)
  expected (ok u, db) next = next db

  -- The statements in their order, and `Ok(())`.
  unfoldable pub query_each : List Definition → E.Db → Option (Result Error (Unit {0})) × E.Db
  query_each [] db = (some (ok tt), db)
  query_each (d ∷ ds) db = expected (E.query_drop d db) (λ db'. query_each ds db')

  unfoldable pub connected : List Definition → E.Db → Option (Result Error (Unit {0})) × E.Db
  unfolding query_each
  connected ds db = elim (E.get db) [
    | err e ↦ (some (err (connection_pool my_sql)), db)
    | ok conn ↦ query_each ds db
  ]

  unfoldable pub create_database_tables : E.Db → Option (Result Error (Unit {0})) × E.Db
  unfolding connected
  create_database_tables = connected (
      create_table_if_not_exists torrents_table create_torrents_table
      ∷ create_table_if_not_exists keys_table create_keys_table
      ∷ create_table_if_not_exists whitelist_table create_whitelist_table
      ∷ [])

  unfoldable pub drop_database_tables : E.Db → Option (Result Error (Unit {0})) × E.Db
  unfolding connected
  drop_database_tables =
      connected
        (drop_table whitelist_table ∷ drop_table torrents_table ∷ drop_table keys_table ∷ [])
