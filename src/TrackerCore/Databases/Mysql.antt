-- ===== src/TrackerCore/Databases/Mysql.antt =====
-- packages/tracker-core/src/databases/driver/mysql.rs: the driver of the database MySQL.
pub mod Changes
pub mod Store
pub mod Tables
pub mod Columns
use torrust_tracker.Prelude.{ℕ, Option, none, some, List, [], ◌∷◌, Result, ok, err, ◌>>=◌, ℤ, Text}
use mathlib.Core.Option
use torrust_tracker.OrderedMap
use torrust_tracker.OrderedMap.{Map}
use torrust_tracker.TrackerCore.Authentication.Key
use torrust_tracker.TrackerCore.Authentication.Key.{PeerKey, as_secs}
use torrust_tracker.TrackerCore.Databases.{
  Error, my_sql, invalid_query, connection_pool, InfoHashText,
}
use torrust_tracker.TrackerCore.Databases.Rows.{Answer, key_of_row}
use torrust_tracker.TrackerCore.Databases.Rusqlite.{
  Statement, insert_whitelist, delete_whitelist, insert_key, delete_key, upsert_torrent,
}
use torrust_tracker.TrackerCore.Databases.MysqlCrate.{Engine}

module _ (H : InfoHashText) (E : Engine) where
  -- `From<mysql::Error>`
  abbrev pub from_mysql : E.SqlError → Error
  from_mysql e = invalid_query my_sql

  -- `self.pool.get().map_err(|e| (e, DRIVER))?` before a query.
  unfoldable pub with_connection : {A : Type 0} → E.Db → Answer A → Answer A
  with_connection db query = elim (E.get db) [
    | err e ↦ some (err (connection_pool my_sql))
    | ok conn ↦ query
  ]

  abbrev both : {A : Type 0} → Option A → Option (List A) → Option (List A)
  both none rest = none
  both (some a) none = none
  both (some a) (some rest) = some (a ∷ rest)

  -- The rows through a closure that may panic.
  unfoldable pub map_rows : {R A : Type 0} → (R → Option A) → List R → Option (List A)
  map_rows f [] = some []
  map_rows f (row ∷ rows) = let rest = map_rows f rows in both (f row) rest

  -- `conn.query_map(..)?`
  unfoldable pub query_map :
      {R A : Type 0} → Result E.SqlError (List R) → (R → Option A) → Answer (List A)
  unfolding map_rows
  query_map (err e) f = some (err (from_mysql e))
  query_map (ok rows) f = Option.map ok (map_rows f rows)

  unfoldable pub load_whitelist : E.Db → Answer (List ℕ)
  unfolding with_connection query_map
  load_whitelist db = with_connection db (query_map (E.select_whitelist db) H.from_str)

  abbrev torrent_row : Text × ℕ → Option (ℕ × ℕ)
  torrent_row row = Option.map (λ info_hash. (info_hash, row.1)) (H.from_str row.0)

  -- `collect()` into a `BTreeMap`.
  unfoldable pub collect_map : Map ℕ → List (ℕ × ℕ) → Map ℕ
  collect_map m [] = m
  collect_map m ((k, n) ∷ l) = collect_map (OrderedMap.insert k n m) l

  unfoldable pub load_persistent_torrents : E.Db → Answer (Map ℕ)
  unfolding with_connection query_map collect_map
  load_persistent_torrents db = with_connection db (
      Option.map (λ r. r >>= λ l. ok (collect_map [] l))
        (query_map (E.select_torrents db) torrent_row))

  unfoldable pub load_keys : E.Db → Answer (List PeerKey)
  unfolding with_connection query_map key_of_row
  load_keys db =
      with_connection db
        (query_map (E.select_keys db) (λ (row : Text × Option ℤ). key_of_row row.0 row.1))

  abbrev first : {R A : Type 0} → (R → Option A) → Result E.SqlError (Option R) → Answer (Option A)
  first f (err e) = some (err (from_mysql e))
  first f (ok none) = some (ok none)
  first f (ok (some row)) = Option.map (λ a. ok (some a)) (f row)

  unfoldable pub get_info_hash_from_whitelist : ℕ → E.Db → Answer (Option ℕ)
  unfolding with_connection
  get_info_hash_from_whitelist info_hash db =
      with_connection db (first H.from_str (E.select_whitelist_row (H.to_hex_string info_hash) db))

  unfoldable pub get_key_from_keys : Key.Key → E.Db → Answer (Option PeerKey)
  unfolding with_connection key_of_row
  get_key_from_keys key db =
      with_connection db
        (first (λ (row : Text × Option ℤ). key_of_row row.0 row.1) (E.select_key_row key.value db))

  -- `conn.exec_drop(..)?` after `pool.get()`, and `Ok(a)`.
  abbrev dropped : {A : Type 0} → A → Result E.SqlError (Unit {0}) × E.Db → Result Error A × E.Db
  dropped a (err e, db) = (err (from_mysql e), db)
  dropped a (ok u, db) = (ok a, db)

  unfoldable pub change : {A : Type 0} → Statement → A → E.Db → Result Error A × E.Db
  change st a db = elim (E.get db) [
    | err e ↦ (err (connection_pool my_sql), db)
    | ok conn ↦ dropped a (E.exec_drop st db)
  ]

  unfoldable pub save_persistent_torrent : ℕ → ℕ → E.Db → Result Error (Unit {0}) × E.Db
  unfolding change
  save_persistent_torrent info_hash completed =
      change (upsert_torrent (H.to_string info_hash) completed) tt

  unfoldable pub add_info_hash_to_whitelist : ℕ → E.Db → Result Error ℕ × E.Db
  unfolding change
  add_info_hash_to_whitelist info_hash = change (insert_whitelist (H.to_string info_hash)) 1

  unfoldable pub remove_info_hash_from_whitelist : ℕ → E.Db → Result Error ℕ × E.Db
  unfolding change
  remove_info_hash_from_whitelist info_hash = change (delete_whitelist (H.to_string info_hash)) 1

  -- A key without an expiry is inserted without its column, which is null then.
  unfoldable pub add_key_to_keys : PeerKey → E.Db → Result Error ℕ × E.Db
  unfolding change
  add_key_to_keys auth_key =
      change (insert_key auth_key.key.value (Option.map as_secs auth_key.valid_until)) 1

  unfoldable pub remove_key_from_keys : Key.Key → E.Db → Result Error ℕ × E.Db
  unfolding change
  remove_key_from_keys key = change (delete_key key.value) 1
