-- ===== src/TrackerCore/Databases/Sqlite.antt =====
-- packages/tracker-core/src/databases/driver/sqlite.rs: the driver of the database SQLite3.
pub mod WellFormed
pub mod Collect
pub mod Queries
pub mod Writes
pub mod Store
pub mod Runs
use torrust_tracker.Prelude.{
  ℕ, ◌≤◌, ◌<◌, ◌^◌, ◌≡◌, ◌≢◌, Bool, true, false, ◌||◌, Option, none, some, List, [], ◌∷◌, map,
  Result, ok, err, ℤ, pos, ◌==◌, if◌then◌else◌, ◌>>=◌, Text, text_eq, text_eq_instance,
}
use mathlib.Core.Option
use torrust_tracker.TrackerCore.Whitelist.{is_some}
use torrust_tracker.HashMap
use torrust_tracker.HashMap.{HashMap}
use torrust_tracker.OrderedMap
use torrust_tracker.OrderedMap.{Map}
use torrust_tracker.TrackerCore.Authentication.Key
use torrust_tracker.TrackerCore.Authentication.Key.{PeerKey, as_secs}
use torrust_tracker.TrackerCore.Databases.{
  Error, sqlite3, query_returned_no_rows, invalid_query, insert_failed, delete_failed,
  connection_pool, InfoHashText,
}
use torrust_tracker.TrackerCore.Databases.Rows.{Answer, has_text, IsUnique, collect_ok, key_of_row}
use torrust_tracker.TrackerCore.Databases.Rusqlite.{
  Value, null, real, integer, text, Statement, insert_whitelist, delete_whitelist, insert_key,
  delete_key, upsert_torrent, Engine,
}

module _ (H : InfoHashText) (E : Engine) where
  -- `From<rusqlite::Error>`
  unfoldable pub from_rusqlite : E.SqlError → Error
  from_rusqlite e =
      if E.is_query_returned_no_rows e
      then query_returned_no_rows sqlite3
      else invalid_query sqlite3

  -- `self.pool.get().map_err(|e| (e, DRIVER))?` before a query.
  unfoldable pub with_connection : {A : Type 0} → E.Db → Answer A → Answer A
  with_connection db query = elim (E.get db) [
    | err e ↦ some (err (connection_pool sqlite3))
    | ok conn ↦ query
  ]

  -- The closure of a query over the rows, and its results without the errors.
  unfoldable pub query_map :
      {R A : Type 0}
      → Result E.SqlError (List R)
      → (R → Option (Result E.SqlError A))
      → Answer (List A)
  unfolding from_rusqlite
  query_map (err e) f = some (err (from_rusqlite e))
  query_map (ok rows) f = Option.map ok (collect_ok f rows)

  -- `InfoHash::from_str(..).unwrap()`
  abbrev info_hash_of_row :
      {A : Type 0}
      → (ℕ → Result E.SqlError A)
      → Result E.SqlError Text
      → Option (Result E.SqlError A)
  info_hash_of_row f (err e) = some (err e)
  info_hash_of_row f (ok t) = Option.map f (H.from_str t)

  abbrev whitelist_row : Value → Option (Result E.SqlError ℕ)
  whitelist_row v = info_hash_of_row ok (E.get_string v)

  unfoldable pub load_whitelist : E.Db → Answer (List ℕ)
  unfolding with_connection query_map
  load_whitelist db = with_connection db (query_map (E.select_whitelist db) whitelist_row)

  abbrev torrent_row : Value × Value → Option (Result E.SqlError (ℕ × ℕ))
  torrent_row row =
      info_hash_of_row (λ info_hash. E.get_u32 row.1 >>= λ completed. ok (info_hash, completed))
        (E.get_string row.0)

  -- `collect()` into a `BTreeMap`: a later entry takes the place of an earlier one.
  unfoldable pub collect_map : Map ℕ → List (ℕ × ℕ) → Map ℕ
  collect_map m [] = m
  collect_map m ((k, n) ∷ l) = collect_map (OrderedMap.insert k n m) l

  unfoldable pub load_persistent_torrents : E.Db → Answer (Map ℕ)
  unfolding with_connection query_map collect_map
  load_persistent_torrents db = with_connection db (
      Option.map (λ r. r >>= λ l. ok (collect_map [] l))
        (query_map (E.select_torrents db) torrent_row))

  abbrev key_of_text : Value → Result E.SqlError Text → Option (Result E.SqlError PeerKey)
  key_of_text v (err e) = some (err e)
  key_of_text v (ok key) = elim (E.get_opt_i64 v) [
    | err e ↦ some (err e)
    | ok opt_valid_until ↦ Option.map ok (key_of_row key opt_valid_until)
  ]

  abbrev key_row : Value × Value → Option (Result E.SqlError PeerKey)
  key_row row = key_of_text row.1 (E.get_string row.0)

  unfoldable pub load_keys : E.Db → Answer (List PeerKey)
  unfolding with_connection query_map key_of_row
  load_keys db = with_connection db (query_map (E.select_keys db) key_row)

  -- `f.get_unwrap::<_, String>(0)` and `InfoHash::from_str(..).unwrap()`
  abbrev unwrapped_info_hash : Value → Option ℕ
  unwrapped_info_hash v = elim (E.get_string v) [ err e ↦ none | ok t ↦ H.from_str t ]

  abbrev first_info_hash : Result E.SqlError (Option Value) → Answer (Option ℕ)
  first_info_hash (err e) = some (err (from_rusqlite e))
  first_info_hash (ok none) = some (ok none)
  first_info_hash (ok (some v)) = Option.map (λ k. ok (some k)) (unwrapped_info_hash v)

  unfoldable pub get_info_hash_from_whitelist : ℕ → E.Db → Answer (Option ℕ)
  unfolding with_connection from_rusqlite
  get_info_hash_from_whitelist info_hash db =
      with_connection db (first_info_hash (E.select_whitelist_row (H.to_hex_string info_hash) db))

  -- The closure of `get_key_from_keys`: both `unwrap`s of the columns and that of `parse` panic.
  abbrev unwrapped_key : Value × Value → Option PeerKey
  unwrapped_key row = elim (E.get_opt_i64 row.1) [
    | err e ↦ none
    | ok valid_until ↦ elim (E.get_string row.0) [
      | err e ↦ none
      | ok key ↦ key_of_row key valid_until
    ]
  ]

  abbrev first_key : Result E.SqlError (Option (Value × Value)) → Answer (Option PeerKey)
  first_key (err e) = some (err (from_rusqlite e))
  first_key (ok none) = some (ok none)
  first_key (ok (some row)) = Option.map (λ p. ok (some p)) (unwrapped_key row)

  unfoldable pub get_key_from_keys : Key.Key → E.Db → Answer (Option PeerKey)
  unfolding with_connection from_rusqlite key_of_row
  get_key_from_keys key db = with_connection db (first_key (E.select_key_row key.value db))

  -- `conn.execute(..)?` after `pool.get()`, and the test on the number of changed rows.
  abbrev checked :
      {A : Type 0} → (ℕ → Result Error A) → Result E.SqlError ℕ × E.Db → Result Error A × E.Db
  checked test (err e, db) = (err (from_rusqlite e), db)
  checked test (ok n, db) = (test n, db)

  unfoldable pub change :
      {A : Type 0} → Statement → (ℕ → Result Error A) → E.Db → Result Error A × E.Db
  unfolding from_rusqlite
  change st test db = elim (E.get db) [
    | err e ↦ (err (connection_pool sqlite3), db)
    | ok conn ↦ checked test (E.execute st db)
  ]

  abbrev inserted : ℕ → Result Error ℕ
  inserted insert = if insert == 0 then err (insert_failed sqlite3) else ok insert

  abbrev deleted : ℕ → Result Error ℕ
  deleted n = if n == 1 then ok n else err (delete_failed n sqlite3)

  abbrev saved : ℕ → Result Error (Unit {0})
  saved insert = if insert == 0 then err (insert_failed sqlite3) else ok tt

  unfoldable pub save_persistent_torrent : ℕ → ℕ → E.Db → Result Error (Unit {0}) × E.Db
  unfolding change
  save_persistent_torrent info_hash completed =
      change (upsert_torrent (H.to_string info_hash) completed) saved

  unfoldable pub add_info_hash_to_whitelist : ℕ → E.Db → Result Error ℕ × E.Db
  unfolding change
  add_info_hash_to_whitelist info_hash = change (insert_whitelist (H.to_string info_hash)) inserted

  unfoldable pub remove_info_hash_from_whitelist : ℕ → E.Db → Result Error ℕ × E.Db
  unfolding change
  remove_info_hash_from_whitelist info_hash =
      change (delete_whitelist (H.to_string info_hash)) deleted

  unfoldable pub add_key_to_keys : PeerKey → E.Db → Result Error ℕ × E.Db
  unfolding change
  add_key_to_keys auth_key =
      change (insert_key auth_key.key.value (Option.map as_secs auth_key.valid_until)) inserted

  unfoldable pub remove_key_from_keys : Key.Key → E.Db → Result Error ℕ × E.Db
  unfolding change
  remove_key_from_keys key = change (delete_key key.value) deleted
