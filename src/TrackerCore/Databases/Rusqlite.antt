-- ===== src/TrackerCore/Databases/Rusqlite.antt =====
-- What packages/tracker-core/src/databases/driver/sqlite.rs uses of the crates r2d2 and rusqlite and
-- of the database itself.
use torrust_tracker.Prelude.{
  ℕ, ◌≤◌, ◌<◌, ◌^◌, ◌≡◌, ◌≢◌, Bool, false, ◌||◌, Option, none, some, List, map, Result, ok, err, ℤ,
  pos, if◌then◌else◌, Text, text_eq, text_eq_instance,
}
use mathlib.Core.Option
use torrust_tracker.TrackerCore.Whitelist.{is_some}
use torrust_tracker.HashMap
use torrust_tracker.HashMap.{HashMap}
use torrust_tracker.TrackerCore.Databases.Rows.{has_text, IsUnique}

-- The values of a column.
pub data Value : Type 0 where
  null real : Value
  integer : ℤ → Value
  text : Text → Value

-- The statements that change rows, with what is bound to their parameters. A number is bound by its
-- decimal digits.
pub data Statement : Type 0 where
  insert_whitelist delete_whitelist : Text → Statement
  insert_key : Text → Option ℕ → Statement
  delete_key : Text → Statement
  upsert_torrent : Text → ℕ → Statement

pub data Table : Type 0 where
  whitelist_table keys_table torrents_table : Table

abbrev pub table_of : Statement → Table
table_of (insert_whitelist t) = whitelist_table
table_of (delete_whitelist t) = whitelist_table
table_of (insert_key t n) = keys_table
table_of (delete_key t) = keys_table
table_of (upsert_torrent t n) = torrents_table

-- The column `valid_until`, of type INTEGER: the digits of a number that an `i64` cannot hold are
-- stored as a real number.
abbrev pub Stores : Option ℕ → Value → Type 0
Stores none v = v ≡ null
Stores (some n) v = (n < 2 ^ 63 → v ≡ integer (pos n)) × (2 ^ 63 ≤ n → v ≡ real)

-- The pool of connections, the crate rusqlite and the database itself: what a connection, a
-- statement and a query give, what the tables hold, and how a column is read. A statement that
-- fails, or changes no row, changes nothing, and each of the others changes the rows of one table.
pub record Engine : Type 1 where
  pub Db : Type 0
  pub PoolError : Type 0
  pub SqlError : Type 0
  pub is_query_returned_no_rows : SqlError → Bool
  pub get : Db → Result PoolError (Unit {0})
  pub execute : Statement → Db → Result SqlError ℕ × Db
  pub select_whitelist : Db → Result SqlError (List Value)
  pub select_whitelist_row : Text → Db → Result SqlError (Option Value)
  pub select_keys : Db → Result SqlError (List (Value × Value))
  pub select_key_row : Text → Db → Result SqlError (Option (Value × Value))
  pub select_torrents : Db → Result SqlError (List (Value × Value))
  pub get_string : Value → Result SqlError Text
  pub get_opt_i64 : Value → Result SqlError (Option ℤ)
  pub get_u32 : Value → Result SqlError ℕ
  pub whitelist : Db → List Text
  pub keys : Db → HashMap Text Value
  pub torrents : Db → HashMap Text Value
  pub column_string : (t : Text) → get_string (text t) ≡ ok t
  pub column_null : get_opt_i64 null ≡ ok none
  pub column_i64 : (z : ℤ) → get_opt_i64 (integer z) ≡ ok (some z)
  pub column_real : (e : SqlError) × (get_opt_i64 real ≡ err e)
  pub column_u32 : (n : ℕ) → n < 2 ^ 32 → get_u32 (integer (pos n)) ≡ ok n
  pub keys-IsUnique : (db : Db) → IsUnique (keys db)
  pub torrents-IsUnique : (db : Db) → IsUnique (torrents db)
  pub select_whitelist_ok :
      (db : Db) (l : List Value) → select_whitelist db ≡ ok l → l ≡ map text (whitelist db)
  pub select_whitelist_row_ok :
      (t : Text) (db : Db) (o : Option Value)
      → select_whitelist_row t db ≡ ok o
      → o ≡ (if has_text t (whitelist db) then some (text t) else none)
  pub select_keys_ok :
      (db : Db) (l : List (Value × Value))
      → select_keys db ≡ ok l
      → l ≡ map (λ row. (text row.0, row.1)) (keys db)
  pub select_key_row_ok :
      (t : Text) (db : Db) (o : Option (Value × Value))
      → select_key_row t db ≡ ok o
      → o ≡ Option.map (λ v. (text t, v)) (HashMap.get t (keys db))
  pub select_torrents_ok :
      (db : Db) (l : List (Value × Value))
      → select_torrents db ≡ ok l
      → l ≡ map (λ row. (text row.0, row.1)) (torrents db)
  pub execute_err :
      (st : Statement) (db : Db) (e : SqlError) → (execute st db).0 ≡ err e → (execute st db).1 ≡ db
  pub execute_zero : (st : Statement) (db : Db) → (execute st db).0 ≡ ok 0 → (execute st db).1 ≡ db
  pub keeps_whitelist :
      (st : Statement) (db : Db)
      → table_of st ≢ whitelist_table
      → whitelist (execute st db).1 ≡ whitelist db
  pub keeps_keys :
      (st : Statement) (db : Db) → table_of st ≢ keys_table → keys (execute st db).1 ≡ keys db
  pub keeps_torrents :
      (st : Statement) (db : Db)
      → table_of st ≢ torrents_table
      → torrents (execute st db).1 ≡ torrents db
  pub insert_whitelist_ok :
      (t u : Text) (db : Db) (n : ℕ)
      → (execute (insert_whitelist t) db).0 ≡ ok n
      → (n ≡ 1)
        × (has_text u (whitelist (execute (insert_whitelist t) db).1)
            ≡ (text_eq u t || has_text u (whitelist db)))
  pub delete_whitelist_ok :
      (t u : Text) (db : Db) (n : ℕ)
      → (execute (delete_whitelist t) db).0 ≡ ok n
      → (n ≡ (if has_text t (whitelist db) then 1 else 0))
        × (has_text u (whitelist (execute (delete_whitelist t) db).1)
            ≡ (if text_eq u t then false else has_text u (whitelist db)))
  pub insert_key_ok :
      (t u : Text) (m : Option ℕ) (db : Db) (n : ℕ)
      → (execute (insert_key t m) db).0 ≡ ok n
      → (n ≡ 1)
        × ((v : Value) × Stores m v
            × (HashMap.get u (keys (execute (insert_key t m) db).1)
                ≡ (if text_eq u t then some v else HashMap.get u (keys db))))
  pub delete_key_ok :
      (t u : Text) (db : Db) (n : ℕ)
      → (execute (delete_key t) db).0 ≡ ok n
      → (n ≡ (if is_some (HashMap.get t (keys db)) then 1 else 0))
        × (HashMap.get u (keys (execute (delete_key t) db).1)
            ≡ (if text_eq u t then none else HashMap.get u (keys db)))
  pub upsert_torrent_ok :
      (t u : Text) (m : ℕ) (db : Db) (n : ℕ)
      → m < 2 ^ 63
      → (execute (upsert_torrent t m) db).0 ≡ ok n
      → (n ≡ 1)
        × (HashMap.get u (torrents (execute (upsert_torrent t m) db).1)
            ≡ (if text_eq u t then some (integer (pos m)) else HashMap.get u (torrents db)))
