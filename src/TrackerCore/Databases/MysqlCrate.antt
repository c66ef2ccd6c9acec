-- ===== src/TrackerCore/Databases/MysqlCrate.antt =====
-- What packages/tracker-core/src/databases/driver/mysql.rs uses of the crates r2d2 and mysql and of the
-- database itself.
use torrust_tracker.Prelude.{
  ℕ, ◌≡◌, ◌≢◌, ◌^◌, ◌-◌, ◌||◌, Option, none, some, List, [], ◌∷◌, Result, ok, err, ℤ, false, Text,
  text_eq, if◌then◌else◌, ◌<◌, codes,
}
use torrust_tracker.TrackerCore.Databases.Rows.{has_text}
use torrust_tracker.TrackerCore.Databases.Rusqlite.{
  Statement, insert_whitelist, delete_whitelist, insert_key, Table, table_of, whitelist_table,
  keys_table,
}

-- The types of the columns, an integer with the width of its display, and their attributes.
pub data ColumnType : Type 0 where
  int : Option ℕ → ColumnType
  varchar : ℕ → ColumnType

pub data Attribute : Type 0 where
  not_null unique primary_key auto_increment default_zero : Attribute

pub record Column : Type 0 where
  pub name : Text
  pub column_type : ColumnType
  pub attributes : List Attribute

-- The statements that make a table, if it does not exist, and that drop one.
pub data Definition : Type 0 where
  create_table_if_not_exists : Table → List Column → Definition
  drop_table : Table → Definition

abbrev pub defined_table : Definition → Table
defined_table (create_table_if_not_exists t cs) = t
defined_table (drop_table t) = t

abbrev pub existing : List Column → Option (List Column) → List Column
existing cs none = cs
existing cs (some cs') = cs'

abbrev pub valid_until_name : Text
valid_until_name = codes "valid_until"

-- The type of the column with a name.
abbrev pub type_of : Text → List Column → Option ColumnType
type_of name [] = none
type_of name (c ∷ cs) = if text_eq name c.name then some c.column_type else type_of name cs

-- The pool, the crate and the database in its strict mode: what a connection, a statement and a
-- query give, what the whitelist holds, and what columns the tables have. The crate converts the
-- columns of a row. A statement that fails changes nothing, and rows are changed without changing
-- the columns. A number above the largest of a type does not fit a column of that type; the largest
-- INT is 2^31 - 1, whatever its display width.
pub record Engine : Type 1 where
  pub Db : Type 0
  pub PoolError : Type 0
  pub SqlError : Type 0
  pub get : Db → Result PoolError (Unit {0})
  pub exec_drop : Statement → Db → Result SqlError (Unit {0}) × Db
  pub select_whitelist : Db → Result SqlError (List Text)
  pub select_whitelist_row : Text → Db → Result SqlError (Option Text)
  pub select_keys : Db → Result SqlError (List (Text × Option ℤ))
  pub select_key_row : Text → Db → Result SqlError (Option (Text × Option ℤ))
  pub select_torrents : Db → Result SqlError (List (Text × ℕ))
  pub whitelist : Db → List Text
  pub select_whitelist_ok :
      (db : Db) (l : List Text) → select_whitelist db ≡ ok l → l ≡ whitelist db
  pub select_whitelist_row_ok :
      (t : Text) (db : Db) (o : Option Text)
      → select_whitelist_row t db ≡ ok o
      → o ≡ (if has_text t (whitelist db) then some t else none)
  pub exec_drop_err :
      (st : Statement) (db : Db) (e : SqlError)
      → (exec_drop st db).0 ≡ err e
      → (exec_drop st db).1 ≡ db
  pub keeps_whitelist :
      (st : Statement) (db : Db)
      → table_of st ≢ whitelist_table
      → whitelist (exec_drop st db).1 ≡ whitelist db
  pub insert_whitelist_ok :
      (t u : Text) (db : Db)
      → (exec_drop (insert_whitelist t) db).0 ≡ ok tt
      → has_text u (whitelist (exec_drop (insert_whitelist t) db).1)
        ≡ (text_eq u t || has_text u (whitelist db))
  pub delete_whitelist_ok :
      (t u : Text) (db : Db)
      → (exec_drop (delete_whitelist t) db).0 ≡ ok tt
      → has_text u (whitelist (exec_drop (delete_whitelist t) db).1)
        ≡ (if text_eq u t then false else has_text u (whitelist db))
  pub query_drop : Definition → Db → Result SqlError (Unit {0}) × Db
  pub columns : Table → Db → Option (List Column)
  pub largest : ColumnType → Option ℕ
  pub largest_int : (width : Option ℕ) → largest (int width) ≡ some (2 ^ 31 - 1)
  pub create_table_ok :
      (t : Table) (cs : List Column) (db : Db)
      → (query_drop (create_table_if_not_exists t cs) db).0 ≡ ok tt
      → columns t (query_drop (create_table_if_not_exists t cs) db).1
        ≡ some (existing cs (columns t db))
  pub keeps_other_columns :
      (d : Definition) (t : Table) (db : Db)
      → t ≢ defined_table d
      → columns t (query_drop d db).1 ≡ columns t db
  pub keeps_columns :
      (st : Statement) (t : Table) (db : Db) → columns t (exec_drop st db).1 ≡ columns t db
  pub insert_out_of_range :
      (t : Text) (n limit : ℕ) (cs : List Column) (ty : ColumnType) (db : Db)
      → columns keys_table db ≡ some cs
      → type_of valid_until_name cs ≡ some ty
      → largest ty ≡ some limit
      → limit < n
      → (exec_drop (insert_key t (some n)) db).0 ≢ ok tt
