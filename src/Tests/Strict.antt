-- ===== src/Tests/Strict.antt =====
-- A concrete version of what the driver of MySQL uses: the tables of Tests/Database with
-- columns, in the strict mode.
use torrust_tracker.Prelude.{
  ℕ, ◌^◌, ◌-◌, ◌<◌, ◌≡◌, ◌≢◌, ◌||◌, refl, Bool, true, false, Option, none, some, List, [], ◌∷◌,
  arith, if◌then◌else◌, Result, ok, err, ltb, Text, codes, text_eq, Result-cases, inl, inr, ◌*◌,
}
use torrust_tracker.TrackerCore.Authentication.Key.{PeerKey, nanos}
use torrust_tracker.TrackerCore.Databases.{Error}
use torrust_tracker.TrackerCore.Databases.Rows.{has_text}
use torrust_tracker.TrackerCore.Databases.Rusqlite.{
  Statement, insert_whitelist, delete_whitelist, insert_key, Table, table_of, whitelist_table,
  keys_table, torrents_table,
}
use torrust_tracker.TrackerCore.Databases.MysqlCrate.{
  Column, ColumnType, int, varchar, Definition, create_table_if_not_exists, drop_table,
  defined_table, existing, valid_until_name, type_of, Engine,
}
use torrust_tracker.TrackerCore.Databases.Mysql.{add_key_to_keys}
use torrust_tracker.TrackerCore.Databases.Mysql.Tables.{
  query_each, connected, create_database_tables,
}
use torrust_tracker.TrackerCore.Databases.Mysql.Columns.{
  Write, add_key, add_hash, run, add_key_to_keys_late,
}
use torrust_tracker.Tests.Database.{
  Tables, perform, perform_err, keeps_texts, inserted_text, deleted_text, one_character,
}

-- The tables, and the columns of those that exist.
record Strict : Type 0 where
  rows : Tables
  schema : Table → Option (List Column)

abbrev drop_count :
    (Table → Option (List Column))
    → Result (Unit {0}) ℕ × Tables
    → Result (Unit {0}) (Unit {0}) × Strict
drop_count schema (ok n, db) = (ok tt, record { rows = db; schema = schema })
drop_count schema (err e, db) = (err e, record { rows = db; schema = schema })

abbrev largest : ColumnType → Option ℕ
largest (int width) = some (2 ^ 31 - 1)
largest (varchar n) = none

abbrev exceeds : Option ℕ → ℕ → Bool
exceeds none n = false
exceeds (some limit) n = ltb limit n

abbrev limit_of : Option (List Column) → Option ℕ
limit_of none = none
limit_of (some cs) = elim (type_of valid_until_name cs) [ none ↦ none | some ty ↦ largest ty ]

abbrev refuses : (Table → Option (List Column)) → Statement → Bool
refuses schema (insert_key t (some n)) = exceeds (limit_of (schema keys_table)) n
refuses schema _ = false

abbrev strict : Statement → Strict → Result (Unit {0}) (Unit {0}) × Strict
strict st db =
    if refuses db.schema st then (err tt, db) else drop_count db.schema (perform st db.rows)

abbrev same_table : Table → Table → Bool
same_table whitelist_table whitelist_table = true
same_table keys_table keys_table = true
same_table torrents_table torrents_table = true
same_table _ _ = false

same_table-eq : (t u : Table) → same_table t u ≡ true → t ≡ u
same_table-eq whitelist_table whitelist_table h = refl
same_table-eq whitelist_table keys_table h = cc
same_table-eq whitelist_table torrents_table h = cc
same_table-eq keys_table whitelist_table h = cc
same_table-eq keys_table keys_table h = refl
same_table-eq keys_table torrents_table h = cc
same_table-eq torrents_table whitelist_table h = cc
same_table-eq torrents_table keys_table h = cc
same_table-eq torrents_table torrents_table h = refl

same_table_refl : (t : Table) → same_table t t ≡ true
same_table_refl whitelist_table = refl
same_table_refl keys_table = refl
same_table_refl torrents_table = refl

abbrev defined : Definition → Option (List Column) → Option (List Column)
defined (create_table_if_not_exists t cs) old = some (existing cs old)
defined (drop_table t) old = none

abbrev define : Definition → Strict → Result (Unit {0}) (Unit {0}) × Strict
define d db = (
  ok tt,
  record db {
    schema = λ t. if same_table t (defined_table d) then defined d (db.schema t) else db.schema t;
  },
)

strict_err :
    (st : Statement) (db : Strict) (e : Unit {0}) → (strict st db).0 ≡ err e → (strict st db).1 ≡ db
strict_err st db e h = elim (Result-cases (perform st db.rows).0) [
  | inl (n, q) ↦ ground arith
  | inr (e', q) ↦ ground (arith, perform_err st db.rows e')
]

strict_keeps :
    (st : Statement) (db : Strict)
    → table_of st ≢ whitelist_table
    → (strict st db).1.rows.texts ≡ db.rows.texts
strict_keeps st db h = elim (Result-cases (perform st db.rows).0) [
  | inl (n, q) ↦ ground (arith, keeps_texts st db.rows h)
  | inr (e', q) ↦ ground (arith, perform_err st db.rows e')
]

strict_keeps_schema :
    (st : Statement) (t : Table) (db : Strict) → (strict st db).1.schema t ≡ db.schema t
strict_keeps_schema st t db = elim (Result-cases (perform st db.rows).0) [
  | inl (n, q) ↦ ground arith
  | inr (e', q) ↦ ground arith
]

strict_inserted :
    (t u : Text) (db : Strict)
    → (strict (insert_whitelist t) db).0 ≡ ok tt
    → has_text u (strict (insert_whitelist t) db).1.rows.texts
      ≡ (text_eq u t || has_text u db.rows.texts)
strict_inserted t u db h = elim (Result-cases (perform (insert_whitelist t) db.rows).0) [
  | inl (n, q) ↦ ground (arith, inserted_text t u db.rows n q)
  | inr (e', q) ↦ ground arith
]

strict_deleted :
    (t u : Text) (db : Strict)
    → (strict (delete_whitelist t) db).0 ≡ ok tt
    → has_text u (strict (delete_whitelist t) db).1.rows.texts
      ≡ (if text_eq u t then false else has_text u db.rows.texts)
strict_deleted t u db h = elim (Result-cases (perform (delete_whitelist t) db.rows).0) [
  | inl (n, q) ↦ ground (arith, deleted_text t u db.rows n q)
  | inr (e', q) ↦ ground arith
]

strict_late :
    (t : Text) (n limit : ℕ) (cs : List Column) (ty : ColumnType) (db : Strict)
    → db.schema keys_table ≡ some cs
    → type_of valid_until_name cs ≡ some ty
    → largest ty ≡ some limit
    → limit < n
    → (strict (insert_key t (some n)) db).0 ≢ ok tt
strict_late t n limit cs ty db found typed top late = ground arith

define_ok :
    (t : Table) (cs : List Column) (db : Strict)
    → (define (create_table_if_not_exists t cs) db).0 ≡ ok tt
    → (define (create_table_if_not_exists t cs) db).1.schema t ≡ some (existing cs (db.schema t))
define_ok t cs db h = ground (arith, same_table_refl t)

define_others :
    (d : Definition) (t : Table) (db : Strict)
    → t ≢ defined_table d
    → (define d db).1.schema t ≡ db.schema t
define_others d t db other = ground (arith, same_table-eq t (defined_table d))

abbrev strict_tables : Engine
strict_tables = record {
  Db = Strict;
  PoolError = Unit {0};
  SqlError = Unit {0};
  get = λ db. ok tt;
  exec_drop = strict;
  select_whitelist = λ db. ok db.rows.texts;
  select_whitelist_row = λ t db. ok (if has_text t db.rows.texts then some t else none);
  select_keys = λ db. ok [];
  select_key_row = λ t db. ok none;
  select_torrents = λ db. ok [];
  whitelist = λ db. db.rows.texts;
  select_whitelist_ok = λ db l h. ground arith;
  select_whitelist_row_ok = λ t db o h. ground arith;
  exec_drop_err = strict_err;
  keeps_whitelist = strict_keeps;
  insert_whitelist_ok = strict_inserted;
  delete_whitelist_ok = strict_deleted;
  query_drop = define;
  columns = λ t db. db.schema t;
  largest = largest;
  largest_int = λ width. refl;
  create_table_ok = define_ok;
  keeps_other_columns = define_others;
  keeps_columns = strict_keeps_schema;
  insert_out_of_range = strict_late;
}

-- A key that expires in 2040.
abbrev long_key : PeerKey
long_key = record {
  key = record { value = codes "YZSl4lMZupRuOpSRC3krIKR5BPB14nrJ" };
  valid_until = some (2_208_988_800 * nanos);
}

abbrev no_tables : Strict
no_tables = record {
  rows = record { texts = []; key_rows = ([], tt); torrent_rows = ([], tt) };
  schema = λ t. none;
}

-- A key without expiry, and one info hash.
abbrev writes : List (Write one_character strict_tables)
writes = add_key (record long_key { valid_until = none }) ∷ add_hash 7 ∷ []

abbrev after_writes : Strict
after_writes =
    run one_character strict_tables writes (create_database_tables strict_tables no_tables).1

add_key_to_keys_late_example :
    (e : Error) × (add_key_to_keys one_character strict_tables long_key after_writes
      ≡ (err e, after_writes))
unfolding create_database_tables connected query_each
add_key_to_keys_late_example =
    add_key_to_keys_late one_character strict_tables no_tables writes long_key
      (2_208_988_800 * nanos) refl refl refl (omega arith)
