-- ===== src/Tests/Database.antt =====
-- A concrete version of what the driver of the database uses: tables as lists.
use torrust_tracker.Prelude.{
  ℕ, ◌^◌, ◌≡◌, ◌≢◌, ◌||◌, refl, false, inl, inr, Option, none, some, List, [], ◌∷◌, map, arith,
  if◌then◌else◌, Result, ok, err, ltb, ℤ, pos, Text, text_eq, text_eq_iff, text_eq_instance,
  Bool-cases, Option-cases,
}
use mathlib.Core.Option
use torrust_tracker.HashMap
use torrust_tracker.HashMap.{HashMap}
use torrust_tracker.HashMap.Laws.{get-insert, get-remove}
use torrust_tracker.TrackerCore.Whitelist.{is_some}
use torrust_tracker.TrackerCore.Databases.{InfoHashText}
use torrust_tracker.TrackerCore.Databases.Rows.{has_text, IsUnique}
use torrust_tracker.TrackerCore.Databases.Rusqlite.{
  Value, null, real, integer, text, Statement, insert_whitelist, delete_whitelist, insert_key,
  delete_key, upsert_torrent, whitelist_table, keys_table, torrents_table, table_of, Stores, Engine,
}

-- An info hash is written as one character.
abbrev pub one_character : InfoHashText
one_character = record {
  to_string = λ k. k ∷ [];
  to_hex_string = λ k. k ∷ [];
  from_str = λ t. elim t [ [] ↦ none | ◌∷◌ c s ↦ some c ];
  from_str-to_string = λ k. refl;
  to_hex_string_lem = λ k. refl;
}

pub IsUnique-remove :
    (t : Text) (m : HashMap Text Value) → IsUnique m → IsUnique (HashMap.remove t m)
unfolding HashMap.remove
IsUnique-remove t [] unique = tt
IsUnique-remove t ((u, v) ∷ m) (absent, unique) = elim (Bool-cases (text_eq t u)) [
  | inl same ↦ rw same (IsUnique-remove t m unique)
  | inr other ↦ rw other (ground (arith, get-remove t u m), IsUnique-remove t m unique)
]

pub IsUnique-insert :
    (t : Text) (v : Value) (m : HashMap Text Value) → IsUnique m → IsUnique (HashMap.insert t v m)
unfolding HashMap.insert
IsUnique-insert t v m unique =
    (ground (arith, get-remove t t m, text_eq_iff t t), IsUnique-remove t m unique)

abbrev pub Rows : Type 0
Rows = (m : HashMap Text Value) × IsUnique m

pub record Tables : Type 0 where
  pub texts : List Text
  pub key_rows : Rows
  pub torrent_rows : Rows

abbrev pub without : Text → List Text → List Text
without t [] = []
without t (u ∷ l) = let rest = without t l in if text_eq t u then rest else u ∷ rest

abbrev pub bound : Option ℕ → Value
bound none = null
bound (some n) = if ltb n (2 ^ 63) then integer (pos n) else real

abbrev pub perform : Statement → Tables → Result (Unit {0}) ℕ × Tables
perform (insert_whitelist t) db =
    if has_text t db.texts then (err tt, db) else (ok 1, record db { texts = t ∷ db.texts })
perform (delete_whitelist t) db =
    if has_text t db.texts then (ok 1, record db { texts = without t db.texts }) else (ok 0, db)
perform (insert_key t n) db = if is_some (HashMap.get t db.key_rows.0) then (err tt, db) else (
  ok 1,
  record db {
    key_rows = (
      HashMap.insert t (bound n) db.key_rows.0,
      IsUnique-insert t (bound n) db.key_rows.0 db.key_rows.1,
    );
  },
)
perform (delete_key t) db =
    if is_some (HashMap.get t db.key_rows.0)
    then (
      ok 1,
      record db {
        key_rows = (HashMap.remove t db.key_rows.0, IsUnique-remove t db.key_rows.0 db.key_rows.1);
      },
    )
    else (ok 0, db)
perform (upsert_torrent t n) db = (
  ok 1,
  record db {
    torrent_rows = (
      HashMap.insert t (integer (pos n)) db.torrent_rows.0,
      IsUnique-insert t (integer (pos n)) db.torrent_rows.0 db.torrent_rows.1,
    );
  },
)

pub has-without :
    (t u : Text) (l : List Text)
    → has_text u (without t l) ≡ (if text_eq u t then false else has_text u l)
has-without t u [] = ground arith
has-without t u (w ∷ l) =
    ground (arith, has-without t u l, text_eq_iff t w, text_eq_iff u w, text_eq_iff u t)

pub bound-Stores : (o : Option ℕ) → Stores o (bound o)
bound-Stores none = refl
bound-Stores (some n) = (λ small. ground arith, λ large. ground arith)

abbrev pub read_text : Value → Result (Unit {0}) Text
read_text (text t) = ok t
read_text _ = err tt

abbrev pub read_i64 : Value → Result (Unit {0}) (Option ℤ)
read_i64 null = ok none
read_i64 (integer z) = ok (some z)
read_i64 _ = err tt

abbrev pub read_u32 : Value → Result (Unit {0}) ℕ
read_u32 (integer (pos n)) = if ltb n (2 ^ 32) then ok n else err tt
read_u32 _ = err tt

pub perform_err :
    (st : Statement) (db : Tables) (e : Unit {0})
    → (perform st db).0 ≡ err e
    → (perform st db).1 ≡ db
perform_err (insert_whitelist t) db e h = ground arith
perform_err (delete_whitelist t) db e h = ground arith
perform_err (insert_key t n) db e h = ground arith
perform_err (delete_key t) db e h = ground arith
perform_err (upsert_torrent t n) db e h = ground arith

pub perform_zero :
    (st : Statement) (db : Tables) → (perform st db).0 ≡ ok 0 → (perform st db).1 ≡ db
perform_zero (insert_whitelist t) db h = ground arith
perform_zero (delete_whitelist t) db h = ground arith
perform_zero (insert_key t n) db h = ground arith
perform_zero (delete_key t) db h = ground arith
perform_zero (upsert_torrent t n) db h = ground arith

pub keeps_texts :
    (st : Statement) (db : Tables)
    → table_of st ≢ whitelist_table
    → (perform st db).1.texts ≡ db.texts
keeps_texts (insert_whitelist t) db h = absurd (h refl)
keeps_texts (delete_whitelist t) db h = absurd (h refl)
keeps_texts (insert_key t n) db h = ground arith
keeps_texts (delete_key t) db h = ground arith
keeps_texts (upsert_torrent t n) db h = refl

pub keeps_key_rows :
    (st : Statement) (db : Tables)
    → table_of st ≢ keys_table
    → (perform st db).1.key_rows.0 ≡ db.key_rows.0
keeps_key_rows (insert_whitelist t) db h = ground arith
keeps_key_rows (delete_whitelist t) db h = ground arith
keeps_key_rows (insert_key t n) db h = absurd (h refl)
keeps_key_rows (delete_key t) db h = absurd (h refl)
keeps_key_rows (upsert_torrent t n) db h = refl

pub keeps_torrent_rows :
    (st : Statement) (db : Tables)
    → table_of st ≢ torrents_table
    → (perform st db).1.torrent_rows.0 ≡ db.torrent_rows.0
keeps_torrent_rows (insert_whitelist t) db h = ground arith
keeps_torrent_rows (delete_whitelist t) db h = ground arith
keeps_torrent_rows (insert_key t n) db h = ground arith
keeps_torrent_rows (delete_key t) db h = ground arith
keeps_torrent_rows (upsert_torrent t n) db h = absurd (h refl)

pub inserted_text :
    (t u : Text) (db : Tables) (n : ℕ)
    → (perform (insert_whitelist t) db).0 ≡ ok n
    → (n ≡ 1)
      × (has_text u (perform (insert_whitelist t) db).1.texts
          ≡ (text_eq u t || has_text u db.texts))
inserted_text t u db n h = ground arith

pub deleted_text :
    (t u : Text) (db : Tables) (n : ℕ)
    → (perform (delete_whitelist t) db).0 ≡ ok n
    → (n ≡ (if has_text t db.texts then 1 else 0))
      × (has_text u (perform (delete_whitelist t) db).1.texts
          ≡ (if text_eq u t then false else has_text u db.texts))
deleted_text t u db n h = ground (arith, has-without t u db.texts, text_eq_iff u t)

pub inserted_key :
    (t u : Text) (m : Option ℕ) (db : Tables) (n : ℕ)
    → (perform (insert_key t m) db).0 ≡ ok n
    → (n ≡ 1)
      × ((v : Value) × Stores m v
          × (HashMap.get u (perform (insert_key t m) db).1.key_rows.0
              ≡ (if text_eq u t then some v else HashMap.get u db.key_rows.0)))
inserted_key t u m db n h = (
  ground arith,
  (bound m, bound-Stores m, ground (arith, get-insert t u (bound m) db.key_rows.0)),
)

pub deleted_key :
    (t u : Text) (db : Tables) (n : ℕ)
    → (perform (delete_key t) db).0 ≡ ok n
    → (n ≡ (if is_some (HashMap.get t db.key_rows.0) then 1 else 0))
      × (HashMap.get u (perform (delete_key t) db).1.key_rows.0
          ≡ (if text_eq u t then none else HashMap.get u db.key_rows.0))
deleted_key t u db n h = elim (Option-cases (HashMap.get t db.key_rows.0)) [
  | inl absent ↦ ground (arith, text_eq_iff u t)
  | inr (v, present) ↦ ground (arith, get-remove t u db.key_rows.0)
]

abbrev pub tables : Engine
tables = record {
  Db = Tables;
  PoolError = Unit {0};
  SqlError = Unit {0};
  is_query_returned_no_rows = λ e. false;
  get = λ db. ok tt;
  execute = perform;
  select_whitelist = λ db. ok (map text db.texts);
  select_whitelist_row = λ t db. ok (if has_text t db.texts then some (text t) else none);
  select_keys = λ db. ok (map (λ row. (text row.0, row.1)) db.key_rows.0);
  select_key_row = λ t db. ok (Option.map (λ v. (text t, v)) (HashMap.get t db.key_rows.0));
  select_torrents = λ db. ok (map (λ row. (text row.0, row.1)) db.torrent_rows.0);
  get_string = read_text;
  get_opt_i64 = read_i64;
  get_u32 = read_u32;
  whitelist = λ db. db.texts;
  keys = λ db. db.key_rows.0;
  torrents = λ db. db.torrent_rows.0;
  column_string = λ t. refl;
  column_null = refl;
  column_i64 = λ z. refl;
  column_real = (tt, refl);
  column_u32 = λ n small. ground arith;
  keys-IsUnique = λ db. db.key_rows.1;
  torrents-IsUnique = λ db. db.torrent_rows.1;
  select_whitelist_ok = λ db l h. ground arith;
  select_whitelist_row_ok = λ t db o h. ground arith;
  select_keys_ok = λ db l h. ground arith;
  select_key_row_ok = λ t db o h. ground arith;
  select_torrents_ok = λ db l h. ground arith;
  execute_err = perform_err;
  execute_zero = perform_zero;
  keeps_whitelist = keeps_texts;
  keeps_keys = keeps_key_rows;
  keeps_torrents = keeps_torrent_rows;
  insert_whitelist_ok = inserted_text;
  delete_whitelist_ok = deleted_text;
  insert_key_ok = inserted_key;
  delete_key_ok = deleted_key;
  upsert_torrent_ok =
      λ t u m db n small h. (ground arith, get-insert t u (integer (pos m)) db.torrent_rows.0);
}
