-- ===== src/TrackerCore/Databases/Sqlite/Store.antt =====
-- The driver of sqlite.rs keeps what the trait `Database` promises of the whitelist: it is a store of
-- the whitelist manager.
use torrust_tracker.Prelude.{
  ℕ, false, ◌≡◌, sym, ap, ◌∙◌, ◌||◌, ◌==◌, inl, inr, Option, List, arith, ok, err, if◌then◌else◌,
}
use mathlib.Core.Bool.{Bool-set}
use mathlib.Core.HLevel.{Σ_prop_path}
use torrust_tracker.TrackerCore.Whitelist.{has, is_some, WhitelistStore}
use torrust_tracker.TrackerCore.Databases.{Error, InfoHashText}
use torrust_tracker.TrackerCore.Databases.Rows.{has_text}
use torrust_tracker.TrackerCore.Databases.Rows.Laws.{text_eq-to_string, IsHashColumn}
use torrust_tracker.TrackerCore.Databases.Rusqlite.{Engine, insert_whitelist, delete_whitelist}
use torrust_tracker.TrackerCore.Databases.Sqlite.{
  add_info_hash_to_whitelist, remove_info_hash_from_whitelist, inserted, deleted,
}
use torrust_tracker.TrackerCore.Databases.Sqlite.Collect.{collect_whitelist}
use torrust_tracker.TrackerCore.Databases.Sqlite.Queries.{load_whitelist_lem, get_info_hash_lem}
use torrust_tracker.TrackerCore.Databases.Sqlite.Writes.{
  change_cases, insert_whitelist-IsHashColumn, delete_whitelist-IsHashColumn,
}

module _ (H : InfoHashText) (E : Engine) where
  -- A database whose whitelist has the texts of info hashes only.
  abbrev pub StoredDb : Type 0
  StoredDb = (db : E.Db) × IsHashColumn H (E.whitelist db)

  pub StoredDb-ext : (a b : StoredDb) → a.0 ≡ b.0 → a ≡ b
  StoredDb-ext a b e = Σ_prop_path (hlevel Bool-set) e

  module _ (k j : ℕ) (db : E.Db) where
    pub add_info_hash_ok :
        (n : ℕ)
        → (add_info_hash_to_whitelist H E k db).0 ≡ ok n
        → has_text (H.to_string j) (E.whitelist (add_info_hash_to_whitelist H E k db).1)
          ≡ (j == k || has_text (H.to_string j) (E.whitelist db))
    unfolding add_info_hash_to_whitelist
    add_info_hash_ok n h =
        elim (change_cases H E (insert_whitelist (H.to_string k)) (inserted H E) db) [
          | inl (same, (e, failed)) ↦ ground arith
          | inr (m, done, tested, after) ↦ ground (
            arith,
            E.insert_whitelist_ok (H.to_string k) (H.to_string j) db m done,
            text_eq-to_string H j k,
          )
        ]

    pub remove_info_hash_ok :
        (n : ℕ)
        → (remove_info_hash_from_whitelist H E k db).0 ≡ ok n
        → has_text (H.to_string j) (E.whitelist (remove_info_hash_from_whitelist H E k db).1)
          ≡ (if j == k then false else has_text (H.to_string j) (E.whitelist db))
    unfolding remove_info_hash_from_whitelist
    remove_info_hash_ok n h =
        elim (change_cases H E (delete_whitelist (H.to_string k)) (deleted H E) db) [
          | inl (same, (e, failed)) ↦ ground arith
          | inr (m, done, tested, after) ↦ ground (
            arith,
            E.delete_whitelist_ok (H.to_string k) (H.to_string j) db m done,
            text_eq-to_string H j k,
          )
        ]

  module _ (k : ℕ) (db : E.Db) where
    pub add_info_hash_err :
        (e : Error)
        → (add_info_hash_to_whitelist H E k db).0 ≡ err e
        → (add_info_hash_to_whitelist H E k db).1 ≡ db
    unfolding add_info_hash_to_whitelist
    add_info_hash_err e h =
        elim (change_cases H E (insert_whitelist (H.to_string k)) (inserted H E) db) [
          | inl (same, (e', failed)) ↦ same
          | inr (m, done, tested, after) ↦
              ground (arith, E.insert_whitelist_ok (H.to_string k) (H.to_string k) db m done)
        ]

    pub remove_info_hash_err :
        (e : Error)
        → (remove_info_hash_from_whitelist H E k db).0 ≡ err e
        → (remove_info_hash_from_whitelist H E k db).1 ≡ db
    unfolding remove_info_hash_from_whitelist
    remove_info_hash_err e h =
        elim (change_cases H E (delete_whitelist (H.to_string k)) (deleted H E) db) [
          | inl (same, (e', failed)) ↦ same
          | inr (m, done, tested, after) ↦ ground (
            arith,
            E.delete_whitelist_ok (H.to_string k) (H.to_string k) db m done,
            E.execute_zero (delete_whitelist (H.to_string k)) db,
          )
        ]

  pub add_info_hash-IsHashColumn :
      (k : ℕ) (db : E.Db)
      → IsHashColumn H (E.whitelist db)
      → IsHashColumn H (E.whitelist (add_info_hash_to_whitelist H E k db).1)
  unfolding add_info_hash_to_whitelist
  add_info_hash-IsHashColumn k db hashes =
      elim (change_cases H E (insert_whitelist (H.to_string k)) (inserted H E) db) [
        | inl (same, failed) ↦ rw same hashes
        | inr (m, done, tested, after) ↦
            rw after (insert_whitelist-IsHashColumn H E k db m done hashes)
      ]

  pub remove_info_hash-IsHashColumn :
      (k : ℕ) (db : E.Db)
      → IsHashColumn H (E.whitelist db)
      → IsHashColumn H (E.whitelist (remove_info_hash_from_whitelist H E k db).1)
  unfolding remove_info_hash_from_whitelist
  remove_info_hash-IsHashColumn k db hashes =
      elim (change_cases H E (delete_whitelist (H.to_string k)) (deleted H E) db) [
        | inl (same, failed) ↦ rw same hashes
        | inr (m, done, tested, after) ↦
            rw after (delete_whitelist-IsHashColumn H E (H.to_string k) db m done hashes)
      ]

  -- The info hashes of a database.
  abbrev pub rows : StoredDb → List ℕ
  rows (db, hashes) = (collect_whitelist H E (E.whitelist db) hashes).0

  pub rows_lem :
      (s : StoredDb) (j : ℕ) → has j (rows s) ≡ has_text (H.to_string j) (E.whitelist s.0)
  rows_lem (db, hashes) j = (collect_whitelist H E (E.whitelist db) hashes).2 j

  pub get_rows :
      (k : ℕ) (s : StoredDb) (o : Option ℕ)
      → (get_info_hash_lem H E s.0 s.1 k).0 ≡ ok o
      → is_some o ≡ has k (rows s)
  get_rows k s o h = ground (arith, (get_info_hash_lem H E s.0 s.1 k).2 o h, rows_lem s k)

  -- The whitelist of the database, as the manager uses it: no query panics, so that each has a
  -- result.
  abbrev pub sqlite_whitelist : WhitelistStore
  sqlite_whitelist = record {
    Db = StoredDb;
    Error = Error;
    rows = rows;
    load_whitelist = λ s. (load_whitelist_lem H E s.0 s.1).0;
    get_info_hash_from_whitelist = λ k s. (get_info_hash_lem H E s.0 s.1 k).0;
    add_info_hash_to_whitelist = λ k s. (
      (add_info_hash_to_whitelist H E k s.0).0,
      ((add_info_hash_to_whitelist H E k s.0).1, add_info_hash-IsHashColumn k s.0 s.1),
    );
    remove_info_hash_from_whitelist = λ k s. (
      (remove_info_hash_from_whitelist H E k s.0).0,
      ((remove_info_hash_from_whitelist H E k s.0).1, remove_info_hash-IsHashColumn k s.0 s.1),
    );
    load_lem = λ s l j h. (load_whitelist_lem H E s.0 s.1).2 l j h ∙ sym (rows_lem s j);
    get_lem = get_rows;
    add_ok = λ k s n j h.
        rows_lem ((add_info_hash_to_whitelist H E k s.0).1, add_info_hash-IsHashColumn k s.0 s.1) j
        ∙ (add_info_hash_ok k j s.0 n h ∙ ap (λ b. j == k || b) (sym (rows_lem s j)));
    add_err = λ k s e h. StoredDb-ext _ s (add_info_hash_err k s.0 e h);
    remove_ok = λ k s n j h.
        rows_lem
          ((remove_info_hash_from_whitelist H E k s.0).1, remove_info_hash-IsHashColumn k s.0 s.1) j
        ∙ (remove_info_hash_ok k j s.0 n h
            ∙ ap (λ b. if j == k then false else b) (sym (rows_lem s j)));
    remove_err = λ k s e h. StoredDb-ext _ s (remove_info_hash_err k s.0 e h);
  }
