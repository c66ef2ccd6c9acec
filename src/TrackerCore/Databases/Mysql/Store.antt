-- ===== src/TrackerCore/Databases/Mysql/Store.antt =====
-- The driver of mysql.rs keeps what the trait `Database` promises of the whitelist: it is a store of
-- the whitelist manager.
use torrust_tracker.Prelude.{
  ℕ, false, ◌≡◌, refl, sym, ap, ◌∙◌, ◌||◌, ◌==◌, inl, inr, Option, none, some, List, [], ◌∷◌, arith,
  Result, ok, err, Text, text_eq, text_eq_iff, if◌then◌else◌, Result-cases, Bool-cases,
}
use mathlib.Core.Bool.{Bool-set}
use mathlib.Core.HLevel.{Σ_prop_path}
use torrust_tracker.TrackerCore.Whitelist.{has, is_some, WhitelistStore}
use torrust_tracker.TrackerCore.Databases.{Error, InfoHashText, my_sql, connection_pool}
use torrust_tracker.TrackerCore.Databases.Rows.{has_text}
use torrust_tracker.TrackerCore.Databases.Rows.Laws.{
  text_eq-to_string, is_hash-to_string, IsHashColumn, IsHashColumn-head, IsHashColumn-tail,
}
use torrust_tracker.TrackerCore.Databases.Rusqlite.{insert_whitelist, delete_whitelist}
use torrust_tracker.TrackerCore.Databases.MysqlCrate.{Engine}
use torrust_tracker.TrackerCore.Databases.Mysql.{
  from_mysql, map_rows, load_whitelist, get_info_hash_from_whitelist, add_info_hash_to_whitelist,
  remove_info_hash_from_whitelist,
}
use torrust_tracker.TrackerCore.Databases.Mysql.Changes.{change_cases, change_err}

module _ (H : InfoHashText) (E : Engine) where
  pub map_whitelist :
      (l : List Text)
      → IsHashColumn H l
      → (ks : List ℕ) × (map_rows H E H.from_str l ≡ some ks)
        × ((j : ℕ) → has j ks ≡ has_text (H.to_string j) l)
  unfolding map_rows
  map_whitelist [] h = ([], refl, λ j. refl)
  map_whitelist (t ∷ l) h =
      let (k, e) = IsHashColumn-head H t l h in
      let (ks, rest, same) = map_whitelist l (IsHashColumn-tail H t l h) in
      (
        k ∷ ks,
        ground (arith, H.from_str-to_string k),
        λ j. ground (arith, same j, text_eq-to_string H j k),
      )

  module _ (db : E.Db) (hashes : IsHashColumn H (E.whitelist db)) where
    pub load_whitelist_lem :
        (r : Result Error (List ℕ)) × (load_whitelist H E db ≡ some r)
        × ((l : List ℕ) (j : ℕ) → r ≡ ok l → has j l ≡ has_text (H.to_string j) (E.whitelist db))
    unfolding load_whitelist
    load_whitelist_lem = elim (Result-cases (E.get db)) [
      | inr (e, q) ↦ (err (connection_pool my_sql), ground arith, λ l j h. ground arith)
      | inl (u, q) ↦ elim (Result-cases (E.select_whitelist db)) [
        | inr (e, q') ↦ (err (from_mysql H E e), ground arith, λ l j h. ground arith)
        | inl (rows, q') ↦
            let (ks, all, same) = map_whitelist (E.whitelist db) hashes in
            (
              ok ks,
              ground (arith, E.select_whitelist_ok db rows q'),
              λ l j h. ground (arith, same j),
            )
      ]
    ]

    pub get_info_hash_lem :
        (k : ℕ)
        → (r : Result Error (Option ℕ)) × (get_info_hash_from_whitelist H E k db ≡ some r)
          × ((o : Option ℕ)
              → r ≡ ok o
              → o ≡ (if has_text (H.to_string k) (E.whitelist db) then some k else none))
    unfolding get_info_hash_from_whitelist
    get_info_hash_lem k = elim (Result-cases (E.get db)) [
      | inr (e, q) ↦ (err (connection_pool my_sql), ground arith, λ o h. ground arith)
      | inl (u, q) ↦ elim (Result-cases (E.select_whitelist_row (H.to_hex_string k) db)) [
        | inr (e, q') ↦ (err (from_mysql H E e), ground arith, λ o h. ground arith)
        | inl (row, q') ↦ (
          ok (if has_text (H.to_string k) (E.whitelist db) then some k else none),
          ground (
            arith,
            E.select_whitelist_row_ok (H.to_hex_string k) db row q',
            H.to_hex_string_lem k,
            H.from_str-to_string k,
          ),
          λ o h. ground arith,
        )
      ]
    ]

  abbrev pub StoredDb : Type 0
  StoredDb = (db : E.Db) × IsHashColumn H (E.whitelist db)

  pub StoredDb-ext : (a b : StoredDb) → a.0 ≡ b.0 → a ≡ b
  StoredDb-ext a b e = Σ_prop_path (hlevel Bool-set) e

  pub add_info_hash_ok :
      (k j : ℕ) (db : E.Db) (n : ℕ)
      → (add_info_hash_to_whitelist H E k db).0 ≡ ok n
      → has_text (H.to_string j) (E.whitelist (add_info_hash_to_whitelist H E k db).1)
        ≡ (j == k || has_text (H.to_string j) (E.whitelist db))
  unfolding add_info_hash_to_whitelist
  add_info_hash_ok k j db n h =
      elim (change_cases H E {A = ℕ} (insert_whitelist (H.to_string k)) 1 db) [
        | inl (same, (e, failed)) ↦ ground arith
        | inr (done, result, after) ↦ ground (
          arith,
          E.insert_whitelist_ok (H.to_string k) (H.to_string j) db done,
          text_eq-to_string H j k,
        )
      ]

  pub remove_info_hash_ok :
      (k j : ℕ) (db : E.Db) (n : ℕ)
      → (remove_info_hash_from_whitelist H E k db).0 ≡ ok n
      → has_text (H.to_string j) (E.whitelist (remove_info_hash_from_whitelist H E k db).1)
        ≡ (if j == k then false else has_text (H.to_string j) (E.whitelist db))
  unfolding remove_info_hash_from_whitelist
  remove_info_hash_ok k j db n h =
      elim (change_cases H E {A = ℕ} (delete_whitelist (H.to_string k)) 1 db) [
        | inl (same, (e, failed)) ↦ ground arith
        | inr (done, result, after) ↦ ground (
          arith,
          E.delete_whitelist_ok (H.to_string k) (H.to_string j) db done,
          text_eq-to_string H j k,
        )
      ]

  pub add_info_hash_err :
      (k : ℕ) (db : E.Db) (e : Error)
      → (add_info_hash_to_whitelist H E k db).0 ≡ err e
      → (add_info_hash_to_whitelist H E k db).1 ≡ db
  unfolding add_info_hash_to_whitelist
  add_info_hash_err k db e h = change_err H E (insert_whitelist (H.to_string k)) 1 db e h

  pub remove_info_hash_err :
      (k : ℕ) (db : E.Db) (e : Error)
      → (remove_info_hash_from_whitelist H E k db).0 ≡ err e
      → (remove_info_hash_from_whitelist H E k db).1 ≡ db
  unfolding remove_info_hash_from_whitelist
  remove_info_hash_err k db e h = change_err H E (delete_whitelist (H.to_string k)) 1 db e h

  pub add_info_hash-IsHashColumn :
      (k : ℕ) (db : E.Db)
      → IsHashColumn H (E.whitelist db)
      → IsHashColumn H (E.whitelist (add_info_hash_to_whitelist H E k db).1)
  unfolding add_info_hash_to_whitelist
  add_info_hash-IsHashColumn k db hashes =
      elim (change_cases H E {A = ℕ} (insert_whitelist (H.to_string k)) 1 db) [
        | inl (same, failed) ↦ rw same hashes
        | inr (done, result, after) ↦ rw after (λ u member.
            elim (Bool-cases (text_eq u (H.to_string k))) [
              | inl same ↦ rw ((text_eq_iff u (H.to_string k)).0 same) (is_hash-to_string H k)
              | inr other ↦
                  hashes u (ground (arith, E.insert_whitelist_ok (H.to_string k) u db done))
            ])
      ]

  pub remove_info_hash-IsHashColumn :
      (k : ℕ) (db : E.Db)
      → IsHashColumn H (E.whitelist db)
      → IsHashColumn H (E.whitelist (remove_info_hash_from_whitelist H E k db).1)
  unfolding remove_info_hash_from_whitelist
  remove_info_hash-IsHashColumn k db hashes =
      elim (change_cases H E {A = ℕ} (delete_whitelist (H.to_string k)) 1 db) [
        | inl (same, failed) ↦ rw same hashes
        | inr (done, result, after) ↦
            rw after (λ u member.
              hashes u (ground (arith, E.delete_whitelist_ok (H.to_string k) u db done)))
      ]

  -- The info hashes of a database.
  abbrev pub rows : StoredDb → List ℕ
  rows (db, hashes) = (map_whitelist (E.whitelist db) hashes).0

  pub rows_lem :
      (s : StoredDb) (j : ℕ) → has j (rows s) ≡ has_text (H.to_string j) (E.whitelist s.0)
  rows_lem (db, hashes) j = (map_whitelist (E.whitelist db) hashes).2 j

  pub get_rows :
      (k : ℕ) (s : StoredDb) (o : Option ℕ)
      → (get_info_hash_lem s.0 s.1 k).0 ≡ ok o
      → is_some o ≡ has k (rows s)
  get_rows k s o h = ground (arith, (get_info_hash_lem s.0 s.1 k).2 o h, rows_lem s k)

  -- The whitelist of the database, as the manager uses it: no query panics, so that each has a
  -- result.
  abbrev pub mysql_whitelist : WhitelistStore
  mysql_whitelist = record {
    Db = StoredDb;
    Error = Error;
    rows = rows;
    load_whitelist = λ s. (load_whitelist_lem s.0 s.1).0;
    get_info_hash_from_whitelist = λ k s. (get_info_hash_lem s.0 s.1 k).0;
    add_info_hash_to_whitelist = λ k s. (
      (add_info_hash_to_whitelist H E k s.0).0,
      ((add_info_hash_to_whitelist H E k s.0).1, add_info_hash-IsHashColumn k s.0 s.1),
    );
    remove_info_hash_from_whitelist = λ k s. (
      (remove_info_hash_from_whitelist H E k s.0).0,
      ((remove_info_hash_from_whitelist H E k s.0).1, remove_info_hash-IsHashColumn k s.0 s.1),
    );
    load_lem = λ s l j h. (load_whitelist_lem s.0 s.1).2 l j h ∙ sym (rows_lem s j);
    get_lem = get_rows;
    add_ok = λ k s n j h.
        rows_lem ((add_info_hash_to_whitelist H E k s.0).1, add_info_hash-IsHashColumn k s.0 s.1) j
        ∙ (add_info_hash_ok k j s.0 n h ∙ ap (λ b. j == k || b) (sym (rows_lem s j)));
    add_err = λ k s e h. StoredDb-ext _ s (add_info_hash_err k s.0 e h);
    remove_ok = λ k s n j h.
        rows_lem
          ((remove_info_hash_from_whitelist H E k s.0).1, remove_info_hash-IsHashColumn k s.0 s.1) j
        ∙ (remove_info_hash_ok k j s.0 n h
            ∙ ap (λ b. if j == k then false else b) (sym (rows_lem s j)));
    remove_err = λ k s e h. StoredDb-ext _ s (remove_info_hash_err k s.0 e h);
  }
