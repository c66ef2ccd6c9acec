-- ===== src/TrackerCore/Databases/Mysql/Columns.antt =====
-- What the columns that mysql.rs makes refuse, and that no write of the driver changes the columns.
use torrust_tracker.Prelude.{
  ℕ, ◌-◌, ◌≡◌, refl, ◌∙◌, ◌≤◌, ◌^◌, inl, inr, none, some, List, [], ◌∷◌, arith, ok, err,
}
use mathlib.Core.Option
use torrust_tracker.TrackerCore.Authentication.Key
use torrust_tracker.TrackerCore.Authentication.Key.{PeerKey, as_secs}
use torrust_tracker.TrackerCore.Databases.{Error, InfoHashText}
use torrust_tracker.TrackerCore.Databases.Rusqlite.{
  Statement, insert_whitelist, delete_whitelist, insert_key, delete_key, upsert_torrent, Table,
  whitelist_table, keys_table, torrents_table,
}
use torrust_tracker.TrackerCore.Databases.MysqlCrate.{int, create_table_if_not_exists, Engine}
use torrust_tracker.TrackerCore.Databases.Mysql.{
  change, save_persistent_torrent, add_info_hash_to_whitelist, remove_info_hash_from_whitelist,
  add_key_to_keys, remove_key_from_keys,
}
use torrust_tracker.TrackerCore.Databases.Mysql.Changes.{change_cases}
use torrust_tracker.TrackerCore.Databases.Mysql.Tables.{
  create_whitelist_table, create_torrents_table, create_keys_table, query_each, connected,
  create_database_tables,
}

module _ (E : Engine) where
  -- Where the table of the keys did not exist, it has the columns of the driver once its tables were
  -- made.
  columns-create_database_tables :
      (db : E.Db)
      → E.columns keys_table db ≡ none
      → (create_database_tables E db).0 ≡ some (ok tt)
      → E.columns keys_table (create_database_tables E db).1 ≡ some create_keys_table
  unfolding create_database_tables connected query_each
  columns-create_database_tables db fresh done =
      let first = create_table_if_not_exists torrents_table create_torrents_table in
      let second = create_table_if_not_exists keys_table create_keys_table in
      let third = create_table_if_not_exists whitelist_table create_whitelist_table in
      let db1 = (E.query_drop first db).1 in
      let db2 = (E.query_drop second db1).1 in
      ground (
        arith,
        E.keeps_other_columns first keys_table db (cc),
        E.create_table_ok keys_table create_keys_table db1,
        E.keeps_other_columns third keys_table db2 (cc),
      )

module _ (H : InfoHashText) (E : Engine) where
  columns-change :
      {A : Type 0} (st : Statement) (a : A) (t : Table) (db : E.Db)
      → E.columns t (change H E st a db).1 ≡ E.columns t db
  columns-change st a t db = elim (change_cases H E st a db) [
    | inl (same, failed) ↦ rw same refl
    | inr (done, result, after) ↦ rw after (E.keeps_columns st t db)
  ]

  -- The writes of the trait `Database`.
  pub data Write : Type 0 where
    save_torrent : ℕ → ℕ → Write
    add_hash remove_hash : ℕ → Write
    add_key : PeerKey → Write
    remove_key : Key.Key → Write

  abbrev pub write : Write → E.Db → E.Db
  write (save_torrent k n) db = (save_persistent_torrent H E k n db).1
  write (add_hash k) db = (add_info_hash_to_whitelist H E k db).1
  write (remove_hash k) db = (remove_info_hash_from_whitelist H E k db).1
  write (add_key p) db = (add_key_to_keys H E p db).1
  write (remove_key k) db = (remove_key_from_keys H E k db).1

  columns-write : (w : Write) (t : Table) (db : E.Db) → E.columns t (write w db) ≡ E.columns t db
  unfolding save_persistent_torrent add_info_hash_to_whitelist remove_info_hash_from_whitelist
      add_key_to_keys remove_key_from_keys
  columns-write (save_torrent k n) = columns-change (upsert_torrent (H.to_string k) n) tt
  columns-write (add_hash k) = columns-change {A = ℕ} (insert_whitelist (H.to_string k)) 1
  columns-write (remove_hash k) = columns-change {A = ℕ} (delete_whitelist (H.to_string k)) 1
  columns-write (add_key p) =
      columns-change {A = ℕ} (insert_key p.key.value (Option.map as_secs p.valid_until)) 1
  columns-write (remove_key k) = columns-change {A = ℕ} (delete_key k.value) 1

  abbrev pub run : List Write → E.Db → E.Db
  run [] db = db
  run (w ∷ ws) db = run ws (write w db)

  columns-run : (ws : List Write) (t : Table) (db : E.Db) → E.columns t (run ws db) ≡ E.columns t db
  columns-run [] t db = refl
  columns-run (w ∷ ws) t db = columns-run ws t (write w db) ∙ columns-write w t db

  late_key_fails :
      (p : PeerKey) (t : ℕ) (db : E.Db)
      → E.columns keys_table db ≡ some create_keys_table
      → p.valid_until ≡ some t
      → 2 ^ 31 ≤ as_secs t
      → (e : Error) × (add_key_to_keys H E p db ≡ (err e, db))
  unfolding add_key_to_keys create_keys_table
  late_key_fails p t db made until late =
      elim (change_cases H E {A = ℕ} (insert_key p.key.value (Option.map as_secs p.valid_until)) 1
        db) [
          | inl (same, (e, failed)) ↦ (e, ground arith)
          | inr (done, result, after) ↦ absurd (
              E.insert_out_of_range p.key.value (as_secs t) (2 ^ 31 - 1) create_keys_table
                (int (some 10)) db made refl (E.largest_int (some 10)) (omega (arith, late))
                (ground arith))
        ]

  -- Where MySQL is in its strict mode, and the driver made the table of the keys, which did not exist
  -- before: after any writes of the driver, a key that expires 2^31 seconds after the epoch or later,
  -- which is in 2038, cannot be added; the attempt fails with an error and leaves the database as it
  -- was.
  pub add_key_to_keys_late :
      (db : E.Db) (ws : List Write) (p : PeerKey) (t : ℕ)
      → E.columns keys_table db ≡ none
      → (create_database_tables E db).0 ≡ some (ok tt)
      → p.valid_until ≡ some t
      → 2 ^ 31 ≤ as_secs t
      → (e : Error) × (add_key_to_keys H E p (run ws (create_database_tables E db).1)
          ≡ (err e, run ws (create_database_tables E db).1))
  add_key_to_keys_late db ws p t fresh done =
      late_key_fails p t (run ws (create_database_tables E db).1) (
        columns-run ws keys_table (create_database_tables E db).1
        ∙ columns-create_database_tables E db fresh done)
