-- ===== src/TrackerCore/Databases/Sqlite/Writes.antt =====
-- What the writes of sqlite.rs leave in the database, and that it stays well-formed.
use torrust_tracker.Prelude.{
  ℕ, ◌≡◌, refl, sym, ◌∙◌, ◌<◌, ◌^◌, ◌⊎◌, inl, inr, arith, Result, ok, err, Text, text_eq,
  text_eq_iff, text_eq_instance, Result-cases, Bool-cases,
}
use mathlib.Core.Option
use torrust_tracker.TrackerCore.Authentication.Key
use torrust_tracker.TrackerCore.Authentication.Key.{PeerKey, nanos, as_secs}
use torrust_tracker.TrackerCore.Databases.{Error, InfoHashText, connection_pool, sqlite3}
use torrust_tracker.TrackerCore.Databases.Rows.Laws.{is_hash-to_string, IsHashColumn}
use torrust_tracker.TrackerCore.Databases.Rusqlite.{
  Engine, Statement, insert_whitelist, delete_whitelist, insert_key, delete_key, upsert_torrent,
}
use torrust_tracker.TrackerCore.Databases.Sqlite.{
  change, from_rusqlite, save_persistent_torrent, add_info_hash_to_whitelist,
  remove_info_hash_from_whitelist, add_key_to_keys, remove_key_from_keys,
}
use torrust_tracker.TrackerCore.Databases.Sqlite.WellFormed.{key_of, IsWellFormed}

module _ (H : InfoHashText) where
  -- A statement whose new row, if it has one, is that of an info hash or a key.
  abbrev pub IsProper : Statement → Type 0
  IsProper (insert_whitelist t) = (k : ℕ) × (t ≡ H.to_string k)
  IsProper (delete_whitelist t) = Unit
  IsProper (insert_key t m) = Key.new t ≡ ok (key_of t)
  IsProper (delete_key t) = Unit
  IsProper (upsert_torrent t n) = (k : ℕ) × (t ≡ H.to_string k) × (n < 2 ^ 32)

  module _ (E : Engine) where
    pub insert_whitelist-IsHashColumn :
        (k : ℕ) (db : E.Db) (n : ℕ)
        → (E.execute (insert_whitelist (H.to_string k)) db).0 ≡ ok n
        → IsHashColumn H (E.whitelist db)
        → IsHashColumn H (E.whitelist (E.execute (insert_whitelist (H.to_string k)) db).1)
    insert_whitelist-IsHashColumn k db n done hashes u member =
        elim (Bool-cases (text_eq u (H.to_string k))) [
          | inl same ↦ rw ((text_eq_iff u (H.to_string k)).0 same) (is_hash-to_string H k)
          | inr other ↦ hashes u (ground (arith, E.insert_whitelist_ok (H.to_string k) u db n done))
        ]

    pub delete_whitelist-IsHashColumn :
        (t : Text) (db : E.Db) (n : ℕ)
        → (E.execute (delete_whitelist t) db).0 ≡ ok n
        → IsHashColumn H (E.whitelist db)
        → IsHashColumn H (E.whitelist (E.execute (delete_whitelist t) db).1)
    delete_whitelist-IsHashColumn t db n done hashes u member =
        hashes u (ground (arith, E.delete_whitelist_ok t u db n done))

    -- A statement that succeeds keeps the database well-formed.
    execute-IsWellFormed :
        (st : Statement) (db : E.Db) (n : ℕ)
        → IsProper st
        → (E.execute st db).0 ≡ ok n
        → IsWellFormed H E db
        → IsWellFormed H E (E.execute st db).1
    execute-IsWellFormed (insert_whitelist t) db n (k, e) done wf = record {
      hashes = rw e (insert_whitelist-IsHashColumn k db n (rw (sym e) done) wf.hashes);
      key_rows = rw (E.keeps_keys (insert_whitelist t) db cc) wf.key_rows;
      torrent_rows = rw (E.keeps_torrents (insert_whitelist t) db cc) wf.torrent_rows;
    }
    execute-IsWellFormed (delete_whitelist t) db n proper done wf = record {
      hashes = delete_whitelist-IsHashColumn t db n done wf.hashes;
      key_rows = rw (E.keeps_keys (delete_whitelist t) db cc) wf.key_rows;
      torrent_rows = rw (E.keeps_torrents (delete_whitelist t) db cc) wf.torrent_rows;
    }
    execute-IsWellFormed (insert_key t m) db n valid done wf = record {
      hashes = rw (E.keeps_whitelist (insert_key t m) db cc) wf.hashes;
      key_rows = λ u w found.
          let (one, (v, stores, after)) = E.insert_key_ok t u m db n done in
          elim (Bool-cases (text_eq u t)) [
            | inl same ↦ (
              m,
              rw ((text_eq_iff u t).0 same) valid,
              let e : w ≡ v = ground arith in rw e stores,
            )
            | inr other ↦ wf.key_rows u w (ground arith)
          ];
      torrent_rows = rw (E.keeps_torrents (insert_key t m) db cc) wf.torrent_rows;
    }
    execute-IsWellFormed (delete_key t) db n proper done wf = record {
      hashes = rw (E.keeps_whitelist (delete_key t) db cc) wf.hashes;
      key_rows = λ u w found. wf.key_rows u w (ground (arith, E.delete_key_ok t u db n done));
      torrent_rows = rw (E.keeps_torrents (delete_key t) db cc) wf.torrent_rows;
    }
    execute-IsWellFormed (upsert_torrent t m) db n (k, e, bound) done wf = record {
      hashes = rw (E.keeps_whitelist (upsert_torrent t m) db cc) wf.hashes;
      key_rows = rw (E.keeps_keys (upsert_torrent t m) db cc) wf.key_rows;
      torrent_rows = λ u w found.
          let (one, after) = E.upsert_torrent_ok t u m db n (omega arith) done in
          elim (Bool-cases (text_eq u t)) [
            | inl same ↦ (k, m, (text_eq_iff u t).0 same ∙ e, ground arith, bound)
            | inr other ↦ wf.torrent_rows u w (ground arith)
          ];
    }

    -- A statement changes the database only if it is executed, and succeeds.
    pub change_cases :
        {A : Type 0} (st : Statement) (test : ℕ → Result Error A) (db : E.Db)
        → (((change H E st test db).1 ≡ db) × ((e : Error) × ((change H E st test db).0 ≡ err e)))
          ⊎ ((n : ℕ) × ((E.execute st db).0 ≡ ok n)
              × ((change H E st test db).0 ≡ test n)
              × ((change H E st test db).1 ≡ (E.execute st db).1))
    unfolding change
    change_cases st test db = elim (Result-cases (E.get db)) [
      | inr (e, q) ↦ inl (ground arith, (connection_pool sqlite3, ground arith))
      | inl (u, q) ↦ elim (Result-cases (E.execute st db).0) [
        | inr (e, q') ↦
            inl (ground (arith, E.execute_err st db e), (from_rusqlite H E e, ground arith))
        | inl (n, q') ↦ inr (n, q', ground arith, ground arith)
      ]
    ]

    change-IsWellFormed :
        {A : Type 0} (st : Statement) (test : ℕ → Result Error A) (db : E.Db)
        → IsProper st
        → IsWellFormed H E db
        → IsWellFormed H E (change H E st test db).1
    change-IsWellFormed st test db proper wf = elim (change_cases st test db) [
      | inl (same, failed) ↦ rw same wf
      | inr (n, done, tested, after) ↦ rw after (execute-IsWellFormed st db n proper done wf)
    ]

    -- The writes of the trait `Database`.
    pub data Write : Type 0 where
      save_torrent : ℕ → ℕ → Write
      add_hash remove_hash : ℕ → Write
      add_key : PeerKey → Write
      remove_key : Key.Key → Write

    -- What the types of the program ensure: a `u32`, and a `Key`, which is made by parsing its text.
    abbrev pub IsTyped : Write → Type 0
    IsTyped (save_torrent k n) = n < 2 ^ 32
    IsTyped (add_hash k) = Unit
    IsTyped (remove_hash k) = Unit
    IsTyped (add_key p) = Key.new p.key.value ≡ ok p.key
    IsTyped (remove_key k) = Unit

    abbrev pub write : Write → E.Db → E.Db
    write (save_torrent k n) db = (save_persistent_torrent H E k n db).1
    write (add_hash k) db = (add_info_hash_to_whitelist H E k db).1
    write (remove_hash k) db = (remove_info_hash_from_whitelist H E k db).1
    write (add_key p) db = (add_key_to_keys H E p db).1
    write (remove_key k) db = (remove_key_from_keys H E k db).1

    pub write-IsWellFormed :
        (w : Write) (db : E.Db) → IsTyped w → IsWellFormed H E db → IsWellFormed H E (write w db)
    unfolding save_persistent_torrent add_info_hash_to_whitelist remove_info_hash_from_whitelist
        add_key_to_keys remove_key_from_keys
    write-IsWellFormed (save_torrent k n) db typed wf =
        change-IsWellFormed (upsert_torrent (H.to_string k) n) _ db (k, refl, typed) wf
    write-IsWellFormed (add_hash k) db typed wf =
        change-IsWellFormed (insert_whitelist (H.to_string k)) _ db (k, refl) wf
    write-IsWellFormed (remove_hash k) db typed wf =
        change-IsWellFormed (delete_whitelist (H.to_string k)) _ db tt wf
    write-IsWellFormed (add_key p) db typed wf =
        change-IsWellFormed (insert_key p.key.value (Option.map as_secs p.valid_until)) _ db typed
          wf
    write-IsWellFormed (remove_key k) db typed wf =
        change-IsWellFormed (delete_key k.value) _ db tt wf
