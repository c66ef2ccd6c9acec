-- ===== src/TrackerCore/Databases/Sqlite/Queries.antt =====
-- What the queries of sqlite.rs give on a well-formed database: none of them panics.
use torrust_tracker.Prelude.{
  ℕ, ◌≡◌, ◌≢◌, inl, inr, Option, none, some, List, [], arith, Result, ok, err, Text,
  text_eq_instance, if◌then◌else◌, Result-cases, Option-cases,
}
use mathlib.Core.Option
use torrust_tracker.OrderedMap
use torrust_tracker.OrderedMap.{Map}
use torrust_tracker.HashMap
use torrust_tracker.HashMap.{HashMap}
use torrust_tracker.TrackerCore.Whitelist.{has}
use torrust_tracker.TrackerCore.Authentication.Key
use torrust_tracker.TrackerCore.Authentication.Key.{PeerKey, nanos}
use torrust_tracker.TrackerCore.Authentication.Key.Laws.{find_row}
use torrust_tracker.TrackerCore.Databases.{Error, InfoHashText, connection_pool, sqlite3}
use torrust_tracker.TrackerCore.Databases.Rows.{has_text, key_of_row}
use torrust_tracker.TrackerCore.Databases.Rows.Laws.{IsHashColumn}
use torrust_tracker.TrackerCore.Databases.Rusqlite.{Value, real, Engine}
use torrust_tracker.TrackerCore.Databases.Sqlite.{
  load_whitelist, from_rusqlite, collect_map, load_persistent_torrents,
  get_info_hash_from_whitelist, load_keys, get_key_from_keys,
}
use torrust_tracker.TrackerCore.Databases.Sqlite.WellFormed.{IsWellFormed}
use torrust_tracker.TrackerCore.Databases.Sqlite.Collect.{
  found_key, downloads_of, collect_whitelist, collect_keys, collect_torrents, read_time,
}

module _ (H : InfoHashText) (E : Engine) (db : E.Db)
    (hashes : IsHashColumn H (E.whitelist db)) where
  pub load_whitelist_lem :
      (r : Result Error (List ℕ)) × (load_whitelist H E db ≡ some r)
      × ((l : List ℕ) (j : ℕ) → r ≡ ok l → has j l ≡ has_text (H.to_string j) (E.whitelist db))
  unfolding load_whitelist
  load_whitelist_lem = elim (Result-cases (E.get db)) [
    | inr (e, q) ↦ (err (connection_pool sqlite3), ground arith, λ l j h. ground arith)
    | inl (u, q) ↦ elim (Result-cases (E.select_whitelist db)) [
      | inr (e, q') ↦ (err (from_rusqlite H E e), ground arith, λ l j h. ground arith)
      | inl (rows, q') ↦
          let (ks, all, same) = collect_whitelist H E (E.whitelist db) hashes in
          (ok ks, ground (arith, E.select_whitelist_ok db rows q'), λ l j h. ground (arith, same j))
    ]
  ]

  pub get_info_hash_lem :
      (k : ℕ)
      → (r : Result Error (Option ℕ)) × (get_info_hash_from_whitelist H E k db ≡ some r)
        × ((o : Option ℕ)
            → r ≡ ok o
            → o ≡ (if has_text (H.to_string k) (E.whitelist db) then some k else none))
  unfolding get_info_hash_from_whitelist
  get_info_hash_lem k = elim (Result-cases (E.get db)) [
    | inr (e, q) ↦ (err (connection_pool sqlite3), ground arith, λ o h. ground arith)
    | inl (u, q) ↦ elim (Result-cases (E.select_whitelist_row (H.to_hex_string k) db)) [
      | inr (e, q') ↦ (err (from_rusqlite H E e), ground arith, λ o h. ground arith)
      | inl (row, q') ↦ (
        ok (if has_text (H.to_string k) (E.whitelist db) then some k else none),
        ground (
          arith,
          E.select_whitelist_row_ok (H.to_hex_string k) db row q',
          H.to_hex_string_lem k,
          H.from_str-to_string k,
          E.column_string (H.to_string k),
        ),
        λ o h. ground arith,
      )
    ]
  ]

module _ (H : InfoHashText) (E : Engine) (db : E.Db) (wf : IsWellFormed H E db) where
  pub load_keys_lem :
      (r : Result Error (List PeerKey)) × (load_keys H E db ≡ some r)
      × ((l : List PeerKey) (k : Text)
          → r ≡ ok l
          → find_row k l ≡ found_key k (HashMap.get k (E.keys db)))
  unfolding load_keys
  load_keys_lem = elim (Result-cases (E.get db)) [
    | inr (e, q) ↦ (err (connection_pool sqlite3), ground arith, λ l k h. ground arith)
    | inl (u, q) ↦ elim (Result-cases (E.select_keys db)) [
      | inr (e, q') ↦ (err (from_rusqlite H E e), ground arith, λ l k h. ground arith)
      | inl (rows, q') ↦
          let (ps, all, same) = collect_keys H E (E.keys db) (E.keys-IsUnique db) wf.key_rows in
          (ok ps, ground (arith, E.select_keys_ok db rows q'), λ l k h. ground (arith, same k))
    ]
  ]

  pub load_persistent_torrents_lem :
      (r : Result Error (Map ℕ)) × (load_persistent_torrents H E db ≡ some r)
      × ((m : Map ℕ) (k : ℕ)
          → r ≡ ok m
          → OrderedMap.lookup k m
            ≡ Option.map downloads_of (HashMap.get (H.to_string k) (E.torrents db)))
  unfolding load_persistent_torrents OrderedMap.lookup
  load_persistent_torrents_lem = elim (Result-cases (E.get db)) [
    | inr (e, q) ↦ (err (connection_pool sqlite3), ground arith, λ m k h. ground arith)
    | inl (u, q) ↦ elim (Result-cases (E.select_torrents db)) [
      | inr (e, q') ↦ (err (from_rusqlite H E e), ground arith, λ m k h. ground arith)
      | inl (rows, q') ↦
          let (ps, all, same) =
            collect_torrents H E (E.torrents db) (E.torrents-IsUnique db) wf.torrent_rows in
          (
            ok (collect_map H E [] ps),
            ground (arith, E.select_torrents_ok db rows q'),
            λ m k h. ground (arith, same k []),
          )
    ]
  ]

  -- A key whose time can be read, or that is not there, is looked up without a panic.
  pub get_key_lem :
      (k : Key.Key)
      → HashMap.get k.value (E.keys db) ≢ some real
      → (r : Result Error (Option PeerKey)) × (get_key_from_keys H E k db ≡ some r)
        × ((o : Option PeerKey)
            → r ≡ ok o
            → o ≡ found_key k.value (HashMap.get k.value (E.keys db)))
  unfolding get_key_from_keys key_of_row
  get_key_lem k readable = elim (Result-cases (E.get db)) [
    | inr (e, q) ↦ (err (connection_pool sqlite3), ground arith, λ o h. ground arith)
    | inl (u, q) ↦ elim (Result-cases (E.select_key_row k.value db)) [
      | inr (e, q') ↦ (err (from_rusqlite H E e), ground arith, λ o h. ground arith)
      | inl (row, q') ↦ (
        ok (found_key k.value (HashMap.get k.value (E.keys db))),
        elim (Option-cases (HashMap.get k.value (E.keys db))) [
          | inl absent ↦ ground (arith, E.select_key_row_ok k.value db row q')
          | inr (v, present) ↦
              let (o, valid, stores) = wf.key_rows k.value v present in
              ground (
                arith,
                E.select_key_row_ok k.value db row q',
                E.column_string k.value,
                read_time H E o v stores,
              )
        ],
        λ o h. ground arith,
      )
    ]
  ]

  -- A lookup of a key whose time cannot be read panics, if the row is fetched.
  pub get_key_panics :
      (k : Key.Key) (u : Unit {0}) (row : Option (Value × Value))
      → HashMap.get k.value (E.keys db) ≡ some real
      → E.get db ≡ ok u
      → E.select_key_row k.value db ≡ ok row
      → get_key_from_keys H E k db ≡ none
  unfolding get_key_from_keys
  get_key_panics k u row late q q' =
      ground (arith, E.select_key_row_ok k.value db row q', E.column_real)
