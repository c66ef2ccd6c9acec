-- ===== src/TrackerCore/Databases/Sqlite/Runs.antt =====
-- What a later query of sqlite.rs reads of what was written before.
use torrust_tracker.Prelude.{
  ℕ, ◌≡◌, ◌≢◌, refl, ◌==◌, ◌*◌, ◌<◌, ◌≤◌, ◌^◌, inl, inr, Option, none, some, List, [], ◌∷◌, arith,
  ok, Text, text_eq, text_eq_iff, text_eq_instance, if◌then◌else◌, ltb, Bool-cases,
}
use mathlib.Core.Option
use torrust_tracker.HashMap
use torrust_tracker.OrderedMap
use torrust_tracker.OrderedMap.{Map}
use torrust_tracker.TrackerCore.Authentication.Key
use torrust_tracker.TrackerCore.Authentication.Key.{PeerKey, nanos, as_secs}
use torrust_tracker.TrackerCore.Authentication.Key.Laws.{find_row}
use torrust_tracker.TrackerCore.Databases.{InfoHashText}
use torrust_tracker.TrackerCore.Databases.Rows.Laws.{text_eq-to_string}
use torrust_tracker.TrackerCore.Databases.Rusqlite.{
  Value, Stores, Engine, insert_key, upsert_torrent,
}
use torrust_tracker.TrackerCore.Databases.Sqlite.{
  load_whitelist, load_keys, load_persistent_torrents, get_info_hash_from_whitelist,
  get_key_from_keys, add_key_to_keys, save_persistent_torrent, inserted, saved,
}
use torrust_tracker.TrackerCore.Databases.Sqlite.WellFormed.{IsWellFormed}
use torrust_tracker.TrackerCore.Databases.Sqlite.Collect.{found_key, downloads_of}
use torrust_tracker.TrackerCore.Databases.Sqlite.Queries.{
  load_whitelist_lem, load_keys_lem, load_persistent_torrents_lem, get_info_hash_lem,
  get_key_panics,
}
use torrust_tracker.TrackerCore.Databases.Sqlite.Writes.{
  change_cases, Write, IsTyped, write, write-IsWellFormed, add_key, save_torrent,
}

-- What is read back of a key: whole seconds, and nothing if the seconds are more than an `i64` holds.
abbrev pub reread : PeerKey → Option PeerKey
reread p = elim p.valid_until [
  | none ↦ some p
  | some t ↦
      if ltb (as_secs t) (2 ^ 63)
      then some (record p { valid_until = some (as_secs t * nanos) })
      else none
]

module _ (H : InfoHashText) (E : Engine) where
  abbrev pub AllTyped : List (Write H E) → Type 0
  AllTyped [] = Unit
  AllTyped (w ∷ ws) = IsTyped H E w × AllTyped ws

  abbrev pub run : List (Write H E) → E.Db → E.Db
  run [] db = db
  run (w ∷ ws) db = run ws (write H E w db)

  run-IsWellFormed :
      (ws : List (Write H E)) (db : E.Db)
      → AllTyped ws
      → IsWellFormed H E db
      → IsWellFormed H E (run ws db)
  run-IsWellFormed [] db typed wf = wf
  run-IsWellFormed (w ∷ ws) db (here, later) wf =
      run-IsWellFormed ws (write H E w db) later (write-IsWellFormed H E w db here wf)

  -- After any writes to a well-formed database, whether they succeeded or not, none of the queries
  -- that go over a table panics, nor does the lookup of an info hash.
  pub queries-run_total :
      (ws : List (Write H E)) (db : E.Db)
      → AllTyped ws
      → IsWellFormed H E db
      → (load_whitelist H E (run ws db) ≢ none)
        × (load_keys H E (run ws db) ≢ none)
        × (load_persistent_torrents H E (run ws db) ≢ none)
        × ((k : ℕ) → get_info_hash_from_whitelist H E k (run ws db) ≢ none)
  queries-run_total ws db typed wf =
      let wf' = run-IsWellFormed ws db typed wf in
      (
        ground (arith, load_whitelist_lem H E (run ws db) wf'.hashes),
        ground (arith, load_keys_lem H E (run ws db) wf'),
        ground (arith, load_persistent_torrents_lem H E (run ws db) wf'),
        λ k. ground (arith, get_info_hash_lem H E (run ws db) wf'.hashes k),
      )

  module _ (db : E.Db) (wf : IsWellFormed H E db) where
    loaded_keys :
        (l : List PeerKey) (k : Text)
        → load_keys H E db ≡ some (ok l)
        → find_row k l ≡ found_key k (HashMap.get k (E.keys db))
    loaded_keys l k h =
        let (r, answered, found) = load_keys_lem H E db wf in found l k (ground arith)

    loaded_torrents :
        (m : Map ℕ) (k : ℕ)
        → load_persistent_torrents H E db ≡ some (ok m)
        → OrderedMap.lookup k m
          ≡ Option.map downloads_of (HashMap.get (H.to_string k) (E.torrents db))
    loaded_torrents m k h =
        let (r, answered, found) = load_persistent_torrents_lem H E db wf in
        found m k (ground arith)

  stored_at :
      (k : Text) (o : Option ℕ) (v : Value)
      → Stores (Option.map as_secs o) v
      → found_key k (some v) ≡ reread (record { key = record { value = k }; valid_until = o })
  stored_at k none v stores = rw stores refl
  stored_at k (some t) v (fits, late) = elim (Bool-cases (ltb (as_secs t) (2 ^ 63))) [
    | inl small ↦ rw (fits (ground arith)) (ground arith)
    | inr large ↦ rw (late (ground arith)) (ground arith)
  ]

  found_key-stored :
      (p : PeerKey) (v : Value)
      → Stores (Option.map as_secs p.valid_until) v
      → found_key p.key.value (some v) ≡ reread p
  found_key-stored p v stores = stored_at p.key.value p.valid_until v stores

  added_key :
      (p : PeerKey) (db : E.Db) (n : ℕ) (k : Text)
      → (add_key_to_keys H E p db).0 ≡ ok n
      → found_key k (HashMap.get k (E.keys (add_key_to_keys H E p db).1))
        ≡ (if text_eq k p.key.value then reread p else found_key k (HashMap.get k (E.keys db)))
  unfolding add_key_to_keys
  added_key p db n k h =
      let secs = Option.map as_secs p.valid_until in
      elim (change_cases H E (insert_key p.key.value secs) (inserted H E) db) [
        | inl (same, (e, failed)) ↦ ground arith
        | inr (m, done, tested, after) ↦
            let (one, (v, stores, found)) = E.insert_key_ok p.key.value k secs db m done in
            ground (arith, found_key-stored p v stores, text_eq_iff k p.key.value)
      ]

  module _ (db : E.Db) (wf : IsWellFormed H E db) where
    -- Keys loaded after a key was added are those loaded before, with the new key; its expiry is
    -- in whole seconds, and a key whose expiry an `i64` does not hold is missing.
    pub find_row-load_keys :
        (p : PeerKey) (n : ℕ) (before after : List PeerKey) (k : Text)
        → Key.new p.key.value ≡ ok p.key
        → load_keys H E db ≡ some (ok before)
        → (add_key_to_keys H E p db).0 ≡ ok n
        → load_keys H E (add_key_to_keys H E p db).1 ≡ some (ok after)
        → find_row k after ≡ (if text_eq k p.key.value then reread p else find_row k before)
    find_row-load_keys p n before after k valid loaded added reloaded = ground (
      arith,
      loaded_keys db wf before k loaded,
      loaded_keys (add_key_to_keys H E p db).1 (write-IsWellFormed H E (add_key p) db valid wf)
          after k reloaded,
      added_key p db n k added,
    )

    -- Numbers of downloads loaded after one was saved are those loaded before, with the new one.
    pub lookup-load_persistent_torrents :
        (k n : ℕ) (before after : Map ℕ) (j : ℕ)
        → n < 2 ^ 32
        → load_persistent_torrents H E db ≡ some (ok before)
        → (save_persistent_torrent H E k n db).0 ≡ ok tt
        → load_persistent_torrents H E (save_persistent_torrent H E k n db).1 ≡ some (ok after)
        → OrderedMap.lookup j after ≡ (if j == k then some n else OrderedMap.lookup j before)
    unfolding save_persistent_torrent
    lookup-load_persistent_torrents k n before after j bound loaded stored reloaded =
        let now =
          loaded_torrents (save_persistent_torrent H E k n db).1
            (write-IsWellFormed H E (save_torrent k n) db bound wf) after j reloaded in
        elim (change_cases H E (upsert_torrent (H.to_string k) n) (saved H E) db) [
          | inl (same, (e, failed)) ↦ ground arith
          | inr (m, done, tested, changed) ↦ ground (
            arith,
            now,
            loaded_torrents db wf before j loaded,
            E.upsert_torrent_ok (H.to_string k) (H.to_string j) n db m (omega arith) done,
            text_eq-to_string H j k,
          )
        ]

    -- After a key with an expiry that an `i64` does not hold was added, looking it up panics, if
    -- its row is fetched.
    pub get_key-add_key_panics :
        (p : PeerKey) (t n : ℕ) (u : Unit {0}) (row : Option (Value × Value))
        → Key.new p.key.value ≡ ok p.key
        → p.valid_until ≡ some t
        → 2 ^ 63 ≤ as_secs t
        → (add_key_to_keys H E p db).0 ≡ ok n
        → E.get (add_key_to_keys H E p db).1 ≡ ok u
        → E.select_key_row p.key.value (add_key_to_keys H E p db).1 ≡ ok row
        → get_key_from_keys H E p.key (add_key_to_keys H E p db).1 ≡ none
    unfolding add_key_to_keys
    get_key-add_key_panics p t n u row valid until late added connected fetched =
        elim (change_cases H E (insert_key p.key.value (Option.map as_secs p.valid_until))
          (inserted H E) db) [
            | inl (same, (e, failed)) ↦ ground arith
            | inr (m, done, tested, changed) ↦
                let (one, (v, stores, found)) =
                  E.insert_key_ok p.key.value p.key.value (Option.map as_secs p.valid_until) db m
                    done in
                get_key_panics H E (add_key_to_keys H E p db).1
                  (write-IsWellFormed H E (add_key p) db valid wf) p.key u row
                  (ground (arith, text_eq_iff p.key.value p.key.value)) connected fetched
          ]
