-- ===== src/Tests/Drivers.antt =====
-- Examples of the theorems on the drivers of the database.
use torrust_tracker.Prelude.{
  ℕ, ◌*◌, ◌^◌, ◌≡◌, ◌≢◌, refl, none, some, [], ◌∷◌, ok, Text, codes, arith, List,
}
use torrust_tracker.HashMap
use torrust_tracker.OrderedMap
use torrust_tracker.OrderedMap.{Map}
use torrust_tracker.TrackerCore.Databases.Rows
use torrust_tracker.TrackerCore.Authentication.Key
use torrust_tracker.TrackerCore.Authentication.Key.{PeerKey, nanos}
use torrust_tracker.TrackerCore.Authentication.Key.Laws.{find_row}
use torrust_tracker.TrackerCore.Databases.Sqlite.{
  load_whitelist, load_keys, load_persistent_torrents, get_info_hash_from_whitelist,
  add_key_to_keys, save_persistent_torrent,
}
use torrust_tracker.TrackerCore.Databases.Sqlite.WellFormed.{IsWellFormed}
use torrust_tracker.TrackerCore.Databases.Sqlite.Writes.{Write, add_hash, add_key, save_torrent}
use torrust_tracker.TrackerCore.Databases.Sqlite.Runs.{
  run, queries-run_total, find_row-load_keys, lookup-load_persistent_torrents,
}
use torrust_tracker.Tests.Database.{Tables, one_character, tables}

abbrev no_rows : Tables
no_rows = record { texts = []; key_rows = ([], tt); torrent_rows = ([], tt) }

no_rows-IsWellFormed : IsWellFormed one_character tables no_rows
unfolding HashMap.get
no_rows-IsWellFormed = record {
  hashes = λ t h. ground arith;
  key_rows = λ t v h. ground arith;
  torrent_rows = λ t v h. ground arith;
}

abbrev text_of_key : Text
text_of_key = codes "YZSl4lMZupRuOpSRC3krIKR5BPB14nrJ"

-- A key that is valid until a second and a half after the epoch.
abbrev early : PeerKey
early = record { key = record { value = text_of_key }; valid_until = some 1_500_000_000 }

-- The same key, valid for longer than an `i64` counts.
abbrev late : PeerKey
late = record { key = record { value = text_of_key }; valid_until = some (2 ^ 63 * nanos) }

early_valid : Key.new text_of_key ≡ ok (record { value = text_of_key })
unfolding Key.new
early_valid = refl

abbrev writes : List (Write one_character tables)
writes = add_hash 7 ∷ add_key early ∷ save_torrent 7 3 ∷ []

queries-run_total_example :
    (load_whitelist one_character tables (run one_character tables writes no_rows) ≢ none)
    × (load_keys one_character tables (run one_character tables writes no_rows) ≢ none)
    × (load_persistent_torrents one_character tables (run one_character tables writes no_rows)
        ≢ none)
    × ((k : ℕ)
        → get_info_hash_from_whitelist one_character tables k
            (run one_character tables writes no_rows)
          ≢ none)
queries-run_total_example =
    queries-run_total one_character tables writes no_rows (tt, (early_valid, (omega arith, tt)))
      no_rows-IsWellFormed

-- The key is read back with its expiry in whole seconds.
find_row-load_keys_example :
    find_row text_of_key
      (record { key = record { value = text_of_key }; valid_until = some (1 * nanos) } ∷ [])
    ≡ some (record { key = record { value = text_of_key }; valid_until = some (1 * nanos) })
unfolding load_keys add_key_to_keys Rows.collect_ok HashMap.get HashMap.insert Key.new
find_row-load_keys_example =
    find_row-load_keys one_character tables no_rows no_rows-IsWellFormed early 1 []
      (record { key = record { value = text_of_key }; valid_until = some (1 * nanos) } ∷ [])
      text_of_key early_valid refl refl refl

abbrev saved : Map ℕ
saved = (7, 3) ∷ []

lookup-load_persistent_torrents_example : OrderedMap.lookup 7 saved ≡ some 3
unfolding load_persistent_torrents save_persistent_torrent Rows.collect_ok HashMap.get
    HashMap.insert OrderedMap.insert
lookup-load_persistent_torrents_example =
    lookup-load_persistent_torrents one_character tables no_rows no_rows-IsWellFormed 7 3 [] saved 7
      (omega arith) refl refl refl
