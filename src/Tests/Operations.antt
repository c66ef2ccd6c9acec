-- ===== src/Tests/Operations.antt =====
-- Examples of the theorems on the API of the keys and the torrents, and on the start of the tracker.
use torrust_tracker.Prelude.{
  ℕ, ◌+◌, ◌*◌, ◌≤◌, ◌≡◌, true, false, refl, Option, none, some, List, [], ◌∷◌, arith, if◌then◌else◌,
  ltb, ok, Text, codes, All, length, ◌==◌,
}
use mathlib.Core.Option
use torrust_tracker.HashMap
use torrust_tracker.OrderedMap
use torrust_tracker.Primitives.Metrics.{new_with_options}
use torrust_tracker.TorrentRepository.Repository.Invariant.{run-IsValid, empty_repository-IsValid}
use torrust_tracker.TorrentRepository.Repository.{empty}
use torrust_tracker.TorrentRepository.Repository.Invariant
use torrust_tracker.TrackerCore.InMemory.{InMemoryTorrentRepository}
use torrust_tracker.TrackerCore.Torrents.{get_torrents_page}
use torrust_tracker.TrackerCore.Whitelist as Whitelist
use torrust_tracker.TrackerCore.Whitelist.{
  WhitelistManager, authorize, contains, load_whitelist_from_database,
}
use torrust_tracker.TrackerCore.Whitelist.Laws as Lists
use torrust_tracker.TrackerCore.Authentication.Key
use torrust_tracker.TrackerCore.Authentication.Key.{
  PeerKey, authenticate, unable_to_read_key, nanos,
}
use torrust_tracker.TrackerCore.Authentication.Handler.{
  KeysHandler, AddKeyRequest, add_peer_key, load_peer_keys_from_database,
}
use torrust_tracker.TrackerCore.Authentication.Handler.Laws as Keys
use torrust_tracker.TrackerCore.Authentication.Handler.Laws.{stored_expiry}
use torrust_tracker.TrackerCore.Databases.Rows.Laws.{IsHashColumn}
use torrust_tracker.TrackerCore.Databases.Sqlite.Store.{sqlite_whitelist}
use torrust_tracker.Api.Middleware as Api
use torrust_tracker.Api.Middleware.{AccessTokens, AuthKey, closed}
use torrust_tracker.Api.Whitelist as WhitelistApi
use torrust_tracker.TrackerCore.Databases.Rows.{has_text}
use torrust_tracker.Api.Whitelist.Laws.{serve_each}
use torrust_tracker.Api.Whitelist.Drivers.{contains-serve_each_same}
use torrust_tracker.Api.Whitelist.Stored.{contains-serve_each}
use torrust_tracker.Api.AuthKey.{Chrono, serve, add_auth_key_handler}
use torrust_tracker.Api.AuthKey.Laws.{add_auth_key_handler_closes}
use torrust_tracker.Api.Torrent.{QueryParams, get_torrents_handler}
use torrust_tracker.Api.Torrent.Laws.{Agrees, get_torrents_handler-shows}
use torrust_tracker.App.{Configuration, Job, AppContainer, start_jobs, start}
use torrust_tracker.App.Laws.{wanted, all_or_none, start_jobs_lem}
use torrust_tracker.App.Restart.{authorize-restart, expiry-restart}
use torrust_tracker.Tests.Samples.{core, address, operations}
use torrust_tracker.Tests.Stores.{key_table, whitelist_table}
use torrust_tracker.Tests.Database.{Tables, one_character, tables}

-- Dates up to the year 262142.
abbrev calendar : Chrono
calendar = record {
  DateTime = ℕ;
  from_timestamp = λ secs. if ltb secs 8_210_266_876_800 then some secs else none;
  to_string = λ date. date ∷ [];
}

abbrev tokens : AccessTokens
tokens = (codes "admin", codes "a") ∷ []

abbrev key_text : Text
key_text = codes "YZSl4lMZupRuOpSRC3krIKR5BPB14nrJ"

abbrev key : Key.Key
key = record { value = key_text }

abbrev keys_handler : KeysHandler key_table
keys_handler = record { db = []; in_memory = record { keys = [] } }

-- A key that is valid for a minute.
abbrev form : AddKeyRequest
form = record { opt_key = some key_text; opt_seconds_valid = some 60 }

abbrev resource : AuthKey
resource = record { key = key_text; valid_until = some 60; expiry_time = some (60 ∷ []) }

-- A key that is valid for a million years.
abbrev long_form : AddKeyRequest
long_form = record { opt_key = some key_text; opt_seconds_valid = some 31_556_952_000_000 }

abbrev long_key : PeerKey
long_key = record { key = key; valid_until = some (1000 + 31_556_952_000_000 * nanos) }

add_auth_key_handler_closes_example :
    ((add_auth_key_handler calendar key_table keys_handler key 1000 long_form).0 ≡ closed)
    × (authenticate core
          (add_auth_key_handler calendar key_table keys_handler key 1000 long_form).1.in_memory
          5
          key
        ≡ ok tt)
unfolding add_peer_key Key.now_add Key.new
add_auth_key_handler_closes_example =
    add_auth_key_handler_closes calendar key_table core key 1000 keys_handler long_form long_key
      (1000 + 31_556_952_000_000 * nanos) 5 refl refl refl refl refl (omega arith)

abbrev torrents : InMemoryTorrentRepository
torrents = record { torrents = Invariant.run empty operations }

abbrev first_page : QueryParams
first_page = record { offset = none; limit = some 5; info_hashes = [] }

get_torrents_handler-shows_example :
    All (Agrees torrents) (get_torrents_page torrents (some (new_with_options none (some 5))))
    × (◌≡◌ {A = List Text} [] []
        → length (get_torrents_page torrents (some (new_with_options none (some 5))))
          ≤ (new_with_options none (some 5)).limit)
unfolding get_torrents_handler
get_torrents_handler-shows_example =
    get_torrents_handler-shows (Unit {0}) (λ t. none) torrents first_page
      (get_torrents_page torrents (some (new_with_options none (some 5))))
      (run-IsValid empty operations empty_repository-IsValid) refl

-- A tracker with two UDP servers, an API and a cleanup every ten minutes.
abbrev configuration : Configuration
configuration = record {
  core = record core { private_tracker = false };
  inactive_peer_cleanup_interval = 600;
  udp_trackers = some (address 1 ∷ address 2 ∷ []);
  http_trackers = none;
  http_api = some (address 3);
  health_check_api = address 4;
}

start_jobs_lem_example :
    start_jobs (λ job. true) configuration ≡ all_or_none (λ job. true) (wanted configuration)
start_jobs_lem_example = start_jobs_lem (λ job. true) configuration

-- A whitelist in an empty database of SQLite, as the driver offers it.
abbrev store : Whitelist.WhitelistStore
store = sqlite_whitelist one_character tables

abbrev no_rows : Tables
no_rows = record { texts = []; key_rows = ([], tt); torrent_rows = ([], tt) }

no_rows_hashes : IsHashColumn one_character no_rows.texts
no_rows_hashes t h = ground arith

abbrev manager : WhitelistManager store
manager = record { db = (no_rows, no_rows_hashes); in_memory = Whitelist.empty }

abbrev parse : Text → Option ℕ
parse [] = none
parse (c ∷ text) = if c == 55 then some 7 else none

abbrev calls : List (Option Text × WhitelistApi.Request)
calls = (some (codes "a"), WhitelistApi.post (codes "7")) ∷ []

contains-serve_each_example :
    contains (serve_each store parse tokens calls manager).in_memory 7
    ≡ has_text (7 ∷ []) (tables.whitelist (serve_each store parse tokens calls manager).db.0)
unfolding contains OrderedMap.lookup
contains-serve_each_example =
    contains-serve_each one_character tables parse tokens calls manager 7 (λ i. refl)

-- Torrent 5 is on the whitelist, and 7 is added.
abbrev listing : WhitelistManager whitelist_table
listing = record { in_memory = record { whitelist = (5, tt) ∷ [] }; db = 5 ∷ [] }

listing-InSync : Lists.InSync whitelist_table listing
unfolding contains OrderedMap.lookup
listing-InSync j = ground arith

-- The same whitelist, in a database with a row twice.
abbrev doubled : WhitelistManager whitelist_table
doubled = record listing { db = 5 ∷ 5 ∷ [] }

doubled-InSync : Lists.InSync whitelist_table doubled
unfolding contains OrderedMap.lookup
doubled-InSync j = ground arith

contains-serve_each_same_example :
    contains (serve_each whitelist_table parse tokens calls listing).in_memory 7
    ≡ contains (serve_each whitelist_table parse tokens calls doubled).in_memory 7
unfolding WhitelistApi.serve Whitelist.add_torrent_to_whitelist
contains-serve_each_same_example =
    contains-serve_each_same parse tokens whitelist_table whitelist_table calls listing doubled
      listing-InSync doubled-InSync (λ i. refl) refl 7

abbrev after : WhitelistManager whitelist_table
after = serve_each whitelist_table parse tokens calls listing

abbrev stopped : AppContainer (λ job. true) key_table whitelist_table
stopped = record {
  keys_handler = keys_handler;
  whitelist_manager = record { db = after.db; in_memory = Whitelist.empty };
}

abbrev ready : AppContainer (λ job. true) key_table whitelist_table
ready = record {
  keys_handler = keys_handler;
  whitelist_manager = (load_whitelist_from_database whitelist_table stopped.whitelist_manager).1;
}

abbrev jobs : List Job
jobs = wanted configuration

authorize-restart_example :
    authorize configuration.core ready.whitelist_manager.in_memory 7
    ≡ authorize configuration.core after.in_memory 7
unfolding start load_whitelist_from_database
authorize-restart_example =
    authorize-restart (λ job. true) key_table whitelist_table configuration stopped ready jobs refl
      parse tokens calls listing 7 refl listing-InSync refl

-- A private tracker with a key.
abbrev private_configuration : Configuration
private_configuration = record configuration { core = core }

abbrev one_key : KeysHandler key_table
one_key = record {
  db = (key_text, some 60) ∷ [];
  in_memory = record {
    keys = (key_text, record { key = key; valid_until = some (60 * nanos + 5) }) ∷ [];
  };
}

one_key-InSync : Keys.InSync key_table one_key
unfolding Key.get HashMap.get
one_key-InSync k = ground arith

abbrev forgetful : AppContainer (λ job. true) key_table whitelist_table
forgetful = record {
  keys_handler = record one_key { in_memory = record { keys = [] } };
  whitelist_manager = listing;
}

abbrev reloaded : AppContainer (λ job. true) key_table whitelist_table
reloaded = record {
  keys_handler = (load_peer_keys_from_database key_table forgetful.keys_handler).1;
  whitelist_manager = (load_whitelist_from_database whitelist_table listing).1;
}

expiry-restart_example :
    stored_expiry (Key.get reloaded.keys_handler.in_memory key)
    ≡ stored_expiry (Key.get one_key.in_memory key)
unfolding start load_whitelist_from_database load_peer_keys_from_database
expiry-restart_example =
    expiry-restart (λ job. true) key_table whitelist_table private_configuration forgetful reloaded
      (wanted private_configuration) refl one_key key_text refl one_key-InSync refl
