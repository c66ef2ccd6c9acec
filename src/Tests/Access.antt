-- ===== src/Tests/Access.antt =====
-- Examples of the theorems on the whitelist, its API and the keys.
use torrust_tracker.Prelude.{
  ◌^◌, true, ◌≡◌, ℕ, Option, List, ◌==◌, refl, none, some, [], ◌∷◌, arith, if◌then◌else◌, ok, err,
  Text, codes,
}
use torrust_tracker.OrderedMap
use torrust_tracker.HashMap
use torrust_tracker.TrackerCore.Whitelist.{
  WhitelistManager, authorize, contains, add_torrent_to_whitelist,
}
use torrust_tracker.TrackerCore.Whitelist.Laws as Lists
use torrust_tracker.TrackerCore.Whitelist.Laws.{
  add_torrent-InSync, load_whitelist-InSync, authorize-add_torrent, authorize-remove_torrent,
}
use torrust_tracker.TrackerCore.Authentication.Key
use torrust_tracker.TrackerCore.Authentication.Key.{
  PeerKey, auth_key_length, nanos, authenticate, key_expired, InMemoryKeyRepository, generate_key,
  now_add,
}
use torrust_tracker.TrackerCore.Authentication.Handler.{
  KeysHandler, AddKeyRequest, returned, panicked, duration_overflow, add_peer_key,
}
use torrust_tracker.TrackerCore.Authentication.Handler.Laws as Keys
use torrust_tracker.TrackerCore.Authentication.Handler.Laws.{
  asked, asked_expiry, ended, add_peer_key_lem, load_peer_keys-InSync, authenticate-add_peer_key,
  add_peer_key_overflow,
}
use torrust_tracker.Api.Middleware as Api
use torrust_tracker.Api.Middleware.{AccessTokens, auth}
use torrust_tracker.Api.Whitelist.{Request, post, reload, serve}
use torrust_tracker.Api.Whitelist.Laws.{authorize-serve_post}
use torrust_tracker.Tests.Samples.{core}
use torrust_tracker.Tests.Stores.{whitelist_table, key_table}

-- Torrent 5 is on the whitelist.
abbrev manager : WhitelistManager whitelist_table
manager = record { in_memory = record { whitelist = (5, tt) ∷ [] }; db = 5 ∷ [] }

manager-InSync : Lists.InSync whitelist_table manager
unfolding contains OrderedMap.lookup
manager-InSync j = ground arith

-- The API reads `7` as the info hash 7, and has the token `a`.
abbrev parse : Text → Option ℕ
parse [] = none
parse (c ∷ text) = if c == 55 then some 7 else none

abbrev tokens : AccessTokens
tokens = (codes "admin", codes "a") ∷ []

authorize-serve_post_example :
    (t : Text) × (k : ℕ) × (some (codes "a") ≡ some t)
    × (Api.authenticate t tokens ≡ true)
    × (parse (codes "7") ≡ some k)
    × ((j : ℕ)
        → authorize core
            (serve whitelist_table parse tokens
              (some (codes "a"))
              (post (codes "7"))
              manager).1.in_memory
            j
          ≡ (if j == k then ok tt else authorize core manager.in_memory j))
unfolding serve add_torrent_to_whitelist
authorize-serve_post_example =
    authorize-serve_post whitelist_table parse tokens core manager (some (codes "a")) (codes "7")
      refl refl

abbrev calls : List (Option Text × Request)
calls = (some (codes "a"), post (codes "7")) ∷ (some (codes "a"), reload) ∷ []

abbrev key_text : Text
key_text = codes "YZSl4lMZupRuOpSRC3krIKR5BPB14nrJ"

abbrev key : Key.Key
key = record { value = key_text }

abbrev keys : InMemoryKeyRepository
keys = record { keys = (key_text, record { key = key; valid_until = some 90 }) ∷ [] }

abbrev keys_handler : KeysHandler key_table
keys_handler = record { db = []; in_memory = record { keys = [] } }

keys_handler-InSync : Keys.InSync key_table keys_handler
unfolding Key.get HashMap.get
keys_handler-InSync k = refl

abbrev request : AddKeyRequest
request = record { opt_key = some key_text; opt_seconds_valid = some 60 }

add_peer_key_overflow_example :
    ((add_peer_key key_table keys_handler key 1000
        (record { opt_key = none; opt_seconds_valid = some (2 ^ 64) })).0
      ≡ panicked)
    × ((add_peer_key key_table keys_handler key 1000
          (record { opt_key = some key_text; opt_seconds_valid = some (2 ^ 64) })).0
        ≡ returned (err (duration_overflow (2 ^ 64))))
add_peer_key_overflow_example =
    add_peer_key_overflow key_table keys_handler key 1000 (2 ^ 64) key_text (omega arith)
