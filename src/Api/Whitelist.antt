-- ===== src/Api/Whitelist.antt =====
-- src/servers/apis/v1/context/whitelist: the handlers of the whitelist (handlers.rs) and their routes
-- (routes.rs). `from_str` reads an info hash; it is of the crate bittorrent_primitives.
pub mod Laws
pub mod Stored
pub mod Drivers
use torrust_tracker.Prelude.{ℕ, Option, none, some, ok, err, Text}
use torrust_tracker.TrackerCore.Whitelist.{
  WhitelistStore, WhitelistManager, Outcome, add_torrent_to_whitelist,
  remove_torrent_from_whitelist, load_whitelist_from_database,
}
use torrust_tracker.Api.Middleware.{
  Response, Rejection, ok_response, invalid_info_hash_param, unhandled_rejection, AccessTokens,
  auth, failed_to_whitelist_torrent, failed_to_remove_torrent_from_whitelist,
  failed_to_reload_whitelist,
}

-- The requests to the three routes.
pub data Request : Type 0 where
  post : Text → Request
  delete : Text → Request
  reload : Request

module _ (D : WhitelistStore) where
  -- The answer to an outcome of the manager.
  abbrev answered :
      (D.Error → Rejection D.Error)
      → Outcome D × WhitelistManager D
      → Response D.Error × WhitelistManager D
  answered failed (ok u, s) = (ok_response, s)
  answered failed (err e, s) = (unhandled_rejection (failed e), s)

  unfoldable pub reload_whitelist_handler :
      WhitelistManager D → Response D.Error × WhitelistManager D
  reload_whitelist_handler s =
      answered failed_to_reload_whitelist (load_whitelist_from_database D s)

  module _ (from_str : Text → Option ℕ) where
    unfoldable pub add_torrent_to_whitelist_handler :
        WhitelistManager D → Text → Response D.Error × WhitelistManager D
    add_torrent_to_whitelist_handler s info_hash = elim (from_str info_hash) [
      | none ↦ (invalid_info_hash_param info_hash, s)
      | some k ↦ answered failed_to_whitelist_torrent (add_torrent_to_whitelist D s k)
    ]

    unfoldable pub remove_torrent_from_whitelist_handler :
        WhitelistManager D → Text → Response D.Error × WhitelistManager D
    remove_torrent_from_whitelist_handler s info_hash = elim (from_str info_hash) [
      | none ↦ (invalid_info_hash_param info_hash, s)
      | some k ↦
          answered failed_to_remove_torrent_from_whitelist (remove_torrent_from_whitelist D s k)
    ]

    unfoldable pub route : Request → WhitelistManager D → Response D.Error × WhitelistManager D
    unfolding add_torrent_to_whitelist_handler remove_torrent_from_whitelist_handler
        reload_whitelist_handler
    route (post info_hash) s = add_torrent_to_whitelist_handler s info_hash
    route (delete info_hash) s = remove_torrent_from_whitelist_handler s info_hash
    route reload s = reload_whitelist_handler s

    -- A request as the API takes it: behind the middleware.
    unfoldable pub serve :
        AccessTokens
        → Option Text
        → Request
        → WhitelistManager D
        → Response D.Error × WhitelistManager D
    unfolding auth route
    serve tokens token request s = auth tokens token (route request) s
