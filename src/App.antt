-- ===== src/App.antt =====
-- src/app.rs: what the start of the tracker loads, and which jobs it starts; with the start of the jobs
-- in src/bootstrap/jobs. The settings are those that the start reads.
pub mod Laws
pub mod Restart
use torrust_tracker.Prelude.{
  ℕ, Bool, true, false, Option, none, some, List, [], ◌∷◌, ◌++◌, Result, ok, err, if◌then◌else◌,
  ltb,
}
use mathlib.Core.Option
use torrust_tracker.Primitives.Net.{SocketAddr}
use torrust_tracker.Configuration.{Core}
use torrust_tracker.TrackerCore.Whitelist.{
  WhitelistStore, WhitelistManager, load_whitelist_from_database,
}
use torrust_tracker.TrackerCore.Authentication.Handler.{
  KeyStore, KeysHandler, load_peer_keys_from_database,
}

-- The servers are known by the addresses that they are bound to.
pub record Configuration : Type 0 where
  pub core : Core
  pub inactive_peer_cleanup_interval : ℕ
  pub udp_trackers : Option (List SocketAddr)
  pub http_trackers : Option (List SocketAddr)
  pub http_api : Option SocketAddr
  pub health_check_api : SocketAddr

pub data Job : Type 0 where
  udp_tracker http_tracker tracker_apis health_check_api : SocketAddr → Job
  torrent_cleanup : ℕ → Job

-- `can_start` is whether a server can be started: its address bound, its TLS configuration valid.
-- A job that cannot be started panics, and so does the start: `none`.
module _ (can_start : Job → Bool) where
  abbrev and_then : Option (List Job) → Option (List Job) → Option (List Job)
  and_then none rest = none
  and_then (some jobs) none = none
  and_then (some jobs) (some rest) = some (jobs ++ rest)

  abbrev start_job : Job → Option (List Job)
  start_job job = if can_start job then some (job ∷ []) else none

  unfoldable pub start_udp_each : Bool → List SocketAddr → Option (List Job)
  start_udp_each private [] = some []
  start_udp_each private (bind_to ∷ rest) =
      let jobs = start_udp_each private rest in
      if private then jobs else and_then (start_job (udp_tracker bind_to)) jobs

  unfoldable pub start_udp : Bool → Option (List SocketAddr) → Option (List Job)
  unfolding start_udp_each
  start_udp private none = some []
  start_udp private (some udp_trackers) = start_udp_each private udp_trackers

  unfoldable pub start_http_each : List SocketAddr → Option (List Job)
  start_http_each [] = some []
  start_http_each (bind_to ∷ rest) =
      and_then (start_job (http_tracker bind_to)) (start_http_each rest)

  unfoldable pub start_http : Option (List SocketAddr) → Option (List Job)
  unfolding start_http_each
  start_http none = some []
  start_http (some http_trackers) = start_http_each http_trackers

  abbrev start_api : Option SocketAddr → Option (List Job)
  start_api none = some []
  start_api (some bind_to) = start_job (tracker_apis bind_to)

  abbrev start_cleanup : ℕ → Option (List Job)
  start_cleanup interval = if ltb 0 interval then some (torrent_cleanup interval ∷ []) else some []

  -- The servers and the jobs, in their order.
  unfoldable pub start_jobs : Configuration → Option (List Job)
  unfolding start_udp start_http
  start_jobs config = and_then (start_udp config.core.private_tracker config.udp_trackers) (
      and_then (start_http config.http_trackers) (
        and_then (start_api config.http_api) (
          and_then (start_cleanup config.inactive_peer_cleanup_interval)
            (start_job (health_check_api config.health_check_api)))))

  module _ (K : KeyStore) (W : WhitelistStore) where
    -- What of the container the start changes.
    pub record AppContainer : Type 0 where
      pub keys_handler : KeysHandler K
      pub whitelist_manager : WhitelistManager W

    abbrev expect : {E S : Type 0} → Result E (Unit {0}) × S → Option S
    expect (ok u, s) = some s
    expect (err e, s) = none

    abbrev load_keys_if : Bool → AppContainer → Option AppContainer
    load_keys_if private app =
        if private
        then Option.map (λ s. record app { keys_handler = s })
            (expect (load_peer_keys_from_database K app.keys_handler))
        else some app

    abbrev load_whitelist_if : Bool → AppContainer → Option AppContainer
    load_whitelist_if listed app =
        if listed
        then Option.map (λ s. record app { whitelist_manager = s })
            (expect (load_whitelist_from_database W app.whitelist_manager))
        else some app

    unfoldable pub start : Configuration → AppContainer → Option (List Job × AppContainer)
    unfolding start_jobs
    start config app = elim (load_keys_if config.core.private_tracker app) [
      | none ↦ none
      | some loaded ↦ elim (load_whitelist_if config.core.listed loaded) [
        | none ↦ none
        | some ready ↦ Option.map (λ jobs. (jobs, ready)) (start_jobs config)
      ]
    ]
