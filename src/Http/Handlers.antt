-- ===== src/Http/Handlers.antt =====
-- src/servers/http/v1/handlers/announce.rs and scrape.rs, with the services announce.rs and scrape.rs of
-- src/servers/http/v1/services: from a request that was read to the data of its answer. The time
-- is an argument, which the code reads from the clock when it looks at a key and when it makes a peer.
pub mod Laws
use torrust_tracker.Prelude.{
  ℕ, Bool, true, false, Option, none, some, List, ◌∷◌, ℤ, pos, if◌then◌else◌, Result, ok, err,
}
use torrust_tracker.Primitives.Net.{IpAddr, v4, v6}
use torrust_tracker.Primitives.Peer as Peer
use torrust_tracker.Primitives.Peer.{Peer, AnnounceEvent}
use torrust_tracker.Primitives.Core.{AnnounceData, ScrapeData, zeroed}
use torrust_tracker.Configuration.{Core}
use torrust_tracker.TrackerCore.Announce.{
  TorrentStore, AnnounceHandler, PeersWanted, as_many_as_possible, from_u32, announce,
}
use torrust_tracker.TrackerCore.Scrape.{ScrapeHandler, scrape}
use torrust_tracker.TrackerCore.Whitelist.{InMemoryWhitelist, WhitelistError, authorize}
use torrust_tracker.TrackerCore.Authentication.Key
use torrust_tracker.TrackerCore.Authentication.Key.{Key, InMemoryKeyRepository, authenticate}
use torrust_tracker.Http.Statistics as Statistics
use torrust_tracker.Http.Statistics.{tcp4_announce, tcp6_announce, tcp4_scrape, tcp6_scrape}
use torrust_tracker.Http.PeerIpResolver.{ClientIpSources, PeerIpResolutionError, invoke}
use torrust_tracker.Http.AnnounceRequest.{Announce, Event, started, stopped, completed}

-- `responses::error::Error`, by what its text is made from.
pub data Error : Type 0 where
  missing_auth_key : Error
  authentication_error : Key.Error → Error
  whitelist_error : WhitelistError → Error
  peer_ip_resolution_error : PeerIpResolutionError → Error

-- `HttpTrackerContainer`, by what the handlers are given. The handlers share the torrents and the
-- configuration, which are those of the announce handler here. `events` are the events sent so far,
-- the newest first.
pub record Container (D : TorrentStore) : Type 0 where
  pub announce_handler : AnnounceHandler D
  pub whitelist : InMemoryWhitelist
  pub keys : InMemoryKeyRepository
  pub sends_events : Bool
  pub events : List Statistics.Event

-- `map_to_torrust_event`
unfoldable pub map_to_torrust_event : Option Event → AnnounceEvent
map_to_torrust_event (some started) = AnnounceEvent.started
map_to_torrust_event (some stopped) = AnnounceEvent.stopped
map_to_torrust_event (some completed) = AnnounceEvent.completed
map_to_torrust_event none = AnnounceEvent.none

-- `unwrap_or(NumberOfBytes::new(0))`
abbrev bytes_or_zero : Option ℕ → ℤ
bytes_or_zero none = pos 0
bytes_or_zero (some n) = pos n

unfoldable pub peer_from_request : Announce → IpAddr → ℕ → Peer
unfolding map_to_torrust_event
peer_from_request request peer_ip now = record {
  peer_id = request.peer_id;
  peer_addr = record { ip = peer_ip; port = request.port };
  updated = now;
  uploaded = bytes_or_zero request.uploaded;
  downloaded = bytes_or_zero request.downloaded;
  left = bytes_or_zero request.left;
  event = map_to_torrust_event request.event;
}

unfoldable pub peers_wanted : Option ℕ → PeersWanted
unfolding from_u32
peers_wanted (some numwant) = from_u32 numwant
peers_wanted none = as_many_as_possible

abbrev by_version : IpAddr → Statistics.Event → Statistics.Event → Statistics.Event
by_version (v4 a) x y = x
by_version (v6 a) x y = y

module _ {D : TorrentStore} where
  abbrev pub core_config : Container D → Core
  core_config c = c.announce_handler.config

  unfoldable pub scrape_handler : Container D → ScrapeHandler
  scrape_handler c = record {
    config = c.announce_handler.config;
    whitelist = c.whitelist;
    torrents = c.announce_handler.torrents;
  }

  unfoldable pub send_event : Container D → Statistics.Event → Container D
  send_event c event = if c.sends_events then record c { events = event ∷ c.events } else c

  -- `services::announce::invoke`
  unfoldable pub announce_service :
      Container D → ℕ → Peer → PeersWanted → AnnounceData × Container D
  unfolding announce send_event
  announce_service c info_hash peer wanted =
      let original_peer_ip = peer.peer_addr.ip in
      let (handler, announce_data) =
        announce c.announce_handler info_hash peer original_peer_ip wanted in
      (
        announce_data,
        send_event (record c { announce_handler = handler })
            (by_version original_peer_ip tcp4_announce tcp6_announce),
      )

  -- The authentication of an announce.
  unfoldable pub authenticate_announce : Container D → ℕ → Option Key → Result Error (Unit {0})
  unfolding authenticate
  authenticate_announce c now maybe_key =
      if (core_config c).private_tracker
      then elim maybe_key [
        | some key ↦ elim (authenticate (core_config c) c.keys now key) [
          | ok u ↦ ok tt
          | err e ↦ err (authentication_error e)
        ]
        | none ↦ err missing_auth_key
      ]
      else ok tt

  unfoldable pub handle_announce :
      Container D
      → Announce
      → ClientIpSources
      → Option Key
      → ℕ
      → Result Error AnnounceData × Container D
  unfolding authenticate_announce authorize invoke peer_from_request peers_wanted announce_service
  handle_announce c request client_ip_sources maybe_key now =
      elim (authenticate_announce c now maybe_key) [
        | err e ↦ (err e, c)
        | ok authenticated ↦ elim (authorize (core_config c) c.whitelist request.info_hash) [
          | err e ↦ (err (whitelist_error e), c)
          | ok authorized ↦ elim (invoke (core_config c).net.on_reverse_proxy client_ip_sources) [
            | err e ↦ (err (peer_ip_resolution_error e), c)
            | ok peer_ip ↦
                let (announce_data, c') =
                  announce_service c request.info_hash (peer_from_request request peer_ip now)
                    (peers_wanted request.numwant) in
                (ok announce_data, c')
          ]
        ]
      ]

  unfoldable pub send_scrape_event : Container D → IpAddr → Container D
  unfolding send_event
  send_scrape_event c original_peer_ip =
      send_event c (by_version original_peer_ip tcp4_scrape tcp6_scrape)

  -- `services::scrape::invoke`
  unfoldable pub scrape_service : Container D → List ℕ → IpAddr → ScrapeData × Container D
  unfolding scrape scrape_handler send_scrape_event
  scrape_service c info_hashes original_peer_ip =
      (scrape (scrape_handler c) info_hashes, send_scrape_event c original_peer_ip)

  -- `services::scrape::fake`
  unfoldable pub fake : Container D → List ℕ → IpAddr → ScrapeData × Container D
  unfolding zeroed send_scrape_event
  fake c info_hashes original_peer_ip = (zeroed info_hashes, send_scrape_event c original_peer_ip)

  unfoldable pub return_real_scrape_data : Container D → ℕ → Option Key → Bool
  unfolding authenticate
  return_real_scrape_data c now maybe_key =
      if (core_config c).private_tracker
      then elim maybe_key [
        | some key ↦ elim (authenticate (core_config c) c.keys now key) [
          | ok u ↦ true
          | err e ↦ false
        ]
        | none ↦ false
      ]
      else true

  abbrev found {ℓ} : {A : Type ℓ} → A × Container D → Result Error A × Container D
  found (a, c) = (ok a, c)

  unfoldable pub handle_scrape :
      Container D
      → List ℕ
      → ClientIpSources
      → Option Key
      → ℕ
      → Result Error ScrapeData × Container D
  unfolding return_real_scrape_data invoke scrape_service fake
  handle_scrape c info_hashes client_ip_sources maybe_key now =
      let return_real = return_real_scrape_data c now maybe_key in
      elim (invoke (core_config c).net.on_reverse_proxy client_ip_sources) [
        | err e ↦ (err (peer_ip_resolution_error e), c)
        | ok peer_ip ↦ found (
            if return_real
            then scrape_service c info_hashes peer_ip
            else fake c info_hashes peer_ip)
      ]
