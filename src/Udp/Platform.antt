-- ===== src/Udp/Platform.antt =====
-- What the handlers of src/servers/udp/handlers.rs are given: the crates and the standard library, as
-- interfaces, and the container of the UDP tracker (src/container.rs).
use torrust_tracker.Prelude.{ℕ, ◌^◌, ◌<◌, Bool, Option, List, ◌∷◌, Result, if◌then◌else◌}
use mathlib.Core.List.{Perm}
use torrust_tracker.OrderedMap.{Map}
use torrust_tracker.Primitives.Net.{IpAddr, SocketAddr, v4, v6}
use torrust_tracker.Primitives.Metrics.{SwarmMetadata}
use torrust_tracker.Configuration.{Core}
use torrust_tracker.TrackerCore.Announce.{TorrentStore, AnnounceHandler}
use torrust_tracker.TrackerCore.Scrape.{ScrapeHandler}
use torrust_tracker.TrackerCore.Whitelist.{InMemoryWhitelist}
use torrust_tracker.Udp.Banning.{CountingBloomFilter, BanService}
use torrust_tracker.Udp.ConnectionCookie.{Cipher}
use torrust_tracker.Udp.Statistics.{Event}
use torrust_tracker.Udp.Protocol.{Request, RequestParseError, Response}

-- `fingerprint` is the hash of the standard library, a `u64`; `iterate` is the order in which a hash
-- map is gone over: each entry once. The crate of the protocol reads and writes packets.
pub record Platform : Type 1 where
  pub cipher : Cipher
  pub store : TorrentStore
  pub filter : CountingBloomFilter
  pub fingerprint : SocketAddr → ℕ
  pub fingerprint_bound : (a : SocketAddr) → fingerprint a < 2 ^ 64
  pub iterate : Map SwarmMetadata → List (ℕ × SwarmMetadata)
  pub iterate-Perm : (m : Map SwarmMetadata) → Perm (iterate m) m
  pub parse_bytes : List ℕ → ℕ → Result RequestParseError Request
  pub write_bytes : Response → Option (List ℕ)

-- `UdpTrackerContainer`: the handlers of announces and scrapes share the torrents and the
-- configuration, which are those of the announce handler here. `events` are the events sent so far,
-- the newest first.
pub record Container (P : Platform) : Type 0 where
  pub announce_handler : AnnounceHandler P.store
  pub whitelist : InMemoryWhitelist
  pub ban_service : BanService P.filter
  pub sends_events : Bool
  pub events : List Event

module _ {P : Platform} where
  abbrev pub core_config : Container P → Core
  core_config c = c.announce_handler.config

  unfoldable pub scrape_handler : Container P → ScrapeHandler
  scrape_handler c = record {
    config = c.announce_handler.config;
    whitelist = c.whitelist;
    torrents = c.announce_handler.torrents;
  }

  -- An event is sent if the container has a sender.
  unfoldable pub send_event : Container P → Event → Container P
  send_event c event = if c.sends_events then record c { events = event ∷ c.events } else c

-- The match on the version of an address.
abbrev pub by_version {ℓ} : {A : Type ℓ} → IpAddr → A → A → A
by_version (v4 a) x y = x
by_version (v6 a) x y = y
