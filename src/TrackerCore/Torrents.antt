-- ===== src/TrackerCore/Torrents.antt =====
-- packages/tracker-core/src/torrent/manager.rs and services.rs: the cleanup of torrents, their
-- import from the database, and what the API shows of them. Times are in nanoseconds.
pub mod Laws
pub mod Services
use torrust_tracker.Prelude.{
  ℕ, ◌-◌, ◌*◌, Bool, Option, none, some, List, [], ◌∷◌, ltb, if◌then◌else◌, Result, ok, err,
}
use mathlib.Core.Option
use torrust_tracker.OrderedMap.{Map}
use torrust_tracker.Primitives.Peer.{Peer}
use torrust_tracker.Primitives.Metrics.{SwarmMetadata, Pagination}
use torrust_tracker.Configuration.{Core}
use torrust_tracker.TorrentRepository.Entry
use torrust_tracker.TorrentRepository.Entry.{Torrent}
use torrust_tracker.TrackerCore.InMemory
use torrust_tracker.TrackerCore.InMemory.{InMemoryTorrentRepository}
use torrust_tracker.TrackerCore.Announce.{TorrentStore}

-- `Duration::from_secs`
abbrev pub from_secs : ℕ → ℕ
from_secs s = s * 1_000_000_000

-- `Time::now_sub` (packages/clock/src/clock/mod.rs), of the time that the clock shows.
unfoldable pub now_sub : ℕ → ℕ → Option ℕ
now_sub now sub_time = if ltb now sub_time then none else some (now - sub_time)

abbrev unwrap_or_default : Option ℕ → ℕ
unwrap_or_default none = 0
unwrap_or_default (some t) = t

unfoldable pub cutoff : Core → ℕ → ℕ
unfolding now_sub
cutoff config now =
    unwrap_or_default (now_sub now (from_secs config.tracker_policy.max_peer_timeout))

unfoldable pub cleanup_torrents : Core → ℕ → InMemoryTorrentRepository → InMemoryTorrentRepository
cleanup_torrents config now r =
    let r' = InMemory.remove_inactive_peers r (cutoff config now) in
    if config.tracker_policy.remove_peerless_torrents
    then InMemory.remove_peerless_torrents r' config.tracker_policy
    else r'

unfoldable pub load_torrents_from_database :
    (D : TorrentStore)
    → D.Db
    → InMemoryTorrentRepository
    → Result D.Error (Unit {0}) × InMemoryTorrentRepository
load_torrents_from_database D db r = elim (D.load_persistent_torrents db) [
  | ok persistent_torrents ↦ (ok tt, InMemory.import_persistent r persistent_torrents)
  | err e ↦ (err e, r)
]

pub record Info : Type 0 where
  pub info_hash : ℕ
  pub seeders : ℕ
  pub completed : ℕ
  pub leechers : ℕ
  pub peers : Option (List Peer)

pub record BasicInfo : Type 0 where
  pub info_hash : ℕ
  pub seeders : ℕ
  pub completed : ℕ
  pub leechers : ℕ

unfoldable pub get_torrent_info : InMemoryTorrentRepository → ℕ → Option Info
get_torrent_info r info_hash = elim (InMemory.get r info_hash) [
  | none ↦ none
  | some torrent_entry ↦
      let stats = Entry.get_swarm_metadata torrent_entry in
      some (record {
        info_hash = info_hash;
        seeders = stats.complete;
        completed = stats.downloaded;
        leechers = stats.incomplete;
        peers = some (Entry.get_peers torrent_entry none);
      })
]

abbrev pub basic_info : ℕ → SwarmMetadata → BasicInfo
basic_info info_hash stats = record {
  info_hash = info_hash;
  seeders = stats.complete;
  completed = stats.downloaded;
  leechers = stats.incomplete;
}

-- The loop of `get_torrents_page`.
unfoldable pub page_infos : List (ℕ × Torrent) → List BasicInfo
page_infos [] = []
page_infos ((info_hash, torrent_entry) ∷ rest) =
    basic_info info_hash (Entry.get_swarm_metadata torrent_entry) ∷ page_infos rest

unfoldable pub get_torrents_page : InMemoryTorrentRepository → Option Pagination → List BasicInfo
unfolding page_infos
get_torrents_page r pagination = page_infos (InMemory.get_paginated r pagination)

abbrev push_info : ℕ → Option SwarmMetadata → List BasicInfo → List BasicInfo
push_info info_hash none rest = rest
push_info info_hash (some stats) rest = basic_info info_hash stats ∷ rest

unfoldable pub get_torrents : InMemoryTorrentRepository → List ℕ → List BasicInfo
get_torrents r [] = []
get_torrents r (info_hash ∷ rest) =
    push_info info_hash (Option.map Entry.get_swarm_metadata (InMemory.get r info_hash))
      (get_torrents r rest)
