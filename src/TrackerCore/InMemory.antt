-- ===== src/TrackerCore/InMemory.antt =====
-- packages/tracker-core/src/torrent/repository/in_memory.rs: the repository as the handlers see it.
use torrust_tracker.Prelude.{ℕ, max, Option, none, some, List, []}
use torrust_tracker.OrderedMap.{Map}
use torrust_tracker.Primitives.Peer.{Peer}
use torrust_tracker.Primitives.Metrics.{SwarmMetadata, TorrentsMetrics, zeroed, Pagination}
use torrust_tracker.Configuration.{TrackerPolicy, torrent_peers_limit}
use torrust_tracker.TorrentRepository.Entry
use torrust_tracker.TorrentRepository.Entry.{Torrent}
use torrust_tracker.TorrentRepository.Repository
use torrust_tracker.TorrentRepository.Repository.{CrossbeamSkipList}

pub record InMemoryTorrentRepository : Type 0 where
  pub torrents : CrossbeamSkipList

unfoldable pub upsert_peer : InMemoryTorrentRepository → ℕ → Peer → InMemoryTorrentRepository
upsert_peer r info_hash peer = record {
  torrents = Repository.upsert_peer r.torrents info_hash peer;
}

unfoldable pub remove_inactive_peers : InMemoryTorrentRepository → ℕ → InMemoryTorrentRepository
remove_inactive_peers r current_cutoff = record {
  torrents = Repository.remove_inactive_peers r.torrents current_cutoff;
}

unfoldable pub remove_peerless_torrents :
    InMemoryTorrentRepository → TrackerPolicy → InMemoryTorrentRepository
remove_peerless_torrents r policy = record {
  torrents = Repository.remove_peerless_torrents r.torrents policy;
}

unfoldable pub get : InMemoryTorrentRepository → ℕ → Option Torrent
get r key = Repository.get r.torrents key

unfoldable pub get_paginated : InMemoryTorrentRepository → Option Pagination → List (ℕ × Torrent)
get_paginated r pagination = Repository.get_paginated r.torrents pagination

unfoldable pub get_swarm_metadata : InMemoryTorrentRepository → ℕ → SwarmMetadata
get_swarm_metadata r info_hash = elim (Repository.get r.torrents info_hash) [
  | some torrent_entry ↦ Entry.get_swarm_metadata torrent_entry
  | none ↦ zeroed
]

unfoldable pub get_peers_for : InMemoryTorrentRepository → ℕ → Peer → ℕ → List Peer
get_peers_for r info_hash peer limit = elim (Repository.get r.torrents info_hash) [
  | none ↦ []
  | some entry ↦
      Entry.get_peers_for_client entry peer.peer_addr (some (max limit torrent_peers_limit))
]

unfoldable pub get_torrent_peers : InMemoryTorrentRepository → ℕ → List Peer
get_torrent_peers r info_hash = elim (Repository.get r.torrents info_hash) [
  | none ↦ []
  | some entry ↦ Entry.get_peers entry (some torrent_peers_limit)
]

unfoldable pub get_torrents_metrics : InMemoryTorrentRepository → TorrentsMetrics
get_torrents_metrics r = Repository.get_metrics r.torrents

unfoldable pub import_persistent : InMemoryTorrentRepository → Map ℕ → InMemoryTorrentRepository
import_persistent r persistent_torrents = record {
  torrents = Repository.import_persistent r.torrents persistent_torrents;
}
