-- ===== src/TorrentRepository/Repository.antt =====
-- packages/torrent-repository/src/repository/skip_map_mutex_std.rs, the repository that the tracker
-- runs with: `CrossbeamSkipList<EntryMutexStd>`. A call is one step here: an entry's mutex is taken
-- and given back within it. A write through an entry's `Arc` is a write to the map.
pub mod Laws
pub mod Metrics
pub mod Invariant
use torrust_tracker.Prelude.{
  ℕ, ◌+◌, ◌%◌, ◌^◌, Option, none, some, List, [], ◌∷◌, take, drop, if◌then◌else◌,
}
use mathlib.Core.Option
use torrust_tracker.OrderedMap
use torrust_tracker.OrderedMap.{Map}
use torrust_tracker.Primitives.Peer.{Peer}
use torrust_tracker.Primitives.Metrics.{SwarmMetadata, TorrentsMetrics, no_metrics, Pagination}
use torrust_tracker.Configuration.{TrackerPolicy}
use torrust_tracker.TorrentRepository.PeerList
use torrust_tracker.TorrentRepository.Entry
use torrust_tracker.TorrentRepository.Entry.{Torrent}

pub record CrossbeamSkipList : Type 0 where
  pub torrents : Map Torrent

abbrev pub empty : CrossbeamSkipList
empty = record { torrents = [] }

-- `SkipMap::get_or_insert`: the value that stands there, or the new one.
abbrev pub value_or {ℓ} : {V : Type ℓ} → V → Option V → V
value_or v none = v
value_or v (some w) = w

unfoldable pub get_or_insert : ℕ → Torrent → Map Torrent → Map Torrent × Torrent
get_or_insert key value m =
    let entry = value_or value (OrderedMap.lookup key m) in (OrderedMap.insert key entry m, entry)

unfoldable pub upsert_peer : CrossbeamSkipList → ℕ → Peer → CrossbeamSkipList
unfolding get_or_insert
upsert_peer r info_hash peer =
    let (torrents, entry) = get_or_insert info_hash Entry.default r.torrents in
    record { torrents = OrderedMap.insert info_hash (Entry.upsert_peer entry peer).0 torrents }

unfoldable pub get : CrossbeamSkipList → ℕ → Option Torrent
get r key = OrderedMap.lookup key r.torrents

unfoldable pub get_swarm_metadata : CrossbeamSkipList → ℕ → Option SwarmMetadata
unfolding get
get_swarm_metadata r info_hash = Option.map Entry.get_swarm_metadata (get r info_hash)

-- The loop of `get_metrics`; the sums are `u64` and wrap as in the release build.
unfoldable pub add_metrics : TorrentsMetrics → Map Torrent → TorrentsMetrics
add_metrics metrics [] = metrics
add_metrics metrics ((_, entry) ∷ rest) =
    let stats = Entry.get_swarm_metadata entry in
    add_metrics
      (record {
        complete = (metrics.complete + stats.complete) % 2 ^ 64;
        downloaded = (metrics.downloaded + stats.downloaded) % 2 ^ 64;
        incomplete = (metrics.incomplete + stats.incomplete) % 2 ^ 64;
        torrents = (metrics.torrents + 1) % 2 ^ 64;
      })
      rest

unfoldable pub get_metrics : CrossbeamSkipList → TorrentsMetrics
unfolding add_metrics
get_metrics r = add_metrics no_metrics r.torrents

unfoldable pub get_paginated : CrossbeamSkipList → Option Pagination → List (ℕ × Torrent)
get_paginated r (some pagination) = take pagination.limit (drop pagination.offset r.torrents)
get_paginated r none = r.torrents

-- The body of the loop of `import_persistent`: a torrent that is there is skipped.
unfoldable pub import_one : Map Torrent → ℕ → ℕ → Map Torrent
unfolding get_or_insert
import_one m info_hash completed = elim (OrderedMap.lookup info_hash m) [
  | some _ ↦ m
  | none ↦ (get_or_insert info_hash (record { swarm = PeerList.empty; downloaded = completed }) m).0
]

unfoldable pub import_each : Map Torrent → List (ℕ × ℕ) → Map Torrent
unfolding import_one
import_each m [] = m
import_each m ((info_hash, completed) ∷ rest) = import_each (import_one m info_hash completed) rest

unfoldable pub import_persistent : CrossbeamSkipList → Map ℕ → CrossbeamSkipList
unfolding import_each
import_persistent r persistent_torrents = record {
  torrents = import_each r.torrents persistent_torrents;
}

unfoldable pub remove : CrossbeamSkipList → ℕ → CrossbeamSkipList × Option Torrent
remove r key =
    (record { torrents = OrderedMap.remove key r.torrents }, OrderedMap.lookup key r.torrents)

unfoldable pub remove_inactive_peers : CrossbeamSkipList → ℕ → CrossbeamSkipList
remove_inactive_peers r current_cutoff = record {
  torrents = OrderedMap.map_values (λ e. Entry.remove_inactive_peers e current_cutoff) r.torrents;
}

-- The loop of `remove_peerless_torrents`, over the entries that stand in the list at its start.
unfoldable pub remove_each : TrackerPolicy → List (ℕ × Torrent) → Map Torrent → Map Torrent
remove_each policy [] m = m
remove_each policy ((key, entry) ∷ rest) m =
    remove_each policy rest
      (if Entry.meets_retaining_policy entry policy then m else OrderedMap.remove key m)

unfoldable pub remove_peerless_torrents : CrossbeamSkipList → TrackerPolicy → CrossbeamSkipList
unfolding remove_each
remove_peerless_torrents r policy = record { torrents = remove_each policy r.torrents r.torrents }
