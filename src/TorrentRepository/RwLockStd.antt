-- ===== src/TorrentRepository/RwLockStd.antt =====
-- packages/torrent-repository/src/repository/rw_lock_std.rs: the repository over a `BTreeMap` behind
-- one read-write lock, which a call takes and gives back.
pub mod Equivalence
use torrust_tracker.Prelude.{
  ℕ, ◌+◌, ◌%◌, ◌^◌, Bool, true, false, Option, none, some, List, [], ◌∷◌, take, drop, if◌then◌else◌,
}
use mathlib.Core.Option
use torrust_tracker.OrderedMap
use torrust_tracker.OrderedMap.{Map}
use torrust_tracker.Primitives.Peer.{Peer}
use torrust_tracker.Primitives.Metrics.{SwarmMetadata, TorrentsMetrics, no_metrics, Pagination}
use torrust_tracker.Configuration.{TrackerPolicy}
use torrust_tracker.TorrentRepository.PeerList
use torrust_tracker.TorrentRepository.Entry
use torrust_tracker.TorrentRepository.Entry.{Torrent}

pub record RwLockStd : Type 0 where
  pub torrents : Map Torrent

-- `db.entry(h).or_insert(d)`, written through: the entry becomes `f` of what it was, or of `d`.
unfoldable pub update_entry : ℕ → Torrent → (Torrent → Torrent) → Map Torrent → Map Torrent
update_entry key value f m = elim (OrderedMap.lookup key m) [
  | some t ↦ OrderedMap.insert key (f t) m
  | none ↦ OrderedMap.insert key (f value) m
]

unfoldable pub upsert_peer : RwLockStd → ℕ → Peer → RwLockStd
unfolding update_entry
upsert_peer r info_hash peer = record {
  torrents =
      update_entry info_hash Entry.default (λ entry. (Entry.upsert_peer entry peer).0) r.torrents;
}

unfoldable pub get : RwLockStd → ℕ → Option Torrent
get r key = OrderedMap.lookup key r.torrents

unfoldable pub get_swarm_metadata : RwLockStd → ℕ → Option SwarmMetadata
unfolding get
get_swarm_metadata r info_hash = Option.map Entry.get_swarm_metadata (get r info_hash)

unfoldable pub get_paginated : RwLockStd → Option Pagination → List (ℕ × Torrent)
get_paginated r (some pagination) = take pagination.limit (drop pagination.offset r.torrents)
get_paginated r none = r.torrents

unfoldable pub contains_key : ℕ → Map Torrent → Bool
contains_key key m = elim (OrderedMap.lookup key m) [ some _ ↦ true | none ↦ false ]

-- The loop of `import_persistent`.
unfoldable pub import_each : Map Torrent → List (ℕ × ℕ) → Map Torrent
unfolding contains_key
import_each torrents [] = torrents
import_each torrents ((info_hash, downloaded) ∷ rest) =
    import_each
      (if contains_key info_hash torrents
        then torrents
        else OrderedMap.insert info_hash
            (record { swarm = PeerList.empty; downloaded = downloaded }) torrents)
      rest

unfoldable pub import_persistent : RwLockStd → Map ℕ → RwLockStd
unfolding import_each
import_persistent r persistent_torrents = record {
  torrents = import_each r.torrents persistent_torrents;
}

unfoldable pub remove : RwLockStd → ℕ → RwLockStd × Option Torrent
remove r key =
    (record { torrents = OrderedMap.remove key r.torrents }, OrderedMap.lookup key r.torrents)

unfoldable pub remove_inactive_peers : RwLockStd → ℕ → RwLockStd
remove_inactive_peers r current_cutoff = record {
  torrents = OrderedMap.map_values (λ e. Entry.remove_inactive_peers e current_cutoff) r.torrents;
}

unfoldable pub remove_peerless_torrents : RwLockStd → TrackerPolicy → RwLockStd
remove_peerless_torrents r policy = record {
  torrents = OrderedMap.retain (λ e. Entry.meets_retaining_policy e policy) r.torrents;
}
