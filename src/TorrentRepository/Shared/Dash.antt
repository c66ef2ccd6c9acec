-- ===== src/TorrentRepository/Shared/Dash.antt =====
-- `upsert_peer` of packages/torrent-repository/src/repository/dash_map_mutex_std.rs, in steps.
use torrust_tracker.Prelude.{ℕ, some, none}
use torrust_tracker.OrderedMap
use torrust_tracker.Primitives.Peer.{Peer}
use torrust_tracker.TorrentRepository.Shared.{SharedMap, insert_default, upsert_at}

-- Where `upsert_peer` is: before the first `get`, before the `insert`, before the second `get`.
pub data Upsert : Type 0 where
  begun : ℕ → Peer → Upsert
  missing : ℕ → Peer → Upsert
  inserted : ℕ → Peer → Upsert
  done : Upsert

unfoldable pub advance : SharedMap → Upsert → SharedMap × Upsert
unfolding insert_default upsert_at
advance s (begun info_hash peer) = elim (OrderedMap.lookup info_hash s.torrents) [
  | some place ↦ (upsert_at s place peer, done)
  | none ↦ (s, missing info_hash peer)
]
advance s (missing info_hash peer) = (insert_default s info_hash, inserted info_hash peer)
advance s (inserted info_hash peer) = elim (OrderedMap.lookup info_hash s.torrents) [
  | some place ↦ (upsert_at s place peer, done)
  | none ↦ (s, done)
]
advance s done = (s, done)
