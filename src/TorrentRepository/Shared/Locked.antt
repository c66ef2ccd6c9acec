-- ===== src/TorrentRepository/Shared/Locked.antt =====
-- `upsert_peer` of packages/torrent-repository/src/repository/rw_lock_std_mutex_std.rs, in steps.
use torrust_tracker.Prelude.{ℕ, some, none}
use torrust_tracker.OrderedMap
use torrust_tracker.Primitives.Peer.{Peer}
use torrust_tracker.TorrentRepository.Shared.{SharedMap, or_insert, upsert_at}

-- Where `upsert_peer` is: before the read lock, before the write lock, with the entry.
pub data Upsert : Type 0 where
  begun : ℕ → Peer → Upsert
  missing : ℕ → Peer → Upsert
  holding : ℕ → ℕ → Peer → Upsert
  done : Upsert

unfoldable pub advance : SharedMap → Upsert → SharedMap × Upsert
unfolding or_insert upsert_at
advance s (begun info_hash peer) = elim (OrderedMap.lookup info_hash s.torrents) [
  | some place ↦ (s, holding info_hash place peer)
  | none ↦ (s, missing info_hash peer)
]
advance s (missing info_hash peer) =
    let (s', place) = or_insert s info_hash in (s', holding info_hash place peer)
advance s (holding info_hash place peer) = (upsert_at s place peer, done)
advance s done = (s, done)
