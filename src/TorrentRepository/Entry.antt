-- ===== src/TorrentRepository/Entry.antt =====
-- packages/torrent-repository/src/entry/mod.rs and single.rs: a torrent is its swarm and the number
-- of downloads that were completed. The entries behind a lock (mutex_std.rs) call these methods
-- under the lock.
pub mod Laws
pub mod History
use torrust_tracker.Prelude.{
  ℕ, ◌+◌, ◌%◌, ◌^◌, Bool, true, false, not, ◌&&◌, Option, none, some, List, ltb, if◌then◌else◌,
}
use torrust_tracker.Primitives.Net.{SocketAddr}
use torrust_tracker.Primitives.Peer.{Peer, AnnounceEvent, event_eq}
use torrust_tracker.Primitives.Metrics.{SwarmMetadata}
use torrust_tracker.Configuration.{TrackerPolicy}
use torrust_tracker.TorrentRepository.PeerList
use torrust_tracker.TorrentRepository.PeerList.{PeerList}

pub record Torrent : Type 0 where
  pub swarm : PeerList
  pub downloaded : ℕ

-- `Torrent::default()`
abbrev pub default : Torrent
default = record { swarm = PeerList.empty; downloaded = 0 }

-- `as u32` keeps the low 32 bits.
unfoldable pub get_swarm_metadata : Torrent → SwarmMetadata
get_swarm_metadata t =
    let (seeders, leechers) = PeerList.seeders_and_leechers t.swarm in
    record {
      downloaded = t.downloaded;
      complete = seeders % 2 ^ 32;
      incomplete = leechers % 2 ^ 32;
    }

unfoldable pub meets_retaining_policy : Torrent → TrackerPolicy → Bool
unfolding PeerList.is_empty
meets_retaining_policy t policy =
    if policy.persistent_torrent_completed_stat && ltb 0 t.downloaded
    then true
    else if policy.remove_peerless_torrents && PeerList.is_empty t.swarm
    then false
    else true

unfoldable pub peers_is_empty : Torrent → Bool
peers_is_empty t = PeerList.is_empty t.swarm

unfoldable pub get_peers_len : Torrent → ℕ
get_peers_len t = PeerList.length t.swarm

unfoldable pub get_peers : Torrent → Option ℕ → List Peer
get_peers t limit = PeerList.get_all t.swarm limit

unfoldable pub get_peers_for_client : Torrent → SocketAddr → Option ℕ → List Peer
get_peers_for_client t client limit = PeerList.get_peers_excluding_addr t.swarm client limit

-- `previous.is_some_and(|p| p.event != AnnounceEvent::Completed)`
abbrev was_incomplete : Option Peer → Bool
was_incomplete none = false
was_incomplete (some p) = not (event_eq p.event AnnounceEvent.completed)

-- The counter is a `u32`, and wraps as in the release build.
abbrev count_download : Bool → PeerList → ℕ → Torrent × Bool
count_download true swarm downloaded =
    (record { swarm = swarm; downloaded = (downloaded + 1) % 2 ^ 32 }, true)
count_download false swarm downloaded = (record { swarm = swarm; downloaded = downloaded }, false)

abbrev upsert_by : AnnounceEvent → Torrent → Peer → Torrent × Bool
upsert_by AnnounceEvent.stopped t peer =
    (record t { swarm = (PeerList.remove t.swarm peer.peer_id).0 }, false)
upsert_by AnnounceEvent.completed t peer =
    let (swarm, previous) = PeerList.upsert t.swarm peer in
    count_download (was_incomplete previous) swarm t.downloaded
upsert_by _ t peer = (record t { swarm = (PeerList.upsert t.swarm peer).0 }, false)

unfoldable pub upsert_peer : Torrent → Peer → Torrent × Bool
upsert_peer t peer = upsert_by peer.event t peer

unfoldable pub remove_inactive_peers : Torrent → ℕ → Torrent
remove_inactive_peers t current_cutoff = record t {
  swarm = PeerList.remove_inactive_peers t.swarm current_cutoff;
}
