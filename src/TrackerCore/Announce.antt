-- ===== src/TrackerCore/Announce.antt =====
-- packages/tracker-core/src/announce_handler.rs, over the torrent table of the database
-- (databases/mod.rs, torrent/repository/persisted.rs), which is an interface here.
pub mod Laws
use torrust_tracker.Prelude.{
  ℕ, suc, zero, min, Bool, true, false, not, ◌&&◌, Option, none, some, List, ℤ, pos, negsuc, ◌==◌,
  if◌then◌else◌, Result,
}
use torrust_tracker.OrderedMap.{Map}
use torrust_tracker.Primitives.Net.{IpAddr, is_loopback}
use torrust_tracker.Primitives.Peer.{Peer, change_ip}
use torrust_tracker.Primitives.Metrics.{SwarmMetadata, metadata_eq}
use torrust_tracker.Primitives.Core.{AnnounceData}
use torrust_tracker.Configuration.{Core, torrent_peers_limit}
use torrust_tracker.TrackerCore.InMemory
use torrust_tracker.TrackerCore.InMemory.{InMemoryTorrentRepository}

-- The table of the downloads of each torrent, as a driver of the database offers it. A call
-- returns its result and what the database holds after it.
pub record TorrentStore : Type 1 where
  pub Db : Type 0
  pub Error : Type 0
  pub save_persistent_torrent : ℕ → ℕ → Db → Result Error (Unit {0}) × Db
  pub load_persistent_torrents : Db → Result Error (Map ℕ)

pub data PeersWanted : Type 0 where
  as_many_as_possible : PeersWanted
  only : ℕ → PeersWanted

unfoldable pub limit : PeersWanted → ℕ
limit as_many_as_possible = torrent_peers_limit
limit (only amount) = amount

-- `From<i32>`
unfoldable pub from_i32 : ℤ → PeersWanted
from_i32 (pos zero) = as_many_as_possible
from_i32 (pos (suc n)) = only (min (suc n) torrent_peers_limit)
from_i32 (negsuc n) = as_many_as_possible

-- `From<u32>`
unfoldable pub from_u32 : ℕ → PeersWanted
from_u32 value = if value == 0 then as_many_as_possible else only (min value torrent_peers_limit)

unfoldable pub assign_ip_address_to_peer : IpAddr → Option IpAddr → IpAddr
assign_ip_address_to_peer remote_client_ip none = remote_client_ip
assign_ip_address_to_peer remote_client_ip (some host_ip) =
    if is_loopback remote_client_ip then host_ip else remote_client_ip

module _ (D : TorrentStore) where
  pub record AnnounceHandler : Type 0 where
    pub config : Core
    pub torrents : InMemoryTorrentRepository
    pub db : D.Db

module _ {D : TorrentStore} where
  unfoldable pub persist_stats : AnnounceHandler D → ℕ → SwarmMetadata → AnnounceHandler D
  persist_stats s info_hash swarm_metadata =
      if s.config.tracker_policy.persistent_torrent_completed_stat
      then record s { db = (D.save_persistent_torrent info_hash swarm_metadata.downloaded s.db).1 }
      else s

  unfoldable pub upsert_peer_and_get_stats :
      AnnounceHandler D → ℕ → Peer → AnnounceHandler D × SwarmMetadata
  unfolding persist_stats
  upsert_peer_and_get_stats s info_hash peer =
      let before = InMemory.get_swarm_metadata s.torrents info_hash in
      let s' : AnnounceHandler D = record s {
        torrents = InMemory.upsert_peer s.torrents info_hash peer;
      } in
      let after = InMemory.get_swarm_metadata s'.torrents info_hash in
      (if metadata_eq before after then s' else persist_stats s' info_hash after, after)

  -- The peer whose address the tracker stores.
  unfoldable pub announced : AnnounceHandler D → Peer → IpAddr → Peer
  unfolding assign_ip_address_to_peer
  announced s peer remote_client_ip =
      change_ip peer (assign_ip_address_to_peer remote_client_ip s.config.net.external_ip)

  unfoldable pub announce :
      AnnounceHandler D → ℕ → Peer → IpAddr → PeersWanted → AnnounceHandler D × AnnounceData
  unfolding announced upsert_peer_and_get_stats
  announce s info_hash peer remote_client_ip peers_wanted =
      let peer' = announced s peer remote_client_ip in
      let (s', stats) = upsert_peer_and_get_stats s info_hash peer' in
      let peers = InMemory.get_peers_for s'.torrents info_hash peer' (limit peers_wanted) in
      (s', record { peers = peers; stats = stats; policy = s.config.announce_policy })
