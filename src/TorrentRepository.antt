-- ===== src/TorrentRepository.antt =====
-- packages/torrent-repository/src: the swarm of a torrent, the torrent entry, and the repositories
-- that hold the entries of all torrents.
pub mod PeerList
pub mod Entry
pub mod Repository
pub mod RwLockStd
pub mod Shared
