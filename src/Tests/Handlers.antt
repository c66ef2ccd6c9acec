-- ===== src/Tests/Handlers.antt =====
-- Examples of the theorems on announces, scrapes and the cleanup of torrents.
use torrust_tracker.Prelude.{◌≤◌, max, false, ◌≡◌, refl, [], ◌∷◌, negsuc, length, All}
use torrust_tracker.OrderedMap
use torrust_tracker.OrderedMap.{values}
use torrust_tracker.Primitives.Net.{socket_addr_eq, v4}
use torrust_tracker.Primitives.Peer.{change_ip, started, completed}
use torrust_tracker.Configuration.{torrent_peers_limit}
use torrust_tracker.TorrentRepository.PeerList
use torrust_tracker.TorrentRepository.Repository
use torrust_tracker.TorrentRepository.Repository.{value_or}
use torrust_tracker.TrackerCore.InMemory
use torrust_tracker.TrackerCore.InMemory.{InMemoryTorrentRepository}
use torrust_tracker.TrackerCore.Announce.{
  AnnounceHandler, as_many_as_possible, only, limit, from_u32, from_i32, announced, announce,
}
use torrust_tracker.TrackerCore.Announce.Laws.{
  get-announce, peers-announce_bounded, announce-persists, announce-ignores_peers_wanted,
}
use torrust_tracker.TrackerCore.Scrape.{ScrapeHandler}
use torrust_tracker.Tests.Samples.{peer, repository, core}
use torrust_tracker.Tests.Stores.{torrent_table}

abbrev torrents : InMemoryTorrentRepository
torrents = record { torrents = repository }

abbrev handler : AnnounceHandler torrent_table
handler = record { config = core; torrents = torrents; db = [] }

-- A tracker with one torrent, 5, that peer 1 downloads.
abbrev downloading : AnnounceHandler torrent_table
downloading = record {
  config = core;
  torrents = record {
    torrents = record {
      torrents =
          (5, record { swarm = record { peers = (1, peer 1 5 started 5) ∷ [] }; downloaded = 2 })
          ∷ [];
    };
  };
  db = [];
}

get-announce_example :
    InMemory.get
      (announce handler 7 (peer 3 5 started 50) (v4 1000) as_many_as_possible).0.torrents
      9
    ≡ InMemory.get torrents 9
get-announce_example = get-announce handler 7 (peer 3 5 started 50) (v4 1000) as_many_as_possible 9

peers-announce_bounded_example :
    (length (announce downloading 5 (peer 3 5 started 50) (v4 1000) (only 7)).1.peers
      ≤ max (limit (only 7)) torrent_peers_limit)
    × All
        (λ q.
          socket_addr_eq q.peer_addr
            (announced downloading (peer 3 5 started 50) (v4 1000)).peer_addr
          ≡ false)
        (announce downloading 5 (peer 3 5 started 50) (v4 1000) (only 7)).1.peers
peers-announce_bounded_example =
    peers-announce_bounded downloading 5 (peer 3 5 started 50) (v4 1000) (only 7)

announce-persists_example :
    (announce downloading 5 (peer 1 0 completed 60) (v4 1000) as_many_as_possible).0.db
    ≡ OrderedMap.insert 5 3 []
unfolding InMemory.get Repository.get OrderedMap.lookup PeerList.get announced change_ip
announce-persists_example =
    announce-persists downloading 5 (peer 1 0 completed 60) (v4 1000) as_many_as_possible refl refl

announce-ignores_peers_wanted_example :
    ((announce downloading 5 (peer 3 5 started 50) (v4 1000) (from_u32 1)).1
      ≡ (announce downloading 5 (peer 3 5 started 50) (v4 1000) as_many_as_possible).1)
    × ((announce downloading 5 (peer 3 5 started 50) (v4 1000) (from_i32 (negsuc 4))).1
        ≡ (announce downloading 5 (peer 3 5 started 50) (v4 1000) as_many_as_possible).1)
announce-ignores_peers_wanted_example =
    announce-ignores_peers_wanted downloading 5 (peer 3 5 started 50) (v4 1000) 1 (negsuc 4)

abbrev scraper : ScrapeHandler
scraper = record {
  config = core;
  whitelist = record { whitelist = (5, tt) ∷ [] };
  torrents = downloading.torrents;
}
