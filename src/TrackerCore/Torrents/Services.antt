-- ===== src/TrackerCore/Torrents/Services.antt =====
-- What the API shows of torrents agrees with what the repository holds.
use torrust_tracker.Prelude.{
  ℕ, ◌+◌, ◌^◌, ◌<◌, ◌≤◌, ◌≡◌, refl, some, List, [], ◌∷◌, arith, length, All, All-take, All-drop,
  length-take, take, drop,
}
use torrust_tracker.OrderedMap.{values}
use torrust_tracker.OrderedMap.Laws.{IsFound, All-IsFound}
use torrust_tracker.Primitives.Metrics.{Pagination}
use torrust_tracker.TorrentRepository.PeerList
use torrust_tracker.TorrentRepository.PeerList.Laws.{length-values}
use torrust_tracker.TorrentRepository.Entry
use torrust_tracker.TorrentRepository.Entry.{Torrent}
use torrust_tracker.TorrentRepository.Entry.Laws.{metadata_total}
use torrust_tracker.TorrentRepository.Repository
use torrust_tracker.TorrentRepository.Repository.Laws.{IsValid}
use torrust_tracker.TrackerCore.InMemory
use torrust_tracker.TrackerCore.InMemory.{InMemoryTorrentRepository}
use torrust_tracker.TrackerCore.Torrents.{
  Info, BasicInfo, get_torrent_info, page_infos, get_torrents_page, get_torrents,
}

-- The shown numbers of seeders and leechers add up to the number of shown peers, if a torrent has
-- fewer than 2^32 peers.
pub get_torrent_info_total :
    (r : InMemoryTorrentRepository) (h : ℕ) (t : Torrent)
    → InMemory.get r h ≡ some t
    → Entry.get_peers_len t < 2 ^ 32
    → (i : Info) × (get_torrent_info r h ≡ some i)
      × (i.peers ≡ some (values t.swarm.peers))
      × (i.seeders + i.leechers ≡ length (values t.swarm.peers))
unfolding get_torrent_info Entry.get_peers PeerList.get_all Entry.get_peers_len PeerList.length
get_torrent_info_total r h t e few = (
  record {
    info_hash = h;
    seeders = (Entry.get_swarm_metadata t).complete;
    completed = (Entry.get_swarm_metadata t).downloaded;
    leechers = (Entry.get_swarm_metadata t).incomplete;
    peers = some (values t.swarm.peers);
  },
  rw (e, get_torrent_info) refl,
  refl,
  omega (arith, metadata_total t few, length-values t.swarm.peers),
)

-- A row that the list of the torrents shows is what a query by its info hash shows.
abbrev pub IsShown : InMemoryTorrentRepository → BasicInfo → Type 0
IsShown r b = get_torrents r (b.info_hash ∷ []) ≡ b ∷ []

page_infos-IsShown :
    (r : InMemoryTorrentRepository) (es : List (ℕ × Torrent))
    → All (IsFound r.torrents.torrents) es
    → All (IsShown r) (page_infos es)
unfolding page_infos get_torrents InMemory.get Repository.get
page_infos-IsShown r [] h = tt
page_infos-IsShown r ((k, t) ∷ es) h = (rw h.0 refl, page_infos-IsShown r es h.1)

length-page_infos : (es : List (ℕ × Torrent)) → length (page_infos es) ≡ length es
unfolding page_infos
length-page_infos [] = refl
length-page_infos (e ∷ es) = omega (arith, length-page_infos es)

-- A page has at most `limit` rows, and every row of it is what a query by its info hash shows.
pub get_torrents_page_lem :
    (r : InMemoryTorrentRepository) (p : Pagination)
    → IsValid r.torrents
    → (length (get_torrents_page r (some p)) ≤ p.limit)
      × All (IsShown r) (get_torrents_page r (some p))
unfolding get_torrents_page InMemory.get_paginated Repository.get_paginated
get_torrents_page_lem r p v =
    let m = r.torrents.torrents in
    (
      omega (
        arith,
        length-page_infos (take p.limit (drop p.offset m)),
        length-take p.limit (drop p.offset m),
      ),
      page_infos-IsShown r _
          (All-take _ p.limit _ (All-drop _ p.offset m (All-IsFound m v.sorted))),
    )
