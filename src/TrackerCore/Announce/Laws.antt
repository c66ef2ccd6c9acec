-- ===== src/TrackerCore/Announce/Laws.antt =====
-- What an announce stores, answers and persists.
use torrust_tracker.Prelude.{
  ℕ, ◌+◌, ◌%◌, ◌^◌, ◌≤◌, max, true, false, not, ◌≡◌, ◌⊎◌, ◌∙◌, refl, sym, ==_refl, some, ℤ, pos,
  negsuc, zero, suc, arith, ◌==◌, if◌then◌else◌, length, filter_b, All, take_of_length-le,
}
use torrust_tracker.OrderedMap.{values}
use torrust_tracker.Primitives.Net.{IpAddr, SocketAddr, socket_addr_eq}
use torrust_tracker.Primitives.Peer.{Peer}
use torrust_tracker.Primitives.Metrics.{metadata_eq, metadata_eq_iff}
use torrust_tracker.Primitives.Core.{AnnounceData, AnnouncePolicy}
use torrust_tracker.Configuration.{torrent_peers_limit}
use torrust_tracker.TorrentRepository.PeerList
use torrust_tracker.TorrentRepository.PeerList.Laws.{get_peers_excluding_addr_lem}
use torrust_tracker.TorrentRepository.Entry
use torrust_tracker.TorrentRepository.Entry.{Torrent}
use torrust_tracker.TorrentRepository.Entry.Laws.{counts, upsert_peer-counts}
use torrust_tracker.TorrentRepository.Repository.{value_or}
use torrust_tracker.TorrentRepository.Repository.Laws.{get-upsert_peer}
use torrust_tracker.TrackerCore.InMemory
use torrust_tracker.TrackerCore.InMemory.{InMemoryTorrentRepository}
use torrust_tracker.TrackerCore.Announce.{
  TorrentStore, AnnounceHandler, PeersWanted, as_many_as_possible, limit, from_i32, from_u32,
  persist_stats, announced, announce,
}

-- Whatever number of peers a client asks for, the limit on its list is the tracker's own.
limit_from_u32 : (n : ℕ) → max (limit (from_u32 n)) torrent_peers_limit ≡ torrent_peers_limit
unfolding limit from_u32
limit_from_u32 n = ground arith

pub limit_from_i32 : (n : ℤ) → max (limit (from_i32 n)) torrent_peers_limit ≡ torrent_peers_limit
unfolding limit from_i32
limit_from_i32 (pos zero) = refl
limit_from_i32 (pos (suc n)) = omega arith
limit_from_i32 (negsuc n) = refl

-- The torrent that an announce of a peer leaves behind.
abbrev pub upserted : InMemoryTorrentRepository → ℕ → Peer → Torrent
upserted r h p = (Entry.upsert_peer (value_or Entry.default (InMemory.get r h)) p).0

get-upsert :
    (r : InMemoryTorrentRepository) (h : ℕ) (p : Peer) (j : ℕ)
    → InMemory.get (InMemory.upsert_peer r h p) j
      ≡ (if j == h then some (upserted r h p) else InMemory.get r j)
unfolding InMemory.get InMemory.upsert_peer
get-upsert r h p j = get-upsert_peer r.torrents h p j

-- The swarm that a peer is told of is that of the torrent.
get_peers_for_lem :
    (r : InMemoryTorrentRepository) (h : ℕ) (p : Peer) (n : ℕ) (t : Torrent)
    → InMemory.get r h ≡ some t
    → InMemory.get_peers_for r h p n
      ≡ PeerList.get_peers_excluding_addr t.swarm p.peer_addr (some (max n torrent_peers_limit))
unfolding InMemory.get InMemory.get_peers_for Entry.get_peers_for_client
get_peers_for_lem r h p n t e = rw (e, InMemory.get_peers_for) refl

get_swarm_metadata_lem :
    (r : InMemoryTorrentRepository) (h : ℕ)
    → InMemory.get_swarm_metadata r h
      ≡ Entry.get_swarm_metadata (value_or Entry.default (InMemory.get r h))
unfolding InMemory.get InMemory.get_swarm_metadata Entry.get_swarm_metadata
    PeerList.seeders_and_leechers
get_swarm_metadata_lem r h = ground arith

abbrev answer : Torrent → SocketAddr → ℕ → AnnouncePolicy → AnnounceData
answer t client n policy = record {
  peers = PeerList.get_peers_excluding_addr t.swarm client (some n);
  stats = Entry.get_swarm_metadata t;
  policy = policy;
}

module _ {D : TorrentStore} (s : AnnounceHandler D) (h : ℕ) (p : Peer) (ip : IpAddr)
    (w : PeersWanted) where
  pub torrents-announce :
      (announce s h p ip w).0.torrents ≡ InMemory.upsert_peer s.torrents h (announced s p ip)
  unfolding announce
  torrents-announce = ground arith

  -- After an announce the torrent is the old one, or an empty new one, with the peer upserted under
  -- the address that the tracker assigned; every other torrent is as it was.
  pub get-announce :
      (j : ℕ)
      → InMemory.get (announce s h p ip w).0.torrents j ≡ (
          if j == h
          then some (upserted s.torrents h (announced s p ip))
          else InMemory.get s.torrents j)
  get-announce j = rw torrents-announce (get-upsert s.torrents h (announced s p ip) j)

  found-announce :
      InMemory.get (InMemory.upsert_peer s.torrents h (announced s p ip)) h
      ≡ some (upserted s.torrents h (announced s p ip))
  found-announce = rw (get-upsert, ==_refl) refl

  asked-announce :
      (announce s h p ip w).1.peers
      ≡ InMemory.get_peers_for (announce s h p ip w).0.torrents h (announced s p ip) (limit w)
  unfolding announce
  asked-announce = refl

  -- The list that the announcing peer gets is that of the torrent's swarm after its announce.
  pub peers-announce :
      (announce s h p ip w).1.peers
      ≡ PeerList.get_peers_excluding_addr
          (upserted s.torrents h (announced s p ip)).swarm
          (announced s p ip).peer_addr
          (some (max (limit w) torrent_peers_limit))
  peers-announce =
      asked-announce
      ∙ rw torrents-announce (
          get_peers_for_lem (InMemory.upsert_peer s.torrents h (announced s p ip)) h
            (announced s p ip) (limit w) _ found-announce)

  -- A client is never told of a peer at its own address, nor of more peers than the limit.
  pub peers-announce_bounded :
      (length (announce s h p ip w).1.peers ≤ max (limit w) torrent_peers_limit)
      × All
          (λ q. socket_addr_eq q.peer_addr (announced s p ip).peer_addr ≡ false)
          (announce s h p ip w).1.peers
  peers-announce_bounded = rw peers-announce (get_peers_excluding_addr_lem _ _ _)

  -- If the other peers of the swarm are no more than the tracker's limit, a client is told of all.
  pub peers-announce_all :
      length (
          filter_b
            (λ q. not (socket_addr_eq q.peer_addr (announced s p ip).peer_addr))
            (values (upserted s.torrents h (announced s p ip)).swarm.peers))
        ≤ torrent_peers_limit
      → (announce s h p ip w).1.peers
        ≡ filter_b
            (λ q. not (socket_addr_eq q.peer_addr (announced s p ip).peer_addr))
            (values (upserted s.torrents h (announced s p ip)).swarm.peers)
  unfolding PeerList.get_peers_excluding_addr
  peers-announce_all few = peers-announce ∙ take_of_length-le _ _ (omega arith)

  -- The statistics of the answer are those of the stored torrent.
  pub stats-announce :
      (announce s h p ip w).1.stats
      ≡ Entry.get_swarm_metadata (upserted s.torrents h (announced s p ip))
  unfolding announce
  stats-announce =
      get_swarm_metadata_lem (InMemory.upsert_peer s.torrents h (announced s p ip)) h
      ∙ rw found-announce refl

  db-announce : (announce s h p ip w).0.db ≡ (
      if metadata_eq (InMemory.get_swarm_metadata s.torrents h) (announce s h p ip w).1.stats
      then s.db
      else (persist_stats s h (announce s h p ip w).1.stats).db)
  unfolding announce
  db-announce = ground arith

  -- An announce that completes a download of a known peer writes the new number of downloads of
  -- the torrent to the database, if the tracker is configured to persist it.
  pub announce-persists :
      counts (value_or Entry.default (InMemory.get s.torrents h)) (announced s p ip) ≡ true
      → s.config.tracker_policy.persistent_torrent_completed_stat ≡ true
      → (announce s h p ip w).0.db
        ≡ (D.save_persistent_torrent h
            (((value_or Entry.default (InMemory.get s.torrents h)).downloaded + 1) % 2 ^ 32)
            s.db).1
  unfolding persist_stats Entry.get_swarm_metadata
  announce-persists counted persistent =
      let t = value_or Entry.default (InMemory.get s.torrents h) in
      ground (
        arith,
        db-announce,
        stats-announce,
        get_swarm_metadata_lem s.torrents h,
        upsert_peer-counts t (announced s p ip),
      )

  answer-announce :
      (announce s h p ip w).1
      ≡ answer
          (upserted s.torrents h (announced s p ip))
          (announced s p ip).peer_addr
          (max (limit w) torrent_peers_limit)
          s.config.announce_policy
  unfolding announce
  answer-announce = λ i. record {
    peers = peers-announce i;
    stats = stats-announce i;
    policy = s.config.announce_policy;
  }

  -- Without that setting, or where the statistics of the torrent stay the same, the database is
  -- left alone.
  pub announce-keeps_db :
      (s.config.tracker_policy.persistent_torrent_completed_stat ≡ false)
        ⊎ (InMemory.get_swarm_metadata s.torrents h ≡ (announce s h p ip w).1.stats)
      → (announce s h p ip w).0.db ≡ s.db
  unfolding persist_stats
  announce-keeps_db e = ground (
    arith,
    db-announce,
    metadata_eq_iff (InMemory.get_swarm_metadata s.torrents h) (announce s h p ip w).1.stats,
  )

-- The number of peers that a client asks for changes nothing in the answer, whether it is given as
-- a `u32` or an `i32`: every request is answered as if it asked for as many as possible.
pub announce-ignores_peers_wanted :
    {D : TorrentStore} (s : AnnounceHandler D) (h : ℕ) (p : Peer) (ip : IpAddr) (n : ℕ) (z : ℤ)
    → ((announce s h p ip (from_u32 n)).1 ≡ (announce s h p ip as_many_as_possible).1)
      × ((announce s h p ip (from_i32 z)).1 ≡ (announce s h p ip as_many_as_possible).1)
unfolding limit
announce-ignores_peers_wanted s h p ip n z = (
  answer-announce s h p ip (from_u32 n)
      ∙ rw limit_from_u32 (sym (answer-announce s h p ip as_many_as_possible)),
  answer-announce s h p ip (from_i32 z)
      ∙ rw limit_from_i32 (sym (answer-announce s h p ip as_many_as_possible)),
)
