-- ===== src/TorrentRepository/Entry/Laws.antt =====
-- What an announce does to a torrent, and how its statistics follow.
use torrust_tracker.Prelude.{
  Option, ℕ, ◌+◌, ◌%◌, ◌^◌, ◌<◌, Bool, true, false, ◌&&◌, ◌≡◌, none, some, arith, ltb, ◌==◌,
  if◌then◌else◌, count_b, to_nat,
}
use torrust_tracker.OrderedMap.{values}
use torrust_tracker.OrderedMap.Laws.{keep_if, weight, count_b-insert, count_b-remove}
use torrust_tracker.Primitives.Peer.{Peer, AnnounceEvent, event_eq, is_seeder}
use torrust_tracker.TorrentRepository.PeerList
use torrust_tracker.TorrentRepository.PeerList.Laws.{
  IsValid, upsert-IsValid, remove-IsValid, remove_inactive_peers-IsValid, get-upsert, get-remove,
  get-remove_inactive_peers, seeders_and_leechers_total,
}
use torrust_tracker.TorrentRepository.Entry.{
  Torrent, get_swarm_metadata, get_peers_len, upsert_peer, remove_inactive_peers,
}

-- Whether a peer is known, and its last announce was not that it has completed.
abbrev pub is_unfinished : Option Peer → Bool
is_unfinished none = false
is_unfinished (some q) = elim q.event [ AnnounceEvent.completed ↦ false | _ ↦ true ]

module _ (t : Torrent) (p : Peer) where
  -- Whatever the event, the swarm stays a valid set of peers.
  pub upsert_peer-IsValid : IsValid t.swarm → IsValid (upsert_peer t p).0.swarm
  unfolding upsert_peer
  upsert_peer-IsValid h =
      ground (arith, h, upsert-IsValid t.swarm p, remove-IsValid t.swarm p.peer_id)

  pub get-upsert_peer :
      (j : ℕ)
      → PeerList.get (upsert_peer t p).0.swarm j ≡ (
          if j == p.peer_id
          then (if event_eq p.event AnnounceEvent.stopped then none else some p)
          else PeerList.get t.swarm j)
  unfolding upsert_peer
  get-upsert_peer j = ground (arith, get-upsert t.swarm p j, get-remove t.swarm p.peer_id j)

  -- Whether the announce is a completed download of a peer that was known and not yet complete.
  abbrev pub counts : Bool
  counts =
      event_eq p.event AnnounceEvent.completed && is_unfinished (PeerList.get t.swarm p.peer_id)

  pub upsert_peer-counts :
      ((upsert_peer t p).1 ≡ counts)
      × ((upsert_peer t p).0.downloaded
          ≡ (if counts then (t.downloaded + 1) % 2 ^ 32 else t.downloaded))
  unfolding upsert_peer PeerList.get PeerList.upsert
  upsert_peer-counts = ground arith

  -- In a valid swarm an announce changes the number of seeders by the announcing peer alone: what it
  -- counted for before is taken off, and what it counts for now is added, nothing where it stopped.
  pub seeders-upsert_peer :
      IsValid t.swarm
      → count_b is_seeder (values (upsert_peer t p).0.swarm.peers)
          + weight is_seeder (PeerList.get t.swarm p.peer_id)
        ≡ count_b is_seeder (values t.swarm.peers) + to_nat (is_seeder p)
  unfolding upsert_peer PeerList.get PeerList.upsert PeerList.remove is_seeder
  seeders-upsert_peer h = ground (
    arith,
    count_b-insert is_seeder p.peer_id p t.swarm.peers h.sorted,
    count_b-remove is_seeder p.peer_id t.swarm.peers h.sorted,
  )

module _ (t : Torrent) where
  pub remove_inactive-IsValid :
      (cutoff : ℕ) → IsValid t.swarm → IsValid (remove_inactive_peers t cutoff).swarm
  unfolding remove_inactive_peers
  remove_inactive-IsValid cutoff h = remove_inactive_peers-IsValid t.swarm cutoff h

  pub get-remove_inactive :
      (cutoff j : ℕ)
      → IsValid t.swarm
      → PeerList.get (remove_inactive_peers t cutoff).swarm j
        ≡ keep_if (λ p. ltb cutoff p.updated) (PeerList.get t.swarm j)
  unfolding remove_inactive_peers
  get-remove_inactive cutoff j h = get-remove_inactive_peers t.swarm cutoff j h

  -- With fewer than 2^32 peers the statistics count every peer once.
  pub metadata_total :
      get_peers_len t < 2 ^ 32
      → (get_swarm_metadata t).complete + (get_swarm_metadata t).incomplete ≡ get_peers_len t
  unfolding get_swarm_metadata get_peers_len
  metadata_total h = omega (arith, (seeders_and_leechers_total t.swarm).1)
