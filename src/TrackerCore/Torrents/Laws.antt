-- ===== src/TrackerCore/Torrents/Laws.antt =====
-- The cleanup of torrents, and what the API shows.
use torrust_tracker.Prelude.{
  ℕ, ◌+◌, ◌*◌, Bool, true, false, ◌&&◌, ◌≡◌, Option, none, some, arith, ltb, if◌then◌else◌,
}
use mathlib.Core.Option
use torrust_tracker.OrderedMap
use torrust_tracker.OrderedMap.{Map}
use torrust_tracker.OrderedMap.Laws.{keep_if}
use torrust_tracker.Primitives.Peer.{Peer}
use torrust_tracker.Configuration.{Core}
use torrust_tracker.TorrentRepository.PeerList
use torrust_tracker.TorrentRepository.PeerList.Laws as PeerLaws
use torrust_tracker.TorrentRepository.Entry
use torrust_tracker.TorrentRepository.Entry.{Torrent}
use torrust_tracker.TorrentRepository.Repository
use torrust_tracker.TorrentRepository.Repository.Laws.{
  IsValid, get-remove_inactive_peers, get-remove_peerless_torrents,
}
use torrust_tracker.TorrentRepository.Repository.Invariant.{Operation, apply, apply-IsValid}
use torrust_tracker.TrackerCore.InMemory
use torrust_tracker.TrackerCore.InMemory.{InMemoryTorrentRepository}
use torrust_tracker.TrackerCore.Torrents.{cutoff, cleanup_torrents}

-- A torrent without its inactive peers.
abbrev trimmed : ℕ → Option Torrent → Option Torrent
trimmed c = Option.map (λ t. Entry.remove_inactive_peers t c)

remove_inactive-IsValid :
    (r : InMemoryTorrentRepository) (c : ℕ)
    → IsValid r.torrents
    → IsValid (InMemory.remove_inactive_peers r c).torrents
unfolding InMemory.remove_inactive_peers apply
remove_inactive-IsValid r c h = apply-IsValid r.torrents (Operation.remove_inactive_peers c) h

module _ (config : Core) (now : ℕ) (r : InMemoryTorrentRepository)
    (valid : IsValid r.torrents) where
  -- After the cleanup a torrent has lost its inactive peers; and if peerless torrents are to be
  -- removed, it is there only if it then meets the retaining policy.
  pub get-cleanup_torrents :
      (h : ℕ)
      → InMemory.get (cleanup_torrents config now r) h ≡ (
          if config.tracker_policy.remove_peerless_torrents
          then keep_if
              (λ t. Entry.meets_retaining_policy t config.tracker_policy)
              (trimmed (cutoff config now) (InMemory.get r h))
          else trimmed (cutoff config now) (InMemory.get r h))
  unfolding cleanup_torrents InMemory.get InMemory.remove_inactive_peers
      InMemory.remove_peerless_torrents
  get-cleanup_torrents h = ground (
    arith,
    get-remove_inactive_peers r.torrents (cutoff config now) h,
    get-remove_peerless_torrents (Repository.remove_inactive_peers r.torrents (cutoff config now))
        config.tracker_policy h
        (unfold InMemory.remove_inactive_peers in
          remove_inactive-IsValid r (cutoff config now) valid),
  )

abbrev pub peer_in : ℕ → Option Torrent → Option Peer
peer_in j none = none
peer_in j (some t) = PeerList.get t.swarm j

-- The peer with the id `j` in the swarm of the torrent `h`.
abbrev pub find_peer : InMemoryTorrentRepository → ℕ → ℕ → Option Peer
find_peer r h j = peer_in j (InMemory.get r h)

-- A peer is active for the timeout after its last announce.
abbrev pub is_active : Core → ℕ → Peer → Bool
is_active config now p =
    ltb 0 p.updated && ltb now (p.updated + config.tracker_policy.max_peer_timeout * 1_000_000_000)

IsValid-if :
    (b : Bool) (x y : InMemoryTorrentRepository)
    → IsValid x.torrents
    → IsValid y.torrents
    → IsValid (if b then x else y).torrents
IsValid-if true x y v w = v
IsValid-if false x y v w = w

-- A cleanup leaves the repository valid.
pub cleanup_torrents-IsValid :
    (config : Core) (now : ℕ) (r : InMemoryTorrentRepository)
    → IsValid r.torrents
    → IsValid (cleanup_torrents config now r).torrents
unfolding cleanup_torrents InMemory.remove_inactive_peers InMemory.remove_peerless_torrents apply
cleanup_torrents-IsValid config now r v =
    let w = apply-IsValid r.torrents (Operation.remove_inactive_peers (cutoff config now)) v in
    IsValid-if config.tracker_policy.remove_peerless_torrents _ _
      (apply-IsValid _ (Operation.remove_peerless_torrents config.tracker_policy) w) w
