-- ===== src/TorrentRepository/Entry/History.antt =====
-- A torrent against the history of its announces, newest first.
use torrust_tracker.Prelude.{
  ℕ, ◌+◌, ◌%◌, ◌^◌, ◌&&◌, ◌≡◌, refl, Option, none, some, List, [], ◌∷◌, arith, ◌==◌, if◌then◌else◌,
  to_nat,
}
use torrust_tracker.OrderedMap
use torrust_tracker.Primitives.Peer.{Peer, AnnounceEvent, event_eq}
use torrust_tracker.TorrentRepository.PeerList
use torrust_tracker.TorrentRepository.PeerList.Laws.{IsValid}
use torrust_tracker.TorrentRepository.Entry.{Torrent, default, upsert_peer}
use torrust_tracker.TorrentRepository.Entry.Laws.{
  is_unfinished, upsert_peer-IsValid, get-upsert_peer, upsert_peer-counts,
}

-- The torrent after the announces of a history.
abbrev pub after : List Peer → Torrent
after [] = default
after (p ∷ h) = (upsert_peer (after h) p).0

-- The last announce of a peer, unless that was a stop.
abbrev pub last_announce : ℕ → List Peer → Option Peer
last_announce j [] = none
last_announce j (p ∷ h) =
    if j == p.peer_id
    then (if event_eq p.event AnnounceEvent.stopped then none else some p)
    else last_announce j h

-- The completed downloads of a history: the `completed` announces of a peer whose announce before
-- that was neither a stop nor `completed`.
abbrev pub completions : List Peer → ℕ
completions [] = 0
completions (p ∷ h) =
    completions h
    + to_nat (event_eq p.event AnnounceEvent.completed && is_unfinished (last_announce p.peer_id h))

pub after-IsValid : (h : List Peer) → IsValid (after h).swarm
after-IsValid [] = record { sorted = tt; entries = tt }
after-IsValid (p ∷ h) = upsert_peer-IsValid (after h) p (after-IsValid h)

-- After any announces the swarm holds, for each peer id, the last announce of that peer, and
-- nothing if there was none or it was a stop.
pub get-after : (h : List Peer) (j : ℕ) → PeerList.get (after h).swarm j ≡ last_announce j h
unfolding PeerList.get OrderedMap.lookup
get-after [] j = refl
get-after (p ∷ h) j = ground (arith, get-upsert_peer (after h) p j, get-after h j)

-- After any announces the counter holds the number of completed downloads, modulo 2^32.
pub downloaded-after : (h : List Peer) → (after h).downloaded ≡ completions h % 2 ^ 32
downloaded-after [] = refl
downloaded-after (p ∷ h) =
    ground (arith, upsert_peer-counts (after h) p, get-after h p.peer_id, downloaded-after h)
