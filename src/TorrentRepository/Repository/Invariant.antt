-- ===== src/TorrentRepository/Repository/Invariant.antt =====
-- The invariant of the repository, over any sequence of its operations.
use torrust_tracker.Prelude.{ℕ, List, [], ◌∷◌, All, Bool-cases, inl, inr, Option-cases}
use torrust_tracker.OrderedMap
use torrust_tracker.OrderedMap.{Map}
use torrust_tracker.OrderedMap.Order.{
  IsSorted, insert-IsSorted, remove-IsSorted, map_values-IsSorted,
}
use torrust_tracker.OrderedMap.Laws.{All-insert, All-remove, All-lookup, All-map_values}
use torrust_tracker.Primitives.Peer.{Peer}
use torrust_tracker.Configuration.{TrackerPolicy}
use torrust_tracker.TorrentRepository.PeerList
use torrust_tracker.TorrentRepository.PeerList.Laws as PeerLaws
use torrust_tracker.TorrentRepository.Entry
use torrust_tracker.TorrentRepository.Entry.{Torrent}
use torrust_tracker.TorrentRepository.Entry.Laws.{upsert_peer-IsValid, remove_inactive-IsValid}
use torrust_tracker.TorrentRepository.Repository
use torrust_tracker.TorrentRepository.Repository.{
  CrossbeamSkipList, empty, value_or, import_one, import_each, remove_each,
}
use torrust_tracker.TorrentRepository.Repository.Laws.{EntryIsValid, IsValid}

-- The operations that change a repository.
pub data Operation : Type 0 where
  upsert_peer : ℕ → Peer → Operation
  import_persistent : Map ℕ → Operation
  remove : ℕ → Operation
  remove_inactive_peers : ℕ → Operation
  remove_peerless_torrents : TrackerPolicy → Operation

unfoldable pub apply : CrossbeamSkipList → Operation → CrossbeamSkipList
apply r (upsert_peer h p) = Repository.upsert_peer r h p
apply r (import_persistent ps) = Repository.import_persistent r ps
apply r (remove k) = (Repository.remove r k).0
apply r (remove_inactive_peers cutoff) = Repository.remove_inactive_peers r cutoff
apply r (remove_peerless_torrents policy) = Repository.remove_peerless_torrents r policy

-- The repository after a sequence of operations, the first one first.
unfoldable pub run : CrossbeamSkipList → List Operation → CrossbeamSkipList
run r [] = r
run r (o ∷ os) = run (apply r o) os

-- The map of a repository is valid.
abbrev MapIsValid : Map Torrent → Type 0
MapIsValid m = IsSorted m × All EntryIsValid m

insert-MapIsValid :
    (k : ℕ) (t : Torrent) (m : Map Torrent)
    → PeerLaws.IsValid t.swarm
    → MapIsValid m
    → MapIsValid (OrderedMap.insert k t m)
insert-MapIsValid k t m v h = (insert-IsSorted k t m h.0, All-insert EntryIsValid k t m v h.1)

remove-MapIsValid : (k : ℕ) (m : Map Torrent) → MapIsValid m → MapIsValid (OrderedMap.remove k m)
remove-MapIsValid k m h = (remove-IsSorted k m h.0, All-remove EntryIsValid k m h.1)

empty-IsValid : PeerLaws.IsValid PeerList.empty
empty-IsValid = record { sorted = tt; entries = tt }

value_or-IsValid :
    (k : ℕ) (m : Map Torrent)
    → MapIsValid m
    → PeerLaws.IsValid (value_or Entry.default (OrderedMap.lookup k m)).swarm
value_or-IsValid k m h = elim (Option-cases (OrderedMap.lookup k m)) [
  | inl e ↦ rw e empty-IsValid
  | inr (t, e) ↦ rw e (All-lookup EntryIsValid k t m h.1 e)
]

upsert_peer-keeps :
    (r : CrossbeamSkipList) (k : ℕ) (p : Peer)
    → MapIsValid r.torrents
    → MapIsValid (Repository.upsert_peer r k p).torrents
unfolding Repository.upsert_peer
upsert_peer-keeps r k p h =
    let v = value_or-IsValid k r.torrents h in
    insert-MapIsValid k _ _ (upsert_peer-IsValid _ p v) (insert-MapIsValid k _ _ v h)

import_one-keeps : (m : Map Torrent) (k c : ℕ) → MapIsValid m → MapIsValid (import_one m k c)
unfolding import_one
import_one-keeps m k c h = elim (Option-cases (OrderedMap.lookup k m)) [
  | inl e ↦ rw (e, import_one) (rw e (insert-MapIsValid k _ m empty-IsValid h))
  | inr (t, e) ↦ rw (e, import_one) h
]

import_each-keeps : (m : Map Torrent) (ps : Map ℕ) → MapIsValid m → MapIsValid (import_each m ps)
unfolding import_each
import_each-keeps m [] h = h
import_each-keeps m ((k, c) ∷ ps) h =
    import_each-keeps (import_one m k c) ps (import_one-keeps m k c h)

remove_each-keeps :
    (policy : TrackerPolicy) (es m : Map Torrent)
    → MapIsValid m
    → MapIsValid (remove_each policy es m)
unfolding remove_each
remove_each-keeps policy [] m h = h
remove_each-keeps policy ((k, t) ∷ es) m h =
    remove_each-keeps policy es _ (elim (Bool-cases (Entry.meets_retaining_policy t policy)) [
      | inl e ↦ rw e h
      | inr e ↦ rw e (remove-MapIsValid k m h)
    ])

remove_inactive_peers-keeps :
    (cutoff : ℕ) (m : Map Torrent)
    → MapIsValid m
    → MapIsValid (OrderedMap.map_values (λ e. Entry.remove_inactive_peers e cutoff) m)
remove_inactive_peers-keeps cutoff m h = (
  map_values-IsSorted _ m h.0,
  All-map_values EntryIsValid EntryIsValid _ m (λ k t v. remove_inactive-IsValid t cutoff v) h.1,
)

apply-keeps :
    (r : CrossbeamSkipList) (o : Operation)
    → MapIsValid r.torrents
    → MapIsValid (apply r o).torrents
unfolding apply Repository.import_persistent Repository.remove Repository.remove_inactive_peers
    Repository.remove_peerless_torrents
apply-keeps r (upsert_peer k p) h = upsert_peer-keeps r k p h
apply-keeps r (import_persistent ps) h = import_each-keeps r.torrents ps h
apply-keeps r (remove k) h = remove-MapIsValid k r.torrents h
apply-keeps r (remove_inactive_peers cutoff) h = remove_inactive_peers-keeps cutoff r.torrents h
apply-keeps r (remove_peerless_torrents policy) h = remove_each-keeps policy r.torrents r.torrents h

-- Every operation keeps a valid repository valid.
pub apply-IsValid : (r : CrossbeamSkipList) (o : Operation) → IsValid r → IsValid (apply r o)
apply-IsValid r o h =
    let k = apply-keeps r o (h.sorted, h.entries) in record { sorted = k.0; entries = k.1 }

-- Any sequence of operations keeps a valid repository valid.
pub run-IsValid : (r : CrossbeamSkipList) (os : List Operation) → IsValid r → IsValid (run r os)
unfolding run
run-IsValid r [] h = h
run-IsValid r (o ∷ os) h = run-IsValid (apply r o) os (apply-IsValid r o h)

pub empty_repository-IsValid : IsValid empty
empty_repository-IsValid = record { sorted = tt; entries = tt }
