-- ===== src/TorrentRepository/Repository/Laws.antt =====
-- What each operation of the repository stores, and the invariant that all of them keep.
use torrust_tracker.Prelude.{
  ℕ, Bool, false, not, ◌≡◌, refl, Option, none, some, [], ◌∷◌, arith, ◌==◌, if◌then◌else◌, All,
}
use mathlib.Core.Option
use torrust_tracker.OrderedMap
use torrust_tracker.OrderedMap.{Map}
use torrust_tracker.OrderedMap.Order.{IsSorted, lookup_above}
use torrust_tracker.OrderedMap.Laws.{keep_if, lookup-insert, lookup-remove, lookup-map_values}
use torrust_tracker.Primitives.Peer.{Peer}
use torrust_tracker.Configuration.{TrackerPolicy}
use torrust_tracker.TorrentRepository.PeerList
use torrust_tracker.TorrentRepository.PeerList.Laws
use torrust_tracker.TorrentRepository.Entry
use torrust_tracker.TorrentRepository.Entry.{Torrent}
use torrust_tracker.TorrentRepository.Repository.{
  CrossbeamSkipList, value_or, upsert_peer, get, import_one, import_each, import_persistent, remove,
  remove_inactive_peers, remove_each, remove_peerless_torrents,
}

-- A torrent's swarm is a valid set of peers.
abbrev pub EntryIsValid : ℕ × Torrent → Type 0
EntryIsValid e = Laws.IsValid e.1.swarm

pub record IsValid (r : CrossbeamSkipList) : Type 0 where
  pub sorted : IsSorted r.torrents
  pub entries : All EntryIsValid r.torrents

-- After an announce the torrent is the old one, or an empty new one, with the peer upserted; every
-- other torrent is as it was.
pub get-upsert_peer :
    (r : CrossbeamSkipList) (h : ℕ) (p : Peer) (j : ℕ)
    → get (upsert_peer r h p) j ≡ (
        if j == h then some (Entry.upsert_peer (value_or Entry.default (get r h)) p).0 else get r j)
unfolding get upsert_peer
get-upsert_peer r h p j = ground (
  arith,
  lookup-insert h j
      (Entry.upsert_peer (value_or Entry.default (OrderedMap.lookup h r.torrents)) p).0
      (OrderedMap.insert h (value_or Entry.default (OrderedMap.lookup h r.torrents)) r.torrents),
  lookup-insert h j (value_or Entry.default (OrderedMap.lookup h r.torrents)) r.torrents,
)

abbrev pub imported : Option ℕ → Option Torrent
imported = Option.map (λ completed. record { swarm = PeerList.empty; downloaded = completed })

-- A value, or else another.
abbrev pub or_else {ℓ} : {V : Type ℓ} → Option V → Option V → Option V
or_else none b = b
or_else (some a) b = some a

lookup-import_one :
    (m : Map Torrent) (h c j : ℕ)
    → OrderedMap.lookup j (import_one m h c)
      ≡ or_else (OrderedMap.lookup j m) (imported (if j == h then some c else none))
unfolding import_one
lookup-import_one m h c j =
    ground (arith, lookup-insert h j (record { swarm = PeerList.empty; downloaded = c }) m)

lookup-import_each :
    (m : Map Torrent) (ps : Map ℕ) (j : ℕ)
    → OrderedMap.lookup j (import_each m ps)
      ≡ or_else (OrderedMap.lookup j m) (imported (OrderedMap.lookup j ps))
unfolding OrderedMap.lookup import_each
lookup-import_each m [] j = ground arith
lookup-import_each m ((h, c) ∷ ps) j =
    ground (arith, lookup-import_each (import_one m h c) ps j, lookup-import_one m h c j)

-- After an import a known torrent is as it was, and an unknown one has an empty swarm and the
-- downloads that were persisted for it.
pub get-import_persistent :
    (r : CrossbeamSkipList) (ps : Map ℕ) (j : ℕ)
    → get (import_persistent r ps) j ≡ or_else (get r j) (imported (OrderedMap.lookup j ps))
unfolding get import_persistent
get-import_persistent r ps j = lookup-import_each r.torrents ps j

pub get-remove :
    (r : CrossbeamSkipList) (k j : ℕ) → get (remove r k).0 j ≡ (if j == k then none else get r j)
unfolding get remove
get-remove r k j = lookup-remove k j r.torrents

pub get-remove_inactive_peers :
    (r : CrossbeamSkipList) (cutoff j : ℕ)
    → get (remove_inactive_peers r cutoff) j
      ≡ Option.map (λ t. Entry.remove_inactive_peers t cutoff) (get r j)
unfolding get remove_inactive_peers
get-remove_inactive_peers r cutoff j = lookup-map_values _ j r.torrents

-- Whether a listed entry is dropped.
abbrev dropped : TrackerPolicy → Option Torrent → Bool
dropped policy none = false
dropped policy (some t) = not (Entry.meets_retaining_policy t policy)

lookup-remove_each :
    (policy : TrackerPolicy) (es m : Map Torrent) (j : ℕ)
    → IsSorted es
    → OrderedMap.lookup j (remove_each policy es m)
      ≡ (if dropped policy (OrderedMap.lookup j es) then none else OrderedMap.lookup j m)
unfolding OrderedMap.lookup remove_each
lookup-remove_each policy [] m j s = refl
lookup-remove_each policy ((k, t) ∷ es) m j s =
    let kept = if Entry.meets_retaining_policy t policy then m else OrderedMap.remove k m in
    ground
      (arith, lookup-remove_each policy es kept j s.1, lookup-remove k j m, lookup_above j k es)

-- The peerless torrents are removed exactly: a torrent is kept as it was if it meets the retaining
-- policy, and is gone otherwise.
pub get-remove_peerless_torrents :
    (r : CrossbeamSkipList) (policy : TrackerPolicy) (j : ℕ)
    → IsValid r
    → get (remove_peerless_torrents r policy) j
      ≡ keep_if (λ t. Entry.meets_retaining_policy t policy) (get r j)
unfolding get remove_peerless_torrents
get-remove_peerless_torrents r policy j h =
    ground (arith, lookup-remove_each policy r.torrents r.torrents j h.sorted)
