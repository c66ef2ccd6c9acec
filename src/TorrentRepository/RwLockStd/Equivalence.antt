-- ===== src/TorrentRepository/RwLockStd/Equivalence.antt =====
-- The two repositories store the same torrents, whatever operations they go through.
use torrust_tracker.Prelude.{
  ℕ, ◌≡◌, refl, sym, ap, ◌∙◌, List, [], ◌∷◌, arith, inl, inr, Option-cases,
}
use torrust_tracker.OrderedMap
use torrust_tracker.OrderedMap.{Map}
use torrust_tracker.OrderedMap.Order.{retain-IsSorted}
use torrust_tracker.OrderedMap.Laws.{lookup-retain}
use torrust_tracker.OrderedMap.Extensional.{Map-ext}
use torrust_tracker.Configuration.{TrackerPolicy}
use torrust_tracker.TorrentRepository.Entry
use torrust_tracker.TorrentRepository.Entry.{Torrent}
use torrust_tracker.TorrentRepository.Repository
use torrust_tracker.TorrentRepository.Repository.{
  CrossbeamSkipList, value_or, import_one, get_or_insert,
}
use torrust_tracker.TorrentRepository.Repository.Laws.{IsValid, get-remove_peerless_torrents}
use torrust_tracker.TorrentRepository.Repository.Invariant
use torrust_tracker.TorrentRepository.Repository.Invariant.{Operation, apply-IsValid}
use torrust_tracker.TorrentRepository.RwLockStd
use torrust_tracker.TorrentRepository.RwLockStd.{RwLockStd, import_each, contains_key, update_entry}

unfoldable pub apply : RwLockStd → Operation → RwLockStd
apply r (Operation.upsert_peer h p) = RwLockStd.upsert_peer r h p
apply r (Operation.import_persistent ps) = RwLockStd.import_persistent r ps
apply r (Operation.remove k) = (RwLockStd.remove r k).0
apply r (Operation.remove_inactive_peers cutoff) = RwLockStd.remove_inactive_peers r cutoff
apply r (Operation.remove_peerless_torrents policy) = RwLockStd.remove_peerless_torrents r policy

unfoldable pub run : RwLockStd → List Operation → RwLockStd
run r [] = r
run r (o ∷ os) = run (apply r o) os

insert-insert :
    (k : ℕ) (t u : Torrent) (m : Map Torrent)
    → OrderedMap.insert k t (OrderedMap.insert k u m) ≡ OrderedMap.insert k t m
unfolding OrderedMap.insert
insert-insert k t u [] = ground arith
insert-insert k t u ((j, w) ∷ m) = ground (arith, insert-insert k t u m)

update_entry_lem :
    (k : ℕ) (d : Torrent) (f : Torrent → Torrent) (m : Map Torrent)
    → OrderedMap.insert k
        (f (value_or d (OrderedMap.lookup k m)))
        (OrderedMap.insert k (value_or d (OrderedMap.lookup k m)) m)
      ≡ update_entry k d f m
unfolding update_entry
update_entry_lem k d f m = elim (Option-cases (OrderedMap.lookup k m)) [
  | inl e ↦ rw (e, update_entry) (insert-insert k (f d) d m)
  | inr (t, e) ↦ rw (e, update_entry) (insert-insert k (f t) t m)
]

import_each_lem : (m : Map Torrent) (ps : Map ℕ) → Repository.import_each m ps ≡ import_each m ps
unfolding Repository.import_each import_each
import_each_lem m [] = refl
import_each_lem m ((h, c) ∷ ps) = elim (Option-cases (OrderedMap.lookup h m)) [
  | inl e ↦ ground (arith, import_each_lem (import_one m h c) ps)
  | inr (t, e) ↦ ground (arith, import_each_lem m ps)
]

remove_peerless_torrents_lem :
    (r : CrossbeamSkipList) (policy : TrackerPolicy)
    → IsValid r
    → IsValid (Repository.remove_peerless_torrents r policy)
    → (Repository.remove_peerless_torrents r policy).torrents
      ≡ OrderedMap.retain (λ e. Entry.meets_retaining_policy e policy) r.torrents
unfolding Repository.get
remove_peerless_torrents_lem r policy h k =
    Map-ext _ _ k.sorted (retain-IsSorted _ r.torrents h.sorted)
      (λ j. get-remove_peerless_torrents r policy j h ∙ sym (lookup-retain _ j r.torrents h.sorted))

-- The repository behind one lock that holds the same torrents.
abbrev pub behind_lock : CrossbeamSkipList → RwLockStd
behind_lock r = record { torrents = r.torrents }

apply-behind_lock :
    (r : CrossbeamSkipList) (o : Operation)
    → IsValid r
    → apply (behind_lock r) o ≡ behind_lock (Invariant.apply r o)
unfolding apply Invariant.apply Repository.upsert_peer Repository.import_persistent
    Repository.remove Repository.remove_inactive_peers RwLockStd.upsert_peer
    RwLockStd.import_persistent RwLockStd.remove RwLockStd.remove_inactive_peers
    RwLockStd.remove_peerless_torrents
apply-behind_lock r (Operation.upsert_peer h p) v =
    let f : Torrent → Torrent = λ entry. (Entry.upsert_peer entry p).0 in
    ap (λ (m : Map Torrent). record { torrents = m })
      (sym (update_entry_lem h Entry.default f r.torrents))
apply-behind_lock r (Operation.import_persistent ps) v =
    ap (λ (m : Map Torrent). record { torrents = m }) (sym (import_each_lem r.torrents ps))
apply-behind_lock r (Operation.remove k) v = refl
apply-behind_lock r (Operation.remove_inactive_peers cutoff) v = refl
apply-behind_lock r (Operation.remove_peerless_torrents policy) v =
    let w = apply-IsValid r (Operation.remove_peerless_torrents policy) v in
    ap (λ (m : Map Torrent). record { torrents = m })
      (sym (remove_peerless_torrents_lem r policy v w))

-- From the same torrents, any sequence of operations leaves the two repositories with the same
-- torrents.
pub run-behind_lock :
    (r : CrossbeamSkipList) (os : List Operation)
    → IsValid r
    → run (behind_lock r) os ≡ behind_lock (Invariant.run r os)
unfolding run Invariant.run
run-behind_lock r [] v = refl
run-behind_lock r (o ∷ os) v =
    rw apply-behind_lock (run-behind_lock (Invariant.apply r o) os (apply-IsValid r o v))
