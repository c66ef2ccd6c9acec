-- ===== src/TorrentRepository/PeerList/Laws.antt =====
-- The swarm as a set of peers: its invariant, what is stored after each operation, the counts and
-- the lists that are handed out.
use torrust_tracker.Prelude.{
  ℕ, ◌+◌, ◌≤◌, false, not, ◌≡◌, refl, none, some, List, [], ◌∷◌, arith, ltb, ◌==◌, if◌then◌else◌,
  length, filter_b, count_b, All, All-take, length-take, count_b-not,
}
use torrust_tracker.OrderedMap.{Map, values}
use torrust_tracker.OrderedMap.Order.{IsSorted, insert-IsSorted, remove-IsSorted, retain-IsSorted}
use torrust_tracker.OrderedMap.Laws.{
  keep_if, lookup-insert, lookup-remove, lookup-retain, All-insert, All-remove, All-retain,
}
use torrust_tracker.Primitives.Net.{SocketAddr, socket_addr_eq}
use torrust_tracker.Primitives.Peer.{Peer, is_seeder, event_eq, stopped}
use torrust_tracker.TorrentRepository.PeerList
use torrust_tracker.TorrentRepository.PeerList.{
  PeerList, upsert, remove, remove_inactive_peers, get, seeders_and_leechers,
  get_peers_excluding_addr,
}

-- An entry stands under its own peer id, and no stored peer has stopped.
abbrev pub EntryIsValid : ℕ × Peer → Type 0
EntryIsValid e = (e.0 ≡ e.1.peer_id) × (event_eq e.1.event stopped ≡ false)

pub record IsValid (l : PeerList) : Type 0 where
  pub sorted : IsSorted l.peers
  pub entries : All EntryIsValid l.peers

pub upsert-IsValid :
    (l : PeerList) (p : Peer)
    → event_eq p.event stopped ≡ false
    → IsValid l
    → IsValid (upsert l p).0
unfolding upsert
upsert-IsValid l p e h = record {
  sorted = insert-IsSorted p.peer_id p l.peers h.sorted;
  entries = All-insert EntryIsValid p.peer_id p l.peers (refl, e) h.entries;
}

pub remove-IsValid : (l : PeerList) (k : ℕ) → IsValid l → IsValid (remove l k).0
unfolding remove
remove-IsValid l k h = record {
  sorted = remove-IsSorted k l.peers h.sorted;
  entries = All-remove EntryIsValid k l.peers h.entries;
}

pub remove_inactive_peers-IsValid :
    (l : PeerList) (cutoff : ℕ) → IsValid l → IsValid (remove_inactive_peers l cutoff)
unfolding remove_inactive_peers
remove_inactive_peers-IsValid l cutoff h = record {
  sorted = retain-IsSorted _ l.peers h.sorted;
  entries = All-retain EntryIsValid _ l.peers h.entries;
}

pub get-upsert :
    (l : PeerList) (p : Peer) (j : ℕ)
    → get (upsert l p).0 j ≡ (if j == p.peer_id then some p else get l j)
unfolding get upsert
get-upsert l p j = lookup-insert p.peer_id j p l.peers

pub get-remove :
    (l : PeerList) (k j : ℕ) → get (remove l k).0 j ≡ (if j == k then none else get l j)
unfolding get remove
get-remove l k j = lookup-remove k j l.peers

pub get-remove_inactive_peers :
    (l : PeerList) (cutoff j : ℕ)
    → IsValid l
    → get (remove_inactive_peers l cutoff) j ≡ keep_if (λ p. ltb cutoff p.updated) (get l j)
unfolding get remove_inactive_peers
get-remove_inactive_peers l cutoff j h = lookup-retain _ j l.peers h.sorted

pub length-values {ℓ} : {V : Type ℓ} (m : Map V) → length (values m) ≡ length m
length-values [] = refl
length-values (e ∷ m) = omega (arith, length-values m)

-- The subtraction of `seeders_and_leechers` does not underflow: the leechers are exactly the peers
-- that are no seeders, and both together are all peers.
pub seeders_and_leechers_total :
    (l : PeerList)
    → ((seeders_and_leechers l).1 ≡ count_b (λ p. not (is_seeder p)) (values l.peers))
      × ((seeders_and_leechers l).0 + (seeders_and_leechers l).1 ≡ PeerList.length l)
unfolding seeders_and_leechers PeerList.length
seeders_and_leechers_total l =
    let total = count_b-not is_seeder (values l.peers) in
    let all = length-values l.peers in (omega arith, omega arith)

-- The list for a client: within the limit, and without any peer at the client's address.
pub get_peers_excluding_addr_lem :
    (l : PeerList) (a : SocketAddr) (limit : ℕ)
    → (length (get_peers_excluding_addr l a (some limit)) ≤ limit)
      × All (λ p. socket_addr_eq p.peer_addr a ≡ false) (get_peers_excluding_addr l a (some limit))
unfolding get_peers_excluding_addr
get_peers_excluding_addr_lem l a limit =
    let others = filter_b (λ p. not (socket_addr_eq p.peer_addr a)) (values l.peers) in
    (omega (arith, length-take limit others), All-take _ limit others (All-other (values l.peers)))
  where
    All-other :
        (ps : List Peer)
        → All
            (λ p. socket_addr_eq p.peer_addr a ≡ false)
            (filter_b (λ p. not (socket_addr_eq p.peer_addr a)) ps)
    All-other [] = tt
    All-other (p ∷ ps) = ground (arith, All-other ps)
