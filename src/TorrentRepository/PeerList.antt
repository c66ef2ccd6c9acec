-- ===== src/TorrentRepository/PeerList.antt =====
-- packages/torrent-repository/src/entry/peer_list.rs: the peers of a swarm by their id.
pub mod Laws
use torrust_tracker.Prelude.{
  ℕ, ◌-◌, Bool, not, Option, none, some, List, [], ltb, take, filter_b, count_b,
}
use torrust_tracker.Prelude as Shared
use torrust_tracker.OrderedMap
use torrust_tracker.OrderedMap.{Map, values}
use torrust_tracker.Primitives.Net.{SocketAddr, socket_addr_eq}
use torrust_tracker.Primitives.Peer.{Peer, is_seeder}

pub record PeerList : Type 0 where
  pub peers : Map Peer

abbrev pub empty : PeerList
empty = record { peers = [] }

unfoldable pub length : PeerList → ℕ
length l = Shared.length l.peers

unfoldable pub is_empty : PeerList → Bool
is_empty l = elim l.peers [ [] ↦ Bool.true | _ ↦ Bool.false ]

-- `BTreeMap::insert` returns the value that it replaces.
unfoldable pub upsert : PeerList → Peer → PeerList × Option Peer
upsert l value = (
  record { peers = OrderedMap.insert value.peer_id value l.peers },
  OrderedMap.lookup value.peer_id l.peers,
)

unfoldable pub remove : PeerList → ℕ → PeerList × Option Peer
remove l key = (record { peers = OrderedMap.remove key l.peers }, OrderedMap.lookup key l.peers)

unfoldable pub remove_inactive_peers : PeerList → ℕ → PeerList
remove_inactive_peers l current_cutoff = record {
  peers = OrderedMap.retain (λ p. ltb current_cutoff p.updated) l.peers;
}

unfoldable pub get : PeerList → ℕ → Option Peer
get l peer_id = OrderedMap.lookup peer_id l.peers

abbrev pub limited : Option ℕ → List Peer → List Peer
limited (some limit) ps = take limit ps
limited none ps = ps

unfoldable pub get_all : PeerList → Option ℕ → List Peer
get_all l limit = limited limit (values l.peers)

-- The subtraction is on `usize`; `seeders_and_leechers_total` shows that it does not underflow.
unfoldable pub seeders_and_leechers : PeerList → ℕ × ℕ
unfolding length
seeders_and_leechers l =
    let seeders = count_b is_seeder (values l.peers) in (seeders, length l - seeders)

unfoldable pub get_peers_excluding_addr : PeerList → SocketAddr → Option ℕ → List Peer
get_peers_excluding_addr l peer_addr limit =
    limited limit (filter_b (λ p. not (socket_addr_eq p.peer_addr peer_addr)) (values l.peers))
