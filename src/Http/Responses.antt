-- ===== src/Http/Responses.antt =====
-- packages/http-protocol/src/v1/responses/announce.rs and scrape.rs: the bodies of the answers. The
-- bencoding is a library's, and an interface here; a byte is a number below 256, and a list of bytes
-- that is put into a dictionary is the value of the key that stands beside it.
pub mod CompactBytes
pub mod RoundTrip
use torrust_tracker.Prelude.{
  ℕ, zero, suc, ◌+◌, ◌*◌, ◌/◌, ◌%◌, ◌^◌, List, [], ◌∷◌, ◌++◌, map, Text, codes,
}
use torrust_tracker.Primitives.Net.{IpAddr, v4, v6}
use torrust_tracker.Primitives.Peer.{Peer}
use torrust_tracker.Primitives.Metrics.{SwarmMetadata}
use torrust_tracker.Primitives.Core.{AnnounceData, ScrapeData}
use torrust_tracker.OrderedMap.{Map}

-- The builders `ben_int!`, `ben_bytes!`, `ben_list!` and `ben_map!`, with `encode`. `show_ip` is the
-- text of an address.
pub record Bencode : Type 1 where
  pub Value : Type 0
  pub ben_int : ℕ → Value
  pub ben_bytes : List ℕ → Value
  pub ben_list : List Value → Value
  pub ben_map : List (List ℕ × Value) → Value
  pub encode : Value → List ℕ
  pub show_ip : IpAddr → List ℕ

-- `to_be_bytes` of a number of `n` bytes.
unfoldable pub to_be_bytes : ℕ → ℕ → List ℕ
to_be_bytes zero x = []
to_be_bytes (suc n) x = to_be_bytes n (x / 256) ++ (x % 256) ∷ []

pub record NormalPeer : Type 0 where
  pub peer_id : ℕ
  pub ip : IpAddr
  pub port : ℕ

pub record Normal : Type 0 where
  pub complete : ℕ
  pub incomplete : ℕ
  pub interval : ℕ
  pub min_interval : ℕ
  pub peers : List NormalPeer

unfoldable pub normal_peer : Peer → NormalPeer
normal_peer peer = record {
  peer_id = peer.peer_id;
  ip = peer.peer_addr.ip;
  port = peer.peer_addr.port;
}

-- `From<AnnounceData> for Normal`
unfoldable pub normal_of : AnnounceData → Normal
unfolding normal_peer
normal_of d = record {
  complete = d.stats.complete;
  incomplete = d.stats.incomplete;
  interval = d.policy.interval;
  min_interval = d.policy.interval_min;
  peers = map normal_peer d.peers;
}

pub record CompactPeerData : Type 0 where
  pub ip : ℕ
  pub port : ℕ

pub data CompactPeer : Type 0 where
  v4_peer : CompactPeerData → CompactPeer
  v6_peer : CompactPeerData → CompactPeer

abbrev compact_at : IpAddr → ℕ → CompactPeer
compact_at (v4 ip) port = v4_peer (record { ip = ip; port = port })
compact_at (v6 ip) port = v6_peer (record { ip = ip; port = port })

unfoldable pub compact_peer : Peer → CompactPeer
compact_peer peer = compact_at peer.peer_addr.ip peer.peer_addr.port

-- `FromIterator<CompactPeer>` for the pair of lists: each keeps the order of the peers.
unfoldable pub split : List CompactPeer → List CompactPeerData × List CompactPeerData
split [] = ([], [])
split (v4_peer peer ∷ rest) = let (peers_v4, peers_v6) = split rest in (peer ∷ peers_v4, peers_v6)
split (v6_peer peer ∷ rest) = let (peers_v4, peers_v6) = split rest in (peers_v4, peer ∷ peers_v6)

-- `FromIterator` for the encoded peers, with the number of bytes of an address: 4, or 16.
unfoldable pub encode_peers : ℕ → List CompactPeerData → List ℕ
unfolding to_be_bytes
encode_peers width [] = []
encode_peers width (peer ∷ rest) =
    to_be_bytes width peer.ip ++ (to_be_bytes 2 peer.port ++ encode_peers width rest)

pub record Compact : Type 0 where
  pub complete : ℕ
  pub incomplete : ℕ
  pub interval : ℕ
  pub min_interval : ℕ
  pub peers : List ℕ
  pub peers6 : List ℕ

-- `From<AnnounceData> for Compact`
unfoldable pub compact_of : AnnounceData → Compact
unfolding compact_peer split encode_peers
compact_of d =
    let (peers, peers6) = split (map compact_peer d.peers) in
    record {
      complete = d.stats.complete;
      incomplete = d.stats.incomplete;
      interval = d.policy.interval;
      min_interval = d.policy.interval_min;
      peers = encode_peers 4 peers;
      peers6 = encode_peers 16 peers6;
    }

module _ (B : Bencode) where
  unfoldable pub ben_peer : NormalPeer → B.Value
  ben_peer peer = B.ben_map (
      (codes "peer id", B.ben_bytes (to_be_bytes 20 peer.peer_id))
      ∷ (codes "ip", B.ben_bytes (B.show_ip peer.ip))
      ∷ (codes "port", B.ben_int peer.port)
      ∷ [])

  -- `Into<Vec<u8>>` for the two forms.
  unfoldable pub write_normal : Normal → List ℕ
  unfolding ben_peer
  write_normal r = B.encode (
      B.ben_map (
        (codes "complete", B.ben_int r.complete)
        ∷ (codes "incomplete", B.ben_int r.incomplete)
        ∷ (codes "interval", B.ben_int r.interval)
        ∷ (codes "min interval", B.ben_int r.min_interval)
        ∷ (codes "peers", B.ben_list (map ben_peer r.peers))
        ∷ []))

  unfoldable pub write_compact : Compact → List ℕ
  write_compact r = B.encode (
      B.ben_map (
        (codes "complete", B.ben_int r.complete)
        ∷ (codes "incomplete", B.ben_int r.incomplete)
        ∷ (codes "interval", B.ben_int r.interval)
        ∷ (codes "min interval", B.ben_int r.min_interval)
        ∷ (codes "peers", B.ben_bytes r.peers)
        ∷ (codes "peers6", B.ben_bytes r.peers6)
        ∷ []))
