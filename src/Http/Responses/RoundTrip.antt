-- ===== src/Http/Responses/RoundTrip.antt =====
-- What a client reads from the compact answer to an announce.
use torrust_tracker.Prelude.{ℕ, ◌+◌, ◌*◌, ◌<◌, ◌≡◌, refl, List, [], ◌∷◌, map, arith, length, All}
use torrust_tracker.Primitives.Net.{IpAddr, v4, v6}
use torrust_tracker.Primitives.Peer.{Peer}
use torrust_tracker.Primitives.Core.{AnnounceData}
use torrust_tracker.Http.Responses.{CompactPeerData, compact_peer, split, compact_of}
use torrust_tracker.Http.Responses.CompactBytes.{
  values, Fits, decode_peers, decode_peers-encode_peers, length-encode_peers,
}

-- The addresses and ports of the peers of one IP version.
abbrev pub ipv4 : List Peer → List CompactPeerData
ipv4 [] = []
ipv4 (p ∷ ps) =
    let rest = ipv4 ps in
    elim p.peer_addr.ip [ v4 a ↦ record { ip = a; port = p.peer_addr.port } ∷ rest | v6 a ↦ rest ]

abbrev pub ipv6 : List Peer → List CompactPeerData
ipv6 [] = []
ipv6 (p ∷ ps) =
    let rest = ipv6 ps in
    elim p.peer_addr.ip [ v4 a ↦ rest | v6 a ↦ record { ip = a; port = p.peer_addr.port } ∷ rest ]

split-compact_peer : (ps : List Peer) → split (map compact_peer ps) ≡ (ipv4 ps, ipv6 ps)
unfolding compact_peer split
split-compact_peer [] = refl
split-compact_peer (p ∷ ps) = ground (arith, split-compact_peer ps)

-- No peer is lost.
length-ipv4 : (ps : List Peer) → length (ipv4 ps) + length (ipv6 ps) ≡ length ps
length-ipv4 [] = omega arith
length-ipv4 (p ∷ ps) = ground (arith, length-ipv4 ps)

-- A port fits two bytes, and an address 4 or 16.
abbrev pub IsSized : IpAddr → ℕ → Type 0
IsSized (v4 a) port = (a < values 4) × (port < values 2)
IsSized (v6 a) port = (a < values 16) × (port < values 2)

abbrev pub IsAddressed : Peer → Type 0
IsAddressed p = IsSized p.peer_addr.ip p.peer_addr.port

ipv4-Fits : (ps : List Peer) → All IsAddressed ps → All (Fits 4) (ipv4 ps)
ipv4-Fits [] h = tt
ipv4-Fits (p ∷ ps) h = go p.peer_addr.ip h.0 (ipv4-Fits ps h.1)
  where
    go :
        (ip : IpAddr)
        → IsSized ip p.peer_addr.port
        → All (Fits 4) (ipv4 ps)
        → All (Fits 4) (elim ip [
          | v4 a ↦ record { ip = a; port = p.peer_addr.port } ∷ ipv4 ps
          | v6 a ↦ ipv4 ps
        ])
    go (v4 a) sized rest = (sized, rest)
    go (v6 a) sized rest = rest

ipv6-Fits : (ps : List Peer) → All IsAddressed ps → All (Fits 16) (ipv6 ps)
ipv6-Fits [] h = tt
ipv6-Fits (p ∷ ps) h = go p.peer_addr.ip h.0 (ipv6-Fits ps h.1)
  where
    go :
        (ip : IpAddr)
        → IsSized ip p.peer_addr.port
        → All (Fits 16) (ipv6 ps)
        → All (Fits 16) (elim ip [
          | v4 a ↦ ipv6 ps
          | v6 a ↦ record { ip = a; port = p.peer_addr.port } ∷ ipv6 ps
        ])
    go (v4 a) sized rest = rest
    go (v6 a) sized rest = (sized, rest)

-- From a compact answer a client reads the addresses and ports of exactly the peers it is told of:
-- those of IPv4 from 6 bytes each and those of IPv6 from 18 bytes each, in their order, if every
-- address and port fits its type.
pub decode_peers-compact_of :
    (d : AnnounceData)
    → All IsAddressed d.peers
    → (decode_peers 4 (length (ipv4 d.peers)) (compact_of d).peers ≡ ipv4 d.peers)
      × (decode_peers 16 (length (ipv6 d.peers)) (compact_of d).peers6 ≡ ipv6 d.peers)
      × (length (compact_of d).peers ≡ length (ipv4 d.peers) * 6)
      × (length (compact_of d).peers6 ≡ length (ipv6 d.peers) * 18)
      × (length (ipv4 d.peers) + length (ipv6 d.peers) ≡ length d.peers)
unfolding compact_of
decode_peers-compact_of d sized = rw (split-compact_peer d.peers) (
  decode_peers-encode_peers 4 (ipv4 d.peers) (ipv4-Fits d.peers sized),
  decode_peers-encode_peers 16 (ipv6 d.peers) (ipv6-Fits d.peers sized),
  length-encode_peers 4 (ipv4 d.peers),
  length-encode_peers 16 (ipv6 d.peers),
  length-ipv4 d.peers,
)
