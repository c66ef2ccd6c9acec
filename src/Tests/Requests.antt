-- ===== src/Tests/Requests.antt =====
-- Examples of the theorems on the requests of the HTTP tracker, and on both servers.
use torrust_tracker.Prelude.{
  ◌+◌, ◌≡◌, true, ◌&&◌, refl, none, some, List, [], ◌∷◌, arith, length, pos, codes,
}
use torrust_tracker.OrderedMap
use torrust_tracker.Primitives.Net.{v4, v6}
use torrust_tracker.Primitives.Peer as Peer
use torrust_tracker.Primitives.Peer.{Peer}
use torrust_tracker.Primitives.Metrics as Metrics
use torrust_tracker.Primitives.Core.{AnnounceData, zeroed}
use torrust_tracker.TorrentRepository.Repository as Repository
use torrust_tracker.TrackerCore.Whitelist.{authorize}
use torrust_tracker.Udp.Protocol.{AnnounceRequest}
use torrust_tracker.Udp.Platform as Udp
use torrust_tracker.Udp.Handlers.{from_request, announce_response, announce_peer}
use torrust_tracker.Http.Query.{NameValuePair}
use torrust_tracker.Http.AnnounceRequest.{Announce}
use torrust_tracker.Http.PeerIpResolver.{ClientIpSources, invoke}
use torrust_tracker.Http.Handlers.{
  Container, core_config, peer_from_request, peers_wanted, announce_service, handle_announce,
  handle_scrape,
}
use torrust_tracker.Http.Handlers.Laws.{
  is_ok, knows, torrents_from, handle_announce-torrents, lookup-handle_scrape,
}
use torrust_tracker.Http.Responses.{compact_of}
use torrust_tracker.Http.Responses.CompactBytes.{decode_peers}
use torrust_tracker.Http.Responses.RoundTrip.{ipv4, ipv6, decode_peers-compact_of}
use torrust_tracker.Servers.{announce_peer-announce_service}
use torrust_tracker.Tests.Samples.{core, peer, address}
use torrust_tracker.Tests.Stores.{torrent_table}
use torrust_tracker.Tests.Packets as Packets

-- A private tracker with a whitelist, and no keys.
abbrev container : Container torrent_table
container = record {
  announce_handler = record {
    config = core;
    torrents = record { torrents = Repository.empty };
    db = [];
  };
  whitelist = record { whitelist = (7, tt) ∷ [] };
  keys = record { keys = [] };
  sends_events = true;
  events = [];
}

abbrev request : Announce
request = record {
  info_hash = 7;
  peer_id = 1;
  port = 6881;
  downloaded = none;
  uploaded = none;
  left = some 5;
  event = none;
  compact = none;
  numwant = some 3;
}

abbrev sources : ClientIpSources
sources = record { right_most_x_forwarded_for = none; connection_info_ip = some (v4 2130706433) }

handle_announce-torrents_example :
    (is_ok (handle_announce container request sources none 9).0 ≡ (
      knows container 9 none
      && (is_ok (authorize (core_config container) container.whitelist request.info_hash)
          && is_ok (invoke (core_config container).net.on_reverse_proxy sources))))
    × ((handle_announce container request sources none 9).1.announce_handler.torrents
        ≡ torrents_from container request sources none 9
            (invoke (core_config container).net.on_reverse_proxy sources))
handle_announce-torrents_example = handle_announce-torrents container request sources none 9

lookup-handle_scrape_example : OrderedMap.lookup 7 (zeroed (7 ∷ 8 ∷ [])).files ≡ some Metrics.zeroed
unfolding handle_scrape
lookup-handle_scrape_example =
    lookup-handle_scrape container (7 ∷ 8 ∷ []) sources 9 none (zeroed (7 ∷ 8 ∷ [])) 7 refl

abbrev data_of : AnnounceData
data_of = record {
  peers =
      peer 1 5 Peer.started 10
      ∷ record (peer 2 5 Peer.started 10) { peer_addr = record { ip = v6 1; port = 80 } }
      ∷ [];
  stats = Metrics.zeroed;
  policy = record { interval = 120; interval_min = 120 };
}

decode_peers-compact_of_example :
    (decode_peers 4 1 (compact_of data_of).peers ≡ ipv4 data_of.peers)
    × (decode_peers 16 1 (compact_of data_of).peers6 ≡ ipv6 data_of.peers)
    × (length (compact_of data_of).peers ≡ 6)
    × (length (compact_of data_of).peers6 ≡ 18)
    × (length (ipv4 data_of.peers) + length (ipv6 data_of.peers) ≡ length data_of.peers)
decode_peers-compact_of_example =
    decode_peers-compact_of data_of ((omega arith, omega arith), ((omega arith, omega arith), tt))

abbrev params : List NameValuePair
params =
    record { name = codes "info_hash"; value = codes "aaaaaaaaaaaaaaaaaaaa" }
    ∷ record { name = codes "info_hash"; value = codes "bbbbbbbbbbbbbbbbbbbb" }
    ∷ []

abbrev over_udp : AnnounceRequest
over_udp = record {
  connection_id = 0;
  transaction_id = 42;
  info_hash = 7;
  peer_id = 1;
  bytes_downloaded = pos 0;
  bytes_left = pos 5;
  bytes_uploaded = pos 0;
  event = Peer.none;
  peers_wanted = pos 10;
  port = 6881;
}

-- The same public tracker over HTTP.
abbrev over_http : Container torrent_table
over_http = record container { announce_handler = Packets.container.announce_handler }

announce_peer-announce_service_example :
    ((announce_peer Packets.container (address 1) over_udp 9).1.announce_handler
      ≡ (announce_service over_http 7
          (peer_from_request request (address 1).ip 9)
          (peers_wanted (some 3))).1.announce_handler)
    × ((announce_peer Packets.container (address 1) over_udp 9).0
        ≡ announce_response
            (address 1)
            42
            (Udp.core_config Packets.container).announce_policy.interval
            (announce_service over_http 7
              (peer_from_request request (address 1).ip 9)
              (peers_wanted (some 3))).0)
unfolding from_request peer_from_request
announce_peer-announce_service_example =
    announce_peer-announce_service Packets.container over_http (address 1) over_udp request 9 refl
      refl refl
