-- ===== src/Servers.antt =====
-- The two servers over the same core: src/servers/udp/handlers.rs and src/servers/http/v1.
use torrust_tracker.Prelude.{ℕ, ◌≡◌, ◌∙◌, refl, sym, ap, arith, Option, none, some, pos, ℤ}
use torrust_tracker.Primitives.Net.{IpAddr, SocketAddr}
use torrust_tracker.Primitives.Peer.{Peer}
use torrust_tracker.TrackerCore.Announce.{
  TorrentStore, AnnounceHandler, as_many_as_possible, from_i32, announce,
}
use torrust_tracker.TrackerCore.Announce.Laws.{announce-ignores_peers_wanted}
use torrust_tracker.Udp.Protocol.{AnnounceRequest}
use torrust_tracker.Udp.Platform as Udp
use torrust_tracker.Udp.Platform.{Platform}
use torrust_tracker.Udp.Handlers.{from_request, announce_response, announce_peer}
use torrust_tracker.Http.AnnounceRequest.{Announce}
use torrust_tracker.Http.Handlers as Http
use torrust_tracker.Http.Handlers.{peer_from_request, peers_wanted, announce_service}

module _ {D : TorrentStore} (s : AnnounceHandler D) (h : ℕ) (p : Peer) (ip : IpAddr) where
  -- However many peers are asked for over HTTP or over UDP, the announce is that of a client that
  -- asks for as many as possible.
  http-wanted :
      (n : Option ℕ) → announce s h p ip (peers_wanted n) ≡ announce s h p ip as_many_as_possible
  unfolding announce peers_wanted
  http-wanted none = refl
  http-wanted (some n) = λ i. (
    (announce s h p ip as_many_as_possible).0,
    (announce-ignores_peers_wanted s h p ip n (pos 0)).0 i,
  )

  udp-wanted : (n : ℤ) → announce s h p ip (from_i32 n) ≡ announce s h p ip as_many_as_possible
  unfolding announce
  udp-wanted n = λ i.
      ((announce s h p ip as_many_as_possible).0, (announce-ignores_peers_wanted s h p ip 0 n).1 i)

announce_peer_lem :
    {P : Platform} (c : Udp.Container P) (client : SocketAddr) (request : AnnounceRequest) (now : ℕ)
    → let peer = from_request request client.ip now in
      let announced =
        announce c.announce_handler request.info_hash peer client.ip as_many_as_possible in
      ((announce_peer c client request now).1.announce_handler ≡ announced.0)
      × ((announce_peer c client request now).0
          ≡ announce_response client request.transaction_id
              (Udp.core_config c).announce_policy.interval
              announced.1)
unfolding announce_peer
announce_peer_lem c client request now =
    let same =
      udp-wanted c.announce_handler request.info_hash (from_request request client.ip now) client.ip
        request.peers_wanted in
    (ground (arith, same), ground (arith, same))

announce_service_lem :
    {D : TorrentStore} (d : Http.Container D) (h : ℕ) (peer : Peer) (n : Option ℕ)
    → let announced = announce d.announce_handler h peer peer.peer_addr.ip as_many_as_possible in
      ((announce_service d h peer (peers_wanted n)).1.announce_handler ≡ announced.0)
      × ((announce_service d h peer (peers_wanted n)).0 ≡ announced.1)
unfolding announce_service
announce_service_lem d h peer n =
    let same = http-wanted d.announce_handler h peer peer.peer_addr.ip n in
    (ground (arith, same), ground (arith, same))

module _ {P : Platform} (c : Udp.Container P) (d : Http.Container P.store) (client : SocketAddr)
    (over_udp : AnnounceRequest) (over_http : Announce) (now : ℕ) where
  -- An announce of the same peer for the same torrent leaves the same torrents and the same
  -- database whether it comes over UDP or over HTTP, and both clients are answered from the same
  -- data, whatever number of peers either asks for.
  pub announce_peer-announce_service :
      d.announce_handler ≡ c.announce_handler
      → over_http.info_hash ≡ over_udp.info_hash
      → peer_from_request over_http client.ip now ≡ from_request over_udp client.ip now
      → ((announce_peer c client over_udp now).1.announce_handler
          ≡ (announce_service d over_http.info_hash
              (peer_from_request over_http client.ip now)
              (peers_wanted over_http.numwant)).1.announce_handler)
        × ((announce_peer c client over_udp now).0
            ≡ announce_response client over_udp.transaction_id
                (Udp.core_config c).announce_policy.interval
                (announce_service d over_http.info_hash
                  (peer_from_request over_http client.ip now)
                  (peers_wanted over_http.numwant)).0)
  unfolding from_request
  announce_peer-announce_service same_core same_torrent same_peer =
      let udp = announce_peer_lem c client over_udp now in
      let http =
        announce_service_lem d over_http.info_hash (peer_from_request over_http client.ip now)
          over_http.numwant in
      let same : announce d.announce_handler over_http.info_hash
            (peer_from_request over_http client.ip now)
            (peer_from_request over_http client.ip now).peer_addr.ip as_many_as_possible
          ≡ announce c.announce_handler over_udp.info_hash (from_request over_udp client.ip now)
              client.ip as_many_as_possible =
        λ i.
          announce (same_core i) (same_torrent i) (same_peer i) (same_peer i).peer_addr.ip
            as_many_as_possible in
      (
        udp.0 ∙ sym (http.0 ∙ ap (λ a. a.0) same),
        udp.1
            ∙ ap
                (announce_response client over_udp.transaction_id
                  (Udp.core_config c).announce_policy.interval)
                (sym (http.1 ∙ ap (λ a. a.1) same)),
      )
