-- ===== src/Udp/Handlers/Answers.antt =====
-- What a packet is answered.
use torrust_tracker.Prelude.{
  ℕ, ◌+◌, ◌^◌, ◌≤◌, ◌<◌, true, false, ◌≡◌, Option, none, some, List, [], ◌∷◌, refl, arith, Result,
  ok, err, length, inl, inr, Result-cases,
}
use mathlib.Core.Option
use torrust_tracker.Primitives.Net.{SocketAddr}
use torrust_tracker.Primitives.Peer.{Peer}
use torrust_tracker.Primitives.Core.{AnnounceData}
use torrust_tracker.Configuration.{torrent_peers_limit}
use torrust_tracker.TrackerCore.Announce.{announce, from_i32}
use torrust_tracker.TrackerCore.Announce.Laws.{peers-announce_bounded, limit_from_i32}
use torrust_tracker.TrackerCore.Whitelist.{authorize}
use torrust_tracker.Udp.ConnectionCookie.{F64, make, ordered, is_normal, lt_f64}
use torrust_tracker.Udp.ConnectionCookie.Laws.{check-make}
use torrust_tracker.Udp.Protocol.{
  AnnounceRequest, ResponsePeer, Request, connect_request, announce_request, scrape_request,
  RawRequest, CookieTimeValues, RequestParseError, sendable, unsendable, Response, connect_response,
  announce_ipv4, announce_ipv6, scrape_response, error_response, tracker_error,
}
use torrust_tracker.Udp.Platform.{Platform, Container, core_config}
use torrust_tracker.Udp.Handlers.{
  max_scrape_torrents, from_request, announce_peer, handle_connect, handle_announce, handle_request,
  handle_error, respond, count_error, handle_packet, ipv4_peers, ipv6_peers, announce_response,
}

abbrev pub transaction : Request → ℕ
transaction (connect_request transaction_id) = transaction_id
transaction (announce_request request) = request.transaction_id
transaction (scrape_request connection_id transaction_id info_hashes) = transaction_id

abbrev pub answered_transaction : Response → ℕ
answered_transaction (connect_response transaction_id connection_id) = transaction_id
answered_transaction (announce_ipv4 response) = response.transaction_id
answered_transaction (announce_ipv6 response) = response.transaction_id
answered_transaction (scrape_response transaction_id torrent_stats) = transaction_id
answered_transaction (error_response transaction_id message) = transaction_id

-- The transaction of a packet, where it can be read, or zero.
abbrev pub packet_transaction : Result RequestParseError Request → ℕ
packet_transaction (ok request) = transaction request
packet_transaction (err (sendable connection_id transaction_id text)) = transaction_id
packet_transaction (err (unsendable text)) = 0

announce_response_lem :
    (client : SocketAddr) (transaction_id interval : ℕ) (d : AnnounceData)
    → answered_transaction (announce_response client transaction_id interval d) ≡ transaction_id
unfolding announce_response
announce_response_lem client transaction_id interval d = ground arith

module _ {P : Platform} (c : Container P) (from : SocketAddr) (times : CookieTimeValues) (now : ℕ)
    (normal : is_normal times.issue_time ≡ true)
    (in_order : ordered times.start times.end ≡ true) where
  handle_request_total :
      (request : Request)
      → Option.map answered_transaction
          (respond from times (handle_request c request from times now)).0
        ≡ some (transaction request)
  unfolding handle_request handle_error count_error make
  handle_request_total (connect_request transaction_id) = ground arith
  handle_request_total (announce_request request) = ground (
    arith,
    announce_response_lem from request.transaction_id (core_config c).announce_policy.interval
        (announce c.announce_handler request.info_hash (from_request request from.ip now) from.ip
          (from_i32 request.peers_wanted)).1,
  )
  handle_request_total (scrape_request connection_id transaction_id info_hashes) = ground arith

module _ {P : Platform} (c : Container P) (raw : RawRequest) (times : CookieTimeValues)
    (now : ℕ) where
  -- handle_packet returns a response for every packet that it is called with, whatever its bytes are,
  -- if the time of issue is a normal number and the range of the cookies is in order; and the response
  -- carries the transaction of the packet, or zero where none can be read. Which packets it is called
  -- with, and whether the response is sent, is not part of this.
  pub handle_packet_total :
      is_normal times.issue_time ≡ true
      → ordered times.start times.end ≡ true
      → Option.map answered_transaction (handle_packet c raw times now).0
        ≡ some (packet_transaction (P.parse_bytes raw.payload max_scrape_torrents))
  unfolding handle_packet
  handle_packet_total normal in_order =
      elim (Result-cases (P.parse_bytes raw.payload max_scrape_torrents)) [
        | inl (request, parsed) ↦
            ground (arith, handle_request_total c raw.from times now normal in_order request)
        | inr (e, failed) ↦ ground arith
      ]

module _ {P : Platform} (c d : Container P) (client : SocketAddr) where
  -- If handle_connect gave a client a connection id, then handle_announce under the same cipher, in
  -- whatever state of the tracker it is called, accepts that id in an announce from the same address,
  -- if the range of valid times is in order and contains the time of issue: it returns the response of
  -- the announce service where the torrent is authorized, and that error otherwise.
  pub handle_announce-connect :
      (transaction_id connection_id : ℕ) (issue_time : F64) (request : AnnounceRequest)
      (times : CookieTimeValues) (now : ℕ)
      → issue_time < 2 ^ 64
      → (handle_connect c client transaction_id issue_time).0
        ≡ some (connect_response transaction_id connection_id)
      → request.connection_id ≡ connection_id
      → ordered times.start times.end ≡ true
      → lt_f64 issue_time times.start ≡ false
      → lt_f64 times.end issue_time ≡ false
      → (handle_announce d client request times now).0
        ≡ some (elim (authorize (core_config d) d.whitelist request.info_hash) [
          | ok u ↦ ok (announce_peer d client request now).0
          | err e ↦ err (tracker_error e, request.transaction_id)
        ])
  unfolding handle_connect handle_announce
  handle_announce-connect transaction_id connection_id issue_time request times now bits connected
        same in_order begun still =
      ground (
        arith,
        check-make P.cipher (P.fingerprint client) issue_time (P.fingerprint_bound client) bits
            connection_id times.start times.end,
      )

ipv_peers_lem :
    (peers : List Peer) → length (ipv4_peers peers) + length (ipv6_peers peers) ≡ length peers
unfolding ipv4_peers ipv6_peers
ipv_peers_lem [] = refl
ipv_peers_lem (p ∷ peers) = ground (arith, ipv_peers_lem peers)

abbrev pub listed : Response → List ResponsePeer
listed (connect_response transaction_id connection_id) = []
listed (announce_ipv4 response) = response.peers
listed (announce_ipv6 response) = response.peers
listed (scrape_response transaction_id torrent_stats) = []
listed (error_response transaction_id message) = []

abbrev pub listed_of : Option Response → List ResponsePeer
listed_of none = []
listed_of (some response) = listed response

listed_lem :
    (client : SocketAddr) (transaction_id interval : ℕ) (d : AnnounceData)
    → length (listed (announce_response client transaction_id interval d)) ≤ length d.peers
unfolding announce_response
listed_lem client transaction_id interval d = ground (arith, ipv_peers_lem d.peers)

module _ {P : Platform} (c : Container P) (from : SocketAddr) (times : CookieTimeValues)
    (now : ℕ) where
  announce_peer_bounded :
      (request : AnnounceRequest)
      → length (listed (announce_peer c from request now).0) ≤ torrent_peers_limit
  unfolding announce_peer
  announce_peer_bounded request =
      let peer = from_request request from.ip now in
      let wanted = from_i32 request.peers_wanted in
      let answer = (announce c.announce_handler request.info_hash peer from.ip wanted).1 in
      ground (
        arith,
        listed_lem from request.transaction_id (core_config c).announce_policy.interval answer,
        (peers-announce_bounded c.announce_handler request.info_hash peer from.ip wanted).0,
        limit_from_i32 request.peers_wanted,
      )

  handle_request_bounded :
      (request : Request)
      → length (listed_of (respond from times (handle_request c request from times now)).0)
        ≤ torrent_peers_limit
  unfolding handle_request handle_error count_error
  handle_request_bounded (connect_request transaction_id) = ground arith
  handle_request_bounded (announce_request request) = ground (arith, announce_peer_bounded request)
  handle_request_bounded (scrape_request connection_id transaction_id info_hashes) = ground arith

module _ {P : Platform} (c : Container P) (raw : RawRequest) (times : CookieTimeValues)
    (now : ℕ) where
  -- No packet makes the server list more than 74 peers, whatever number of peers it asks for.
  pub handle_packet_bounded :
      length (listed_of (handle_packet c raw times now).0) ≤ torrent_peers_limit
  unfolding handle_packet
  handle_packet_bounded = elim (Result-cases (P.parse_bytes raw.payload max_scrape_torrents)) [
    | inl (request, parsed) ↦ ground (arith, handle_request_bounded c raw.from times now request)
    | inr (e, failed) ↦ ground arith
  ]
