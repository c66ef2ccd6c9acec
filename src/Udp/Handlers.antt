-- ===== src/Udp/Handlers.antt =====
-- src/servers/udp/handlers.rs, with peer_builder.rs: what the UDP server does with a packet. Where a
-- handler panics its result is `none`. The cookie times and the time of a peer are arguments, which
-- the code reads from the clock.
pub mod Effects
pub mod Answers
pub mod ScrapeOrder
use torrust_tracker.Prelude.{
  ℕ, ◌-◌, ◌%◌, ◌^◌, Text, Option, none, some, List, [], ◌∷◌, map, ℤ, pos, negsuc, if◌then◌else◌,
  ltb, Result, ok, err,
}
use mathlib.Core.Option
use torrust_tracker.Primitives.Net.{IpAddr, SocketAddr, v4, v6}
use torrust_tracker.Primitives.Peer.{Peer}
use torrust_tracker.Primitives.Metrics.{SwarmMetadata}
use torrust_tracker.Primitives.Core.{AnnounceData}
use torrust_tracker.TrackerCore.Announce.{PeersWanted, from_i32, announce}
use torrust_tracker.TrackerCore.Scrape.{scrape}
use torrust_tracker.TrackerCore.Whitelist.{authorize}
use torrust_tracker.Udp.Banning.{increase_counter}
use torrust_tracker.Udp.ConnectionCookie.{F64, Checked, returned, panicked, make, check}
use torrust_tracker.Udp.Statistics.{
  udp4_connect, udp6_connect, udp4_announce, udp6_announce, udp4_scrape, udp6_scrape, udp4_error,
  udp6_error,
}
use torrust_tracker.Udp.Protocol.{
  AnnounceRequest, Request, connect_request, announce_request, scrape_request, RequestParseError,
  sendable, unsendable, Error, cookie_error, request_parse_error, tracker_error, Message, of_error,
  of_text, ResponsePeer, AnnounceResponse, TorrentScrapeStatistics, Response, connect_response,
  announce_ipv4, announce_ipv6, scrape_response, error_response, RawRequest, CookieTimeValues,
}
use torrust_tracker.Udp.Platform.{
  Platform, Container, core_config, scrape_handler, send_event, by_version,
}

-- `MAX_SCRAPE_TORRENTS`
abbrev pub max_scrape_torrents : ℕ
max_scrape_torrents = 74

-- `i64::from(n) as i32`, of a `u32`.
unfoldable pub as_i32 : ℕ → ℤ
as_i32 n =
    let word = n % 2 ^ 32 in if ltb word (2 ^ 31) then pos word else negsuc (2 ^ 32 - 1 - word)

-- `peer_builder::from_request`
unfoldable pub from_request : AnnounceRequest → IpAddr → ℕ → Peer
from_request request peer_ip now = record {
  peer_id = request.peer_id;
  peer_addr = record { ip = peer_ip; port = request.port };
  updated = now;
  uploaded = request.bytes_uploaded;
  downloaded = request.bytes_downloaded;
  left = request.bytes_left;
  event = request.event;
}

-- The peers of IPv4, and those of IPv6.
unfoldable pub ipv4_peers : List Peer → List ResponsePeer
ipv4_peers [] = []
ipv4_peers (peer ∷ peers) =
    let rest = ipv4_peers peers in
    elim peer.peer_addr.ip [
      | v4 ip ↦ record { ip_address = ip; port = peer.peer_addr.port } ∷ rest
      | v6 ip ↦ rest
    ]

unfoldable pub ipv6_peers : List Peer → List ResponsePeer
ipv6_peers [] = []
ipv6_peers (peer ∷ peers) =
    let rest = ipv6_peers peers in
    elim peer.peer_addr.ip [
      | v4 ip ↦ rest
      | v6 ip ↦ record { ip_address = ip; port = peer.peer_addr.port } ∷ rest
    ]

-- The response to an announce, `interval` being that of the configuration.
unfoldable pub announce_response : SocketAddr → ℕ → ℕ → AnnounceData → Response
unfolding as_i32 ipv4_peers ipv6_peers
announce_response remote_addr transaction_id interval response =
    let with_peers : List ResponsePeer → AnnounceResponse = λ peers. record {
      transaction_id = transaction_id;
      announce_interval = as_i32 interval;
      leechers = as_i32 response.stats.incomplete;
      seeders = as_i32 response.stats.complete;
      peers = peers;
    } in
    by_version remote_addr.ip (announce_ipv4 (with_peers (ipv4_peers response.peers)))
      (announce_ipv6 (with_peers (ipv6_peers response.peers)))

unfoldable pub scrape_entry : ℕ × SwarmMetadata → TorrentScrapeStatistics
unfolding as_i32
scrape_entry file = record {
  seeders = as_i32 file.1.complete;
  completed = as_i32 file.1.downloaded;
  leechers = as_i32 file.1.incomplete;
}

-- What a handler answers: a response, or an error and the transaction it belongs to.
abbrev pub Answer : Type 0
Answer = Option (Result (Error × ℕ) Response)

-- What is answered to a parse error, after the check of its cookie.
abbrev checked_message : Checked → Text → Option Message
checked_message panicked text = none
checked_message (returned (err e)) text = some (of_error (cookie_error e))
checked_message (returned (ok t)) text = some (of_text text)

-- The message of an error response and its transaction, the variable `e` of the code.
unfoldable pub error_message :
    Platform → SocketAddr → CookieTimeValues → Error → Option ℕ → Option (Message × Option ℕ)
unfolding check
error_message P remote_addr times (request_parse_error (sendable connection_id transaction_id text))
      opened =
    Option.map (λ message. (message, some transaction_id))
      (checked_message
        (check P.cipher connection_id (P.fingerprint remote_addr) times.start times.end) text)
error_message P remote_addr times (request_parse_error (unsendable text)) transaction_id =
    some (of_text text, transaction_id)
error_message P remote_addr times (cookie_error e) transaction_id =
    some (of_error (cookie_error e), transaction_id)
error_message P remote_addr times (tracker_error e) transaction_id =
    some (of_error (tracker_error e), transaction_id)

module _ {P : Platform} where
  unfoldable pub handle_connect : Container P → SocketAddr → ℕ → F64 → Option Response × Container P
  unfolding send_event
  handle_connect c remote_addr transaction_id cookie_issue_time =
      elim (make P.cipher (P.fingerprint remote_addr) cookie_issue_time) [
        | err e ↦ (none, c)
        | ok connection_id ↦ (
          some (connect_response transaction_id connection_id),
          send_event c (by_version remote_addr.ip udp4_connect udp6_connect),
        )
      ]

  -- `handle_announce` from the building of the peer on.
  unfoldable pub announce_peer :
      Container P → SocketAddr → AnnounceRequest → ℕ → Response × Container P
  unfolding from_request from_i32 announce announce_response send_event
  announce_peer c remote_addr request now =
      let peer = from_request request remote_addr.ip now in
      let peers_wanted = from_i32 request.peers_wanted in
      let (handler, response) =
        announce c.announce_handler request.info_hash peer remote_addr.ip peers_wanted in
      (
        announce_response remote_addr request.transaction_id
            (core_config c).announce_policy.interval response,
        send_event (record c { announce_handler = handler })
            (by_version remote_addr.ip udp4_announce udp6_announce),
      )

  unfoldable pub handle_announce :
      Container P → SocketAddr → AnnounceRequest → CookieTimeValues → ℕ → Answer × Container P
  unfolding check authorize announce_peer
  handle_announce c remote_addr request times now =
      elim (check P.cipher request.connection_id (P.fingerprint remote_addr) times.start
        times.end) [
          | panicked ↦ (none, c)
          | returned (err e) ↦ (some (err (cookie_error e, request.transaction_id)), c)
          | returned (ok t) ↦ elim (authorize (core_config c) c.whitelist request.info_hash) [
            | err e ↦ (some (err (tracker_error e, request.transaction_id)), c)
            | ok u ↦
                let (response, c') = announce_peer c remote_addr request now in
                (some (ok response), c')
          ]
        ]

  unfoldable pub handle_scrape :
      Container P → SocketAddr → ℕ → ℕ → List ℕ → CookieTimeValues → Answer × Container P
  unfolding check scrape scrape_handler scrape_entry send_event
  handle_scrape c remote_addr connection_id transaction_id info_hashes times =
      elim (check P.cipher connection_id (P.fingerprint remote_addr) times.start times.end) [
        | panicked ↦ (none, c)
        | returned (err e) ↦ (some (err (cookie_error e, transaction_id)), c)
        | returned (ok t) ↦
            let scrape_data = scrape (scrape_handler c) info_hashes in
            (
              some (
                  ok (
                    scrape_response transaction_id
                      (map scrape_entry (P.iterate scrape_data.files)))),
              send_event c (by_version remote_addr.ip udp4_scrape udp6_scrape),
            )
      ]

  abbrev answered : Option Response × Container P → Answer × Container P
  answered (none, c) = (none, c)
  answered (some response, c) = (some (ok response), c)

  unfoldable pub handle_request :
      Container P → Request → SocketAddr → CookieTimeValues → ℕ → Answer × Container P
  unfolding handle_connect handle_announce handle_scrape
  handle_request c (connect_request transaction_id) remote_addr times now =
      answered (handle_connect c remote_addr transaction_id times.issue_time)
  handle_request c (announce_request request) remote_addr times now =
      handle_announce c remote_addr request times now
  handle_request c (scrape_request connection_id transaction_id info_hashes) remote_addr times now =
      handle_scrape c remote_addr connection_id transaction_id info_hashes times

  abbrev respond_error :
      Container P → SocketAddr → Option (Message × Option ℕ) → Option Response × Container P
  respond_error c remote_addr none = (none, c)
  respond_error c remote_addr (some (message, none)) = (some (error_response 0 message), c)
  respond_error c remote_addr (some (message, some transaction_id)) = (
    some (error_response transaction_id message),
    send_event c (by_version remote_addr.ip udp4_error udp6_error),
  )

  unfoldable pub handle_error :
      Container P → SocketAddr → CookieTimeValues → Error → Option ℕ → Option Response × Container P
  unfolding error_message send_event
  handle_error c remote_addr times e transaction_id =
      respond_error c remote_addr (error_message P remote_addr times e transaction_id)

  -- The match on the error of a request.
  unfoldable pub count_error : Container P → SocketAddr → Error → Container P
  unfolding increase_counter
  count_error c from (cookie_error e) = record c {
    ban_service = increase_counter P.filter c.ban_service from.ip;
  }
  count_error c from (request_parse_error e) = c
  count_error c from (tracker_error e) = c

  abbrev pub respond :
      SocketAddr → CookieTimeValues → Answer × Container P → Option Response × Container P
  respond from times (none, c) = (none, c)
  respond from times (some (ok response), c) = (some response, c)
  respond from times (some (err (e, transaction_id)), c) =
      handle_error (count_error c from e) from times e (some transaction_id)

  unfoldable pub handle_packet :
      Container P → RawRequest → CookieTimeValues → ℕ → Option Response × Container P
  unfolding handle_request handle_error count_error
  handle_packet c udp_request times now =
      elim (P.parse_bytes udp_request.payload max_scrape_torrents) [
        | err e ↦ handle_error c udp_request.from times (request_parse_error e) none
        | ok request ↦
            respond udp_request.from times (handle_request c request udp_request.from times now)
      ]
