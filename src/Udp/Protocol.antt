-- ===== src/Udp/Protocol.antt =====
-- The packets of the UDP tracker as src/servers/udp/handlers.rs reads and writes them, and the errors
-- of src/servers/udp/error.rs that it makes. The types of the packets are a crate's: they have here the
-- fields that the handlers use. A connection or transaction id is the number of its bytes.
use torrust_tracker.Prelude.{ℕ, ℤ, List, Text}
use torrust_tracker.Primitives.Net.{SocketAddr}
use torrust_tracker.Primitives.Peer.{AnnounceEvent}
use torrust_tracker.TrackerCore.Whitelist.{WhitelistError}
use torrust_tracker.Udp.ConnectionCookie
use torrust_tracker.Udp.ConnectionCookie.{F64}

pub record AnnounceRequest : Type 0 where
  pub connection_id : ℕ
  pub transaction_id : ℕ
  pub info_hash : ℕ
  pub peer_id : ℕ
  pub bytes_downloaded : ℤ
  pub bytes_left : ℤ
  pub bytes_uploaded : ℤ
  pub event : AnnounceEvent
  pub peers_wanted : ℤ
  pub port : ℕ

pub data Request : Type 0 where
  connect_request : ℕ → Request
  announce_request : AnnounceRequest → Request
  scrape_request : (connection_id transaction_id : ℕ) → List ℕ → Request

pub data RequestParseError : Type 0 where
  sendable : (connection_id transaction_id : ℕ) → Text → RequestParseError
  unsendable : Text → RequestParseError

pub data Error : Type 0 where
  cookie_error : ConnectionCookie.Error → Error
  request_parse_error : RequestParseError → Error
  tracker_error : WhitelistError → Error

-- What an error response says: an error, or the text of a parse error, as they print.
pub data Message : Type 0 where
  of_error : Error → Message
  of_text : Text → Message

pub record ResponsePeer : Type 0 where
  pub ip_address : ℕ
  pub port : ℕ

-- The numbers of an announce response and of a torrent are `i32`.
pub record AnnounceResponse : Type 0 where
  pub transaction_id : ℕ
  pub announce_interval : ℤ
  pub leechers : ℤ
  pub seeders : ℤ
  pub peers : List ResponsePeer

pub record TorrentScrapeStatistics : Type 0 where
  pub seeders : ℤ
  pub completed : ℤ
  pub leechers : ℤ

pub data Response : Type 0 where
  connect_response : (transaction_id connection_id : ℕ) → Response
  announce_ipv4 : AnnounceResponse → Response
  announce_ipv6 : AnnounceResponse → Response
  scrape_response : (transaction_id : ℕ) → List TorrentScrapeStatistics → Response
  error_response : (transaction_id : ℕ) → Message → Response

-- A packet as it was received.
pub record RawRequest : Type 0 where
  pub payload : List ℕ
  pub from : SocketAddr

-- The issue time and the valid range of the cookies.
pub record CookieTimeValues : Type 0 where
  pub issue_time : F64
  pub start : F64
  pub end : F64
