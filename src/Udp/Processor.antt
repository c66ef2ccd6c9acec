-- ===== src/Udp/Processor.antt =====
-- src/servers/udp/server/processor.rs: the task of one request, with `CookieTimeValues::new` of
-- src/servers/udp/handlers.rs. The arithmetic of `f64`, on bit patterns, is the machine's.
use torrust_tracker.Prelude.{ℕ, Bool, Option, none, some, List, if◌then◌else◌}
use torrust_tracker.Primitives.Net.{SocketAddr}
use torrust_tracker.Udp.ConnectionCookie.{F64}
use torrust_tracker.Udp.Statistics.{
  UdpResponseKind, connect, announce, scrape, error, udp4_response, udp6_response,
}
use torrust_tracker.Udp.Protocol.{
  Response, connect_response, announce_ipv4, announce_ipv6, scrape_response, error_response,
  RawRequest, CookieTimeValues,
}
use torrust_tracker.Udp.Platform.{Platform, Container, send_event, by_version}
use torrust_tracker.Udp.Handlers.{handle_packet}

pub record Floats : Type 0 where
  pub as_secs_f64 : ℕ → F64
  pub add : F64 → F64 → F64
  pub sub : F64 → F64 → F64

-- The bit pattern of 1.0.
abbrev one : F64
one = 4607182418800017408

-- `CookieTimeValues::new`
unfoldable pub new_times : Floats → F64 → ℕ → CookieTimeValues
new_times R cookie_lifetime now =
    let issue_time = R.as_secs_f64 now in
    record {
      issue_time = issue_time;
      start = R.sub (R.sub issue_time cookie_lifetime) one;
      end = R.add issue_time one;
    }

unfoldable pub udp_response_kind : Response → UdpResponseKind
udp_response_kind (connect_response transaction_id connection_id) = connect
udp_response_kind (announce_ipv4 response) = announce
udp_response_kind (announce_ipv6 response) = announce
udp_response_kind (scrape_response transaction_id torrent_stats) = scrape
udp_response_kind (error_response transaction_id message) = error

-- What the clock shows when the cookie times and the time of a peer are read, the time that the
-- handling takes, and whether the socket takes the answer.
pub record Circumstances : Type 0 where
  pub started : ℕ
  pub announced : ℕ
  pub elapsed : ℕ
  pub socket_sends : Bool

abbrev pub Packet : Type 0
Packet = SocketAddr × List ℕ

module _ {P : Platform} where
  -- The container and the packet that is sent, if any.
  unfoldable pub send_response :
      Container P → SocketAddr → Response → Circumstances → Container P × Option Packet
  unfolding send_event udp_response_kind
  send_response c target response w = elim (P.write_bytes response) [
    | none ↦ (c, none)
    | some payload ↦
        let kind = udp_response_kind response in
        if w.socket_sends
        then (
          send_event c
              (by_version target.ip (udp4_response kind w.elapsed) (udp6_response kind w.elapsed)),
          some (target, payload),
        )
        else (c, none)
  ]

  abbrev pub respond_to :
      SocketAddr → Circumstances → Option Response × Container P → Container P × Option Packet
  respond_to from w (none, c) = (c, none)
  respond_to from w (some response, c) = send_response c from response w

  -- Where the handling panics the task ends without an answer.
  unfoldable pub process_request :
      Floats → F64 → Container P → RawRequest → Circumstances → Container P × Option Packet
  unfolding handle_packet send_response
  process_request R cookie_lifetime c request w =
      respond_to request.from w
        (handle_packet c request (new_times R cookie_lifetime w.started) w.announced)
