-- ===== src/Udp/Launcher.antt =====
-- src/servers/udp/server/launcher.rs: the main loop of the UDP server, the tasks that it spawns and
-- the task that resets the bans, as steps on a common state. A task runs between two steps of the loop
-- and to its end, unless it is aborted before; the loop pushes the handle of a new task in a step of
-- its own, so that tasks may run, the new one too, before it does. What a schedule answers in that
-- push is any answer, so the steps are more than those of the code.
pub mod Laws
pub mod Invariant
pub mod Accounts
use torrust_tracker.Prelude.{
  ℕ, suc, Bool, true, false, not, Option, none, some, ok, err, List, [], ◌∷◌, ◌≡◌, if◌then◌else◌,
  ◌==◌,
}
use torrust_tracker.OrderedMap
use torrust_tracker.OrderedMap.{Map}
use torrust_tracker.Udp.Banning.{is_banned, reset_bans}
use torrust_tracker.Udp.Banning.Laws.{Event, error_from, reset}
use torrust_tracker.Udp.ConnectionCookie.{F64}
use torrust_tracker.Udp.ActiveRequests.{ActiveRequests, Schedule, force_push}
use torrust_tracker.Udp.Statistics.{
  udp4_request, udp6_request, udp_request_banned, udp_request_aborted,
}
use torrust_tracker.Udp.Protocol.{RawRequest}
use torrust_tracker.Udp.Platform.{Platform, Container, send_event, by_version}
use torrust_tracker.Udp.Processor.{Floats, Circumstances, Packet, process_request, new_times}
use torrust_tracker.Udp.Handlers.{max_scrape_torrents}
use torrust_tracker.Udp.Handlers.Effects.{refused, cookie}

-- `MAX_CONNECTION_ID_ERRORS_PER_IP`
abbrev pub max_connection_id_errors_per_ip : ℕ
max_connection_id_errors_per_ip = 10

-- `spawned` numbers the tasks, `running` has those that have not finished with their requests, and
-- `unpushed` is the task whose handle the loop has not pushed yet. `sent` are the packets sent, the
-- newest first.
pub record Server (P : Platform) : Type 0 where
  pub container : Container P
  pub active_requests : ActiveRequests
  pub spawned : ℕ
  pub running : Map RawRequest
  pub unpushed : Option ℕ
  pub sent : List Packet

abbrev with_packet : Option Packet → List Packet → List Packet
with_packet none sent = sent
with_packet (some packet) sent = packet ∷ sent

-- What the run of a task means for the bans: an error of the sender, if its cookie is refused.
abbrev pub charge : Platform → Floats → F64 → RawRequest → Circumstances → Option Event
charge P R cookie_lifetime req w = elim (P.parse_bytes req.payload max_scrape_torrents) [
  | err e ↦ none
  | ok request ↦
      if refused P req.from (new_times R cookie_lifetime w.started) (cookie request)
      then some (error_from req.from.ip)
      else none
]

module _ {P : Platform} where
  abbrev pub start : Container P → Server P
  start c = record {
    container = c;
    active_requests = record { rb = [] };
    spawned = 0;
    running = [];
    unpushed = none;
    sent = [];
  }

  -- The loop up to the spawning of the task: a request of a banned address is dropped.
  unfoldable pub receive : Server P → RawRequest → Server P
  unfolding send_event is_banned
  receive s req =
      let c = send_event s.container (by_version req.from.ip udp4_request udp6_request) in
      if is_banned P.filter c.ban_service req.from.ip
      then record s { container = send_event c udp_request_banned }
      else record s {
        container = c;
        spawned = suc s.spawned;
        running = OrderedMap.insert s.spawned req s.running;
        unpushed = some s.spawned;
      }

  -- The loop after the push of a handle, with the task that was aborted, if any.
  unfoldable pub pushed : Server P → ActiveRequests → Option ℕ → Server P
  unfolding send_event
  pushed s active_requests none = record s { active_requests = active_requests; unpushed = none }
  pushed s active_requests (some task) = record s {
    active_requests = active_requests;
    unpushed = none;
    running = OrderedMap.remove task s.running;
    container = send_event s.container udp_request_aborted;
  }

  -- A task runs.
  unfoldable pub run_task : Floats → F64 → Server P → ℕ → RawRequest → Circumstances → Server P
  unfolding process_request
  run_task R cookie_lifetime s task req w =
      let (c, packet) = process_request R cookie_lifetime s.container req w in
      record s {
        container = c;
        running = OrderedMap.remove task s.running;
        sent = with_packet packet s.sent;
      }

  -- The task that cleans the bans.
  unfoldable pub clean_bans : Server P → Server P
  unfolding reset_bans
  clean_bans s = record s {
    container = record s.container { ban_service = reset_bans P.filter s.container.ban_service };
  }

  -- One step of the server, labelled with what it means for the bans.
  pub data Step (R : Floats) (cookie_lifetime : F64)
      : Server P → Option Event → Server P → Type 0 where
    receives :
        (s : Server P) (req : RawRequest)
        → s.unpushed ≡ none
        → Step R cookie_lifetime s none (receive s req)
    is_finished :
        (s : Server P) (task : ℕ)
        → s.unpushed ≡ some task
        → OrderedMap.lookup task s.running ≡ none
        → Step R cookie_lifetime s none (record s { unpushed = none })
    pushes :
        (s : Server P) (task : ℕ) (e : Schedule) (active_requests : ActiveRequests)
        (aborted : Option ℕ)
        → s.unpushed ≡ some task
        → force_push e s.active_requests task ≡ some (active_requests, aborted)
        → Step R cookie_lifetime s none (pushed s active_requests aborted)
    runs :
        (s : Server P) (task : ℕ) (req : RawRequest) (w : Circumstances)
        → OrderedMap.lookup task s.running ≡ some req
        → Step R cookie_lifetime s
            (charge P R cookie_lifetime req w)
            (run_task R cookie_lifetime s task req w)
    cleans : (s : Server P) → Step R cookie_lifetime s (some reset) (clean_bans s)
