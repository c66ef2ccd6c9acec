-- ===== src/Udp/Launcher/Accounts.antt =====
-- What becomes of the requests that the UDP server receives, as its events tell.
use torrust_tracker.Prelude.{
  ℕ, ◌+◌, Bool, true, false, ◌≡◌, ◌∙◌, refl, Option, none, some, List, [], arith, count_b,
  Result-cases, inl, inr,
}
use torrust_tracker.Primitives.Net.{SocketAddr}
use torrust_tracker.Udp.ActiveRequests.{ActiveRequests}
use torrust_tracker.Udp.Banning.Laws as Bans
use torrust_tracker.Udp.ConnectionCookie.{F64}
use torrust_tracker.Udp.Statistics.{Event, udp_request_banned, udp4_request, udp6_request}
use torrust_tracker.Udp.Protocol.{
  Request, connect_request, announce_request, scrape_request, RawRequest, CookieTimeValues,
  Response,
}
use torrust_tracker.Udp.Platform.{Platform, Container}
use torrust_tracker.Udp.Processor.{Floats, Circumstances, new_times, respond_to, send_response}
use torrust_tracker.Udp.Handlers.{
  max_scrape_torrents, handle_request, handle_error, handle_packet, respond, count_error,
}
use torrust_tracker.Udp.Launcher.{
  Server, receive, pushed, run_task, clean_bans, Step, receives, is_finished, pushes, runs, cleans,
}
use torrust_tracker.Udp.Launcher.Laws.{Reach, begins, goes_on}

-- A request that came in, and a request that was dropped.
abbrev is_receipt : Event → Bool
is_receipt udp4_request = true
is_receipt udp6_request = true
is_receipt _ = false

abbrev is_drop : Event → Bool
is_drop udp_request_banned = true
is_drop _ = false

-- Whether events are sent, how many requests came in and how many of them were dropped.
abbrev tally : {P : Platform} → Container P → Bool × ℕ × ℕ
tally c = (c.sends_events, count_b is_receipt c.events, count_b is_drop c.events)

module _ {P : Platform} (c : Container P) (raw : RawRequest) (times : CookieTimeValues)
    (now : ℕ) where
  tally-handle_request :
      (request : Request)
      → tally (respond raw.from times (handle_request c request raw.from times now)).1 ≡ tally c
  unfolding handle_request handle_error count_error
  tally-handle_request (connect_request transaction_id) = ground arith
  tally-handle_request (announce_request request) = ground arith
  tally-handle_request (scrape_request connection_id transaction_id info_hashes) = ground arith

  -- The handling of a packet sends no such events.
  tally-handle_packet : tally (handle_packet c raw times now).1 ≡ tally c
  unfolding handle_packet
  tally-handle_packet = elim (Result-cases (P.parse_bytes raw.payload max_scrape_torrents)) [
    | inl (request, parsed) ↦ ground (arith, tally-handle_request request)
    | inr (e, failed) ↦ ground arith
  ]

tally-respond_to :
    {P : Platform} (from : SocketAddr) (w : Circumstances) (a : Option Response × Container P)
    → tally (respond_to from w a).0 ≡ tally a.1
unfolding send_response
tally-respond_to from w (none, c) = refl
tally-respond_to from w (some response, c) = ground arith

tally-pushed :
    {P : Platform} (s : Server P) (a : ActiveRequests) (aborted : Option ℕ)
    → (tally (pushed s a aborted).container ≡ tally s.container)
      × ((pushed s a aborted).spawned ≡ s.spawned)
unfolding pushed
tally-pushed s a aborted = (ground arith, ground arith)

-- The server sends events, and every request that came in was dropped or got a task.
abbrev pub IsBalanced : {P : Platform} → Server P → Type 0
IsBalanced s =
    (s.container.sends_events ≡ true)
    × (count_b is_receipt s.container.events ≡ count_b is_drop s.container.events + s.spawned)

module _ {P : Platform} (R : Floats) (cookie_lifetime : F64) where
  tally-run_task :
      (s : Server P) (task : ℕ) (req : RawRequest) (w : Circumstances)
      → tally (run_task R cookie_lifetime s task req w).container ≡ tally s.container
  unfolding run_task
  tally-run_task s task req w =
      let times = new_times R cookie_lifetime w.started in
      tally-respond_to req.from w (handle_packet s.container req times w.announced)
      ∙ tally-handle_packet s.container req times w.announced

  IsBalanced-Step :
      (s s' : Server P) (label : Option Bans.Event)
      → Step R cookie_lifetime s label s'
      → IsBalanced s
      → IsBalanced s'
  unfolding receive run_task clean_bans
  IsBalanced-Step s s' label (receives t req free) h = (ground arith, ground arith)
  IsBalanced-Step s s' label (is_finished t task new gone) h = h
  IsBalanced-Step s s' label (pushes t task e active_requests aborted new done) h =
      let kept = tally-pushed s active_requests aborted in
      (ground (arith, kept), ground (arith, kept))
  IsBalanced-Step s s' label (runs t task req w found) h =
      let kept = tally-run_task s task req w in (ground (arith, kept), ground (arith, kept))
  IsBalanced-Step s s' label (cleans t) h = h

  -- At any time the events account for every request: as many came in as were dropped as banned or
  -- got a task, if the server sends events and had sent none at its start.
  pub IsBalanced-Reach :
      (c : Container P) (s : Server P) (es : List Bans.Event)
      → c.sends_events ≡ true
      → c.events ≡ []
      → Reach R cookie_lifetime c s es
      → IsBalanced s
  IsBalanced-Reach c s es on fresh begins = (on, rw fresh refl)
  IsBalanced-Reach c s es on fresh (goes_on s₀ s' before label reached step) =
      IsBalanced-Step s₀ s label step (IsBalanced-Reach c s₀ before on fresh reached)
