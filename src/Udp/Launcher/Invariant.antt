-- ===== src/Udp/Launcher/Invariant.antt =====
-- The invariant of the UDP server.
use torrust_tracker.Prelude.{
  ℕ, ◌≤◌, ◌≡◌, Option, some, List, arith, length, Result-cases, inl, inr, Bool-cases,
}
use torrust_tracker.Primitives.Net.{SocketAddr}
use torrust_tracker.TorrentRepository.Repository.Laws.{IsValid}
use torrust_tracker.TorrentRepository.Repository.Invariant.{upsert_peer, apply-IsValid, apply}
use torrust_tracker.TrackerCore.InMemory
use torrust_tracker.TrackerCore.InMemory.{InMemoryTorrentRepository}
use torrust_tracker.TrackerCore.Announce.{announced}
use torrust_tracker.Udp.Banning.Laws.{Event}
use torrust_tracker.Udp.ConnectionCookie.{F64}
use torrust_tracker.Udp.ActiveRequests.{ActiveRequests, Schedule, capacity, force_push}
use torrust_tracker.Udp.ActiveRequests.Laws.{force_push_total}
use torrust_tracker.Udp.Protocol.{
  Request, connect_request, announce_request, scrape_request, RawRequest, CookieTimeValues,
}
use torrust_tracker.Udp.Platform.{Platform, Container}
use torrust_tracker.Udp.Processor.{Floats, Circumstances, new_times}
use torrust_tracker.Udp.Handlers.{max_scrape_torrents, handle_packet, from_request}
use torrust_tracker.Udp.Handlers.Effects.{handle_packet-torrents, torrents_after, admitted}
use torrust_tracker.Udp.Launcher.{
  Server, receive, pushed, run_task, clean_bans, Step, receives, is_finished, pushes, runs, cleans,
}
use torrust_tracker.Udp.Launcher.Laws.{Reach, begins, goes_on, respond_to_lem}

-- The torrents are valid, and the handles fit the buffer.
pub record IsHealthy {P : Platform} (s : Server P) : Type 0 where
  pub torrents : IsValid s.container.announce_handler.torrents.torrents
  pub room : length s.active_requests.rb ≤ capacity

module _ {P : Platform} (c : Container P) (from : SocketAddr) (times : CookieTimeValues) (now : ℕ)
    (valid : IsValid c.announce_handler.torrents.torrents) where
  torrents_after-IsValid :
      (request : Request) → IsValid (torrents_after c from times now request).torrents
  unfolding InMemory.upsert_peer apply
  torrents_after-IsValid (announce_request request) =
      elim (Bool-cases (admitted c from times now request)) [
        | inl accepted ↦ rw accepted (
            apply-IsValid c.announce_handler.torrents.torrents
              (upsert_peer request.info_hash
                (announced c.announce_handler (from_request request from.ip now) from.ip))
              valid)
        | inr refused ↦ rw refused valid
      ]
  torrents_after-IsValid (connect_request transaction_id) = valid
  torrents_after-IsValid (scrape_request connection_id transaction_id info_hashes) = valid

handle_packet-IsValid :
    {P : Platform} (c : Container P) (raw : RawRequest) (times : CookieTimeValues) (now : ℕ)
    → IsValid c.announce_handler.torrents.torrents
    → IsValid (handle_packet c raw times now).1.announce_handler.torrents.torrents
handle_packet-IsValid {P} c raw times now valid =
    rw (handle_packet-torrents c raw times now).0
      (elim (Result-cases (P.parse_bytes raw.payload max_scrape_torrents)) [
        | inl (request, parsed) ↦
            rw parsed (torrents_after-IsValid c raw.from times now valid request)
        | inr (e, failed) ↦ rw failed valid
      ])

room_of :
    (e : Schedule) (s a : ActiveRequests) (task : ℕ) (aborted : Option ℕ)
    → length s.rb ≤ capacity
    → force_push e s task ≡ some (a, aborted)
    → length a.rb ≤ capacity
room_of e s a task aborted room done =
    let (s', aborted', result, fits) = force_push_total e s task room in
    ground (arith, result, fits, done)

receive_lem :
    {P : Platform} (s : Server P) (req : RawRequest)
    → ((receive s req).container.announce_handler ≡ s.container.announce_handler)
      × ((receive s req).active_requests ≡ s.active_requests)
unfolding receive
receive_lem s req = (ground arith, ground arith)

pushed_lem :
    {P : Platform} (s : Server P) (a : ActiveRequests) (aborted : Option ℕ)
    → ((pushed s a aborted).container.announce_handler ≡ s.container.announce_handler)
      × ((pushed s a aborted).active_requests ≡ a)
unfolding pushed
pushed_lem s a aborted = (ground arith, ground arith)

module _ {P : Platform} (R : Floats) (cookie_lifetime : F64) where
  run_task-IsValid :
      (s : Server P) (task : ℕ) (req : RawRequest) (w : Circumstances)
      → IsValid s.container.announce_handler.torrents.torrents
      → IsValid
          (run_task R cookie_lifetime s task req w).container.announce_handler.torrents.torrents
  unfolding run_task
  run_task-IsValid s task req w valid =
      let times = new_times R cookie_lifetime w.started in
      let a = handle_packet s.container req times w.announced in
      rw (respond_to_lem R cookie_lifetime req.from w a).1
        (handle_packet-IsValid s.container req times w.announced valid)

  IsHealthy-Step :
      (s s' : Server P) (label : Option Event)
      → Step R cookie_lifetime s label s'
      → IsHealthy s
      → IsHealthy s'
  unfolding run_task clean_bans
  IsHealthy-Step s s' label (receives t req free) healthy = record {
    torrents = rw (receive_lem s req).0 healthy.torrents;
    room = rw (receive_lem s req).1 healthy.room;
  }
  IsHealthy-Step s s' label (is_finished t task new gone) healthy = record {
    torrents = healthy.torrents;
    room = healthy.room;
  }
  IsHealthy-Step s s' label (pushes t task e active_requests aborted new done) healthy = record {
    torrents = rw (pushed_lem s active_requests aborted).0 healthy.torrents;
    room =
        rw (pushed_lem s active_requests aborted).1
          (room_of e s.active_requests active_requests task aborted healthy.room done);
  }
  IsHealthy-Step s s' label (runs t task req w found) healthy = record {
    torrents = run_task-IsValid s task req w healthy.torrents;
    room = healthy.room;
  }
  IsHealthy-Step s s' label (cleans t) healthy = record {
    torrents = healthy.torrents;
    room = healthy.room;
  }

  -- At any time the repository is valid and the handles of the tasks fit their buffer, if the
  -- repository was valid at the start.
  pub IsHealthy-Reach :
      (c : Container P) (s : Server P) (es : List Event)
      → IsValid c.announce_handler.torrents.torrents
      → Reach R cookie_lifetime c s es
      → IsHealthy s
  IsHealthy-Reach c s es valid begins = record { torrents = valid; room = omega arith }
  IsHealthy-Reach c s es valid (goes_on s₀ s' before label reached step) =
      IsHealthy-Step s₀ s label step (IsHealthy-Reach c s₀ before valid reached)
