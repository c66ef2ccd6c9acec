-- ===== src/Udp/Launcher/Laws.antt =====
-- What holds of the UDP server at any time, whatever packets come in and however the tasks run.
use torrust_tracker.Prelude.{
  ℕ, ◌^◌, ◌<◌, ◌≡◌, ◌∙◌, refl, ap, Option, none, some, List, [], ◌∷◌, arith, ltb,
}
use torrust_tracker.Primitives.Net.{IpAddr, SocketAddr}
use torrust_tracker.Udp.Banning.{
  CountingBloomFilter, BanService, count, is_banned, new, increase_counter, reset_bans,
}
use torrust_tracker.Udp.Banning.Laws.{Event, error_from, reset, errors, after, is_banned-after}
use torrust_tracker.Udp.ConnectionCookie.{F64}
use torrust_tracker.Udp.Protocol.{RawRequest, Response}
use torrust_tracker.Udp.Platform.{Platform, Container}
use torrust_tracker.Udp.Processor.{Floats, Circumstances, new_times, respond_to, send_response}
use torrust_tracker.Udp.Handlers.{handle_packet}
use torrust_tracker.Udp.Handlers.Effects.{handle_packet-ban_service}
use torrust_tracker.Udp.Launcher.{
  max_connection_id_errors_per_ip, Server, start, receive, pushed, run_task, clean_bans, charge,
  Step, receives, is_finished, pushes, runs, cleans,
}

-- The events of a label and of those before.
abbrev pub recorded : Option Event → List Event → List Event
recorded none es = es
recorded (some e) es = e ∷ es

-- The states that the server reaches from a container, with what happened to the bans, newest first.
pub data Reach {P : Platform} (R : Floats) (cookie_lifetime : F64) (c : Container P)
    : Server P → List Event → Type 0 where
  begins : Reach R cookie_lifetime c (start c) []
  goes_on :
      (s s' : Server P) (es : List Event) (label : Option Event)
      → Reach R cookie_lifetime c s es
      → Step R cookie_lifetime s label s'
      → Reach R cookie_lifetime c s' (recorded label es)

-- The bans after what a label says.
abbrev marked : (B : CountingBloomFilter) → Option Event → BanService B → BanService B
marked B none s = s
marked B (some (error_from ip)) s = increase_counter B s ip
marked B (some reset) s = reset_bans B s

after_lem :
    (B : CountingBloomFilter) (limit : ℕ) (label : Option Event) (es : List Event)
    → marked B label (after B limit es) ≡ after B limit (recorded label es)
after_lem B limit none es = refl
after_lem B limit (some (error_from ip)) es = refl
after_lem B limit (some reset) es = refl

module _ {P : Platform} (R : Floats) (cookie_lifetime : F64) where
  -- An answer that is sent changes no more than the events.
  pub respond_to_lem :
      (from : SocketAddr) (w : Circumstances) (a : Option Response × Container P)
      → ((respond_to from w a).0.ban_service ≡ a.1.ban_service)
        × ((respond_to from w a).0.announce_handler ≡ a.1.announce_handler)
  unfolding send_response
  respond_to_lem from w (none, c) = (refl, refl)
  respond_to_lem from w (some response, c) = (ground arith, ground arith)

  ban_service-run_task :
      (s : Server P) (task : ℕ) (req : RawRequest) (w : Circumstances)
      → (run_task R cookie_lifetime s task req w).container.ban_service
        ≡ marked P.filter (charge P R cookie_lifetime req w) s.container.ban_service
  unfolding run_task
  ban_service-run_task s task req w =
      let times = new_times R cookie_lifetime w.started in
      let a = handle_packet s.container req times w.announced in
      (respond_to_lem req.from w a).0
      ∙ ground (arith, handle_packet-ban_service s.container req times w.announced)

  ban_service-Step :
      (s s' : Server P) (label : Option Event)
      → Step R cookie_lifetime s label s'
      → s'.container.ban_service ≡ marked P.filter label s.container.ban_service
  unfolding receive pushed run_task clean_bans
  ban_service-Step s s' label (receives t req free) = ground arith
  ban_service-Step s s' label (is_finished t task new gone) = refl
  ban_service-Step s s' label (pushes t task e active_requests aborted new done) = ground arith
  ban_service-Step s s' label (runs t task req w found) = ban_service-run_task s task req w
  ban_service-Step s s' label (cleans t) = refl

  -- The bans are those of the history.
  ban_service-Reach :
      (c : Container P) (limit : ℕ) (s : Server P) (es : List Event)
      → c.ban_service ≡ new P.filter limit
      → Reach R cookie_lifetime c s es
      → s.container.ban_service ≡ after P.filter limit es
  ban_service-Reach c limit s es fresh begins = fresh
  ban_service-Reach c limit s es fresh (goes_on s₀ s' before label reached step) =
      ban_service-Step s₀ s label step
      ∙ ap (marked P.filter label) (ban_service-Reach c limit s₀ before fresh reached)
      ∙ after_lem P.filter limit label before

  -- At any time an address is banned exactly if more requests of it with a refused cookie were handled
  -- since the last cleaning than the limit, 10 in the code; with the conditions on the filter and the
  -- counter: the limit is below the saturation, and the errors are fewer than 2^32.
  pub is_banned-Reach :
      (c : Container P) (s : Server P) (es : List Event) (ip : IpAddr)
      → c.ban_service ≡ new P.filter max_connection_id_errors_per_ip
      → Reach R cookie_lifetime c s es
      → max_connection_id_errors_per_ip < P.filter.saturation
      → count ip (errors es) < 2 ^ 32
      → is_banned P.filter s.container.ban_service ip
        ≡ ltb max_connection_id_errors_per_ip (count ip (errors es))
  is_banned-Reach c s es ip fresh reached low few =
      rw (ban_service-Reach c max_connection_id_errors_per_ip s es fresh reached)
        (is_banned-after P.filter max_connection_id_errors_per_ip es ip low few)
