-- ===== src/App/Laws.antt =====
-- What the start of the tracker runs, and what a tracker knows after it was started again.
use torrust_tracker.Prelude.{
  ℕ, Bool, true, false, ◌≡◌, refl, ap, ◌∙◌, Option, none, some, List, [], ◌∷◌, ◌++◌, map, arith,
  if◌then◌else◌, ◌&&◌, ltb, all_b,
}
use torrust_tracker.Primitives.Net.{SocketAddr}
use torrust_tracker.App.{
  Configuration, Job, udp_tracker, http_tracker, tracker_apis, health_check_api, torrent_cleanup,
  and_then, start_job, start_udp_each, start_udp, start_http_each, start_http, start_api,
  start_cleanup, start_jobs,
}

abbrev pub or_empty {ℓ} : {A : Type ℓ} → Option (List A) → List A
or_empty none = []
or_empty (some l) = l

abbrev pub as_list {ℓ} : {A : Type ℓ} → Option A → List A
as_list none = []
as_list (some a) = a ∷ []

-- The jobs that a configuration asks for: no UDP server on a private tracker, and a cleanup if it
-- has an interval.
abbrev pub wanted : Configuration → List Job
wanted config =
    (if config.core.private_tracker then [] else map udp_tracker (or_empty config.udp_trackers))
    ++ (map http_tracker (or_empty config.http_trackers)
        ++ (map tracker_apis (as_list config.http_api)
            ++ ((if ltb 0 config.inactive_peer_cleanup_interval
                  then torrent_cleanup config.inactive_peer_cleanup_interval ∷ []
                  else [])
                ++ (health_check_api config.health_check_api ∷ []))))

module _ (can_start : Job → Bool) where
  abbrev pub starts : Job → Bool
  starts (torrent_cleanup n) = true
  starts job = can_start job

  -- All jobs of a list run, or none is known.
  abbrev pub all_or_none : List Job → Option (List Job)
  all_or_none jobs = if all_b starts jobs then some jobs else none

  all_b-append : (a b : List Job) → all_b starts (a ++ b) ≡ (all_b starts a && all_b starts b)
  all_b-append [] b = refl
  all_b-append (job ∷ a) b = ground (arith, all_b-append a b)

  and_then_lem :
      (a b : List Job) → and_then can_start (all_or_none a) (all_or_none b) ≡ all_or_none (a ++ b)
  and_then_lem a b = ground (arith, all_b-append a b)

  -- A job that is not the cleanup, before others.
  cons_lem :
      (job : Job) (l : List Job)
      → starts job ≡ can_start job
      → and_then can_start (start_job can_start job) (all_or_none l) ≡ all_or_none (job ∷ l)
  cons_lem job l h = ground arith

  start_udp_each_lem :
      (private : Bool) (l : List SocketAddr)
      → start_udp_each can_start private l ≡ all_or_none (if private then [] else map udp_tracker l)
  unfolding start_udp_each
  start_udp_each_lem true [] = refl
  start_udp_each_lem false [] = refl
  start_udp_each_lem true (a ∷ l) = start_udp_each_lem true l
  start_udp_each_lem false (a ∷ l) =
      ap (and_then can_start (start_job can_start (udp_tracker a))) (start_udp_each_lem false l)
      ∙ cons_lem (udp_tracker a) (map udp_tracker l) refl

  start_http_each_lem :
      (l : List SocketAddr) → start_http_each can_start l ≡ all_or_none (map http_tracker l)
  unfolding start_http_each
  start_http_each_lem [] = refl
  start_http_each_lem (a ∷ l) =
      ap (and_then can_start (start_job can_start (http_tracker a))) (start_http_each_lem l)
      ∙ cons_lem (http_tracker a) (map http_tracker l) refl

  start_udp_lem :
      (private : Bool) (o : Option (List SocketAddr))
      → start_udp can_start private o
        ≡ all_or_none (if private then [] else map udp_tracker (or_empty o))
  unfolding start_udp
  start_udp_lem true none = refl
  start_udp_lem false none = refl
  start_udp_lem private (some l) = start_udp_each_lem private l

  start_http_lem :
      (o : Option (List SocketAddr))
      → start_http can_start o ≡ all_or_none (map http_tracker (or_empty o))
  unfolding start_http
  start_http_lem none = refl
  start_http_lem (some l) = start_http_each_lem l

  start_api_lem :
      (o : Option SocketAddr) → start_api can_start o ≡ all_or_none (map tracker_apis (as_list o))
  start_api_lem none = refl
  start_api_lem (some a) = ground arith

  start_cleanup_lem :
      (interval : ℕ)
      → start_cleanup can_start interval
        ≡ all_or_none (if ltb 0 interval then torrent_cleanup interval ∷ [] else [])
  start_cleanup_lem interval = ground arith

  start_health_lem :
      (a : SocketAddr)
      → start_job can_start (health_check_api a) ≡ all_or_none (health_check_api a ∷ [])
  start_health_lem a = ground arith

  -- The jobs that the configuration asks for are started, in their order, and no others: no UDP
  -- server on a private tracker. If one of them cannot be started, the start fails.
  pub start_jobs_lem :
      (config : Configuration) → start_jobs can_start config ≡ all_or_none (wanted config)
  unfolding start_jobs
  start_jobs_lem config =
      rw
        (
          start_udp_lem, start_http_lem, start_api_lem, start_cleanup_lem, start_health_lem,
          and_then_lem, and_then_lem, and_then_lem, and_then_lem,
        )
        refl
