-- ===== src/Udp/Statistics.antt =====
-- src/packages/udp_tracker_core/statistics: the metrics of the UDP tracker (metrics.rs), their
-- repository (repository.rs) and the handler of events (event/mod.rs, event/handler.rs). The counters
-- are `u64`, and wrap as in the release build. The arithmetic of `f64` is the machine's, and an
-- interface here.
pub mod Laws
use torrust_tracker.Prelude.{ℕ, ◌+◌, ◌%◌, ◌^◌}

-- `f64` with the casts from and to `u64`.
pub record Floats : Type 1 where
  pub F64 : Type 0
  pub of_unsigned : ℕ → F64
  pub add : F64 → F64 → F64
  pub sub : F64 → F64 → F64
  pub div : F64 → F64 → F64
  pub ceil_as_u64 : F64 → ℕ

pub data UdpResponseKind : Type 0 where
  connect announce scrape error : UdpResponseKind

-- A processing time is in nanoseconds.
pub data Event : Type 0 where
  udp_request_aborted : Event
  udp_request_banned : Event
  udp4_request : Event
  udp4_connect : Event
  udp4_announce : Event
  udp4_scrape : Event
  udp4_response : UdpResponseKind → ℕ → Event
  udp4_error : Event
  udp6_request : Event
  udp6_connect : Event
  udp6_announce : Event
  udp6_scrape : Event
  udp6_response : UdpResponseKind → ℕ → Event
  udp6_error : Event

pub record Metrics : Type 0 where
  pub udp_requests_aborted : ℕ
  pub udp_requests_banned : ℕ
  pub udp_banned_ips_total : ℕ
  pub udp_avg_connect_processing_time_ns : ℕ
  pub udp_avg_announce_processing_time_ns : ℕ
  pub udp_avg_scrape_processing_time_ns : ℕ
  pub udp4_requests : ℕ
  pub udp4_connections_handled : ℕ
  pub udp4_announces_handled : ℕ
  pub udp4_scrapes_handled : ℕ
  pub udp4_responses : ℕ
  pub udp4_errors_handled : ℕ
  pub udp6_requests : ℕ
  pub udp6_connections_handled : ℕ
  pub udp6_announces_handled : ℕ
  pub udp6_scrapes_handled : ℕ
  pub udp6_responses : ℕ
  pub udp6_errors_handled : ℕ

-- `Metrics::default()`
abbrev pub default : Metrics
default = record {
  udp_requests_aborted = 0;
  udp_requests_banned = 0;
  udp_banned_ips_total = 0;
  udp_avg_connect_processing_time_ns = 0;
  udp_avg_announce_processing_time_ns = 0;
  udp_avg_scrape_processing_time_ns = 0;
  udp4_requests = 0;
  udp4_connections_handled = 0;
  udp4_announces_handled = 0;
  udp4_scrapes_handled = 0;
  udp4_responses = 0;
  udp4_errors_handled = 0;
  udp6_requests = 0;
  udp6_connections_handled = 0;
  udp6_announces_handled = 0;
  udp6_scrapes_handled = 0;
  udp6_responses = 0;
  udp6_errors_handled = 0;
}

abbrev plus_one : ℕ → ℕ
plus_one n = (n + 1) % 2 ^ 64

unfoldable pub increase_udp_requests_aborted : Metrics → Metrics
increase_udp_requests_aborted m = record m {
  udp_requests_aborted = plus_one m.udp_requests_aborted;
}

unfoldable pub increase_udp_requests_banned : Metrics → Metrics
increase_udp_requests_banned m = record m { udp_requests_banned = plus_one m.udp_requests_banned }

unfoldable pub increase_udp4_requests : Metrics → Metrics
increase_udp4_requests m = record m { udp4_requests = plus_one m.udp4_requests }

unfoldable pub increase_udp4_connections : Metrics → Metrics
increase_udp4_connections m = record m {
  udp4_connections_handled = plus_one m.udp4_connections_handled;
}

unfoldable pub increase_udp4_announces : Metrics → Metrics
increase_udp4_announces m = record m { udp4_announces_handled = plus_one m.udp4_announces_handled }

unfoldable pub increase_udp4_scrapes : Metrics → Metrics
increase_udp4_scrapes m = record m { udp4_scrapes_handled = plus_one m.udp4_scrapes_handled }

unfoldable pub increase_udp4_responses : Metrics → Metrics
increase_udp4_responses m = record m { udp4_responses = plus_one m.udp4_responses }

unfoldable pub increase_udp4_errors : Metrics → Metrics
increase_udp4_errors m = record m { udp4_errors_handled = plus_one m.udp4_errors_handled }

unfoldable pub increase_udp6_requests : Metrics → Metrics
increase_udp6_requests m = record m { udp6_requests = plus_one m.udp6_requests }

unfoldable pub increase_udp6_connections : Metrics → Metrics
increase_udp6_connections m = record m {
  udp6_connections_handled = plus_one m.udp6_connections_handled;
}

unfoldable pub increase_udp6_announces : Metrics → Metrics
increase_udp6_announces m = record m { udp6_announces_handled = plus_one m.udp6_announces_handled }

unfoldable pub increase_udp6_scrapes : Metrics → Metrics
increase_udp6_scrapes m = record m { udp6_scrapes_handled = plus_one m.udp6_scrapes_handled }

unfoldable pub increase_udp6_responses : Metrics → Metrics
increase_udp6_responses m = record m { udp6_responses = plus_one m.udp6_responses }

unfoldable pub increase_udp6_errors : Metrics → Metrics
increase_udp6_errors m = record m { udp6_errors_handled = plus_one m.udp6_errors_handled }

module _ (R : Floats) where
  -- The moving average, rounded up.
  abbrev new_avg : ℕ → ℕ → ℕ → ℕ
  new_avg previous_avg req_processing_time handled = R.ceil_as_u64 (
      R.add (R.of_unsigned previous_avg) (
        R.div (R.sub (R.of_unsigned req_processing_time) (R.of_unsigned previous_avg))
          (R.of_unsigned handled)))

  unfoldable pub recalculate_udp_avg_connect_processing_time_ns : Metrics → ℕ → Metrics
  recalculate_udp_avg_connect_processing_time_ns m req_processing_time = record m {
    udp_avg_connect_processing_time_ns =
        new_avg m.udp_avg_connect_processing_time_ns req_processing_time
          ((m.udp4_connections_handled + m.udp6_connections_handled) % 2 ^ 64);
  }

  unfoldable pub recalculate_udp_avg_announce_processing_time_ns : Metrics → ℕ → Metrics
  recalculate_udp_avg_announce_processing_time_ns m req_processing_time = record m {
    udp_avg_announce_processing_time_ns =
        new_avg m.udp_avg_announce_processing_time_ns req_processing_time
          ((m.udp4_announces_handled + m.udp6_announces_handled) % 2 ^ 64);
  }

  unfoldable pub recalculate_udp_avg_scrape_processing_time_ns : Metrics → ℕ → Metrics
  recalculate_udp_avg_scrape_processing_time_ns m req_processing_time = record m {
    udp_avg_scrape_processing_time_ns =
        new_avg m.udp_avg_scrape_processing_time_ns req_processing_time
          ((m.udp4_scrapes_handled + m.udp6_scrapes_handled) % 2 ^ 64);
  }

  -- The inner match on the kind of a response.
  abbrev recalculate : UdpResponseKind → Metrics → ℕ → Metrics
  recalculate connect m t = recalculate_udp_avg_connect_processing_time_ns m t
  recalculate announce m t = recalculate_udp_avg_announce_processing_time_ns m t
  recalculate scrape m t = recalculate_udp_avg_scrape_processing_time_ns m t
  recalculate error m t = m

  unfoldable pub handle_event : Event → Metrics → Metrics
  unfolding increase_udp_requests_aborted increase_udp_requests_banned increase_udp4_requests
      increase_udp4_connections increase_udp4_announces increase_udp4_scrapes
      increase_udp4_responses increase_udp4_errors increase_udp6_requests increase_udp6_connections
      increase_udp6_announces increase_udp6_scrapes increase_udp6_responses increase_udp6_errors
      recalculate_udp_avg_connect_processing_time_ns recalculate_udp_avg_announce_processing_time_ns
      recalculate_udp_avg_scrape_processing_time_ns
  handle_event udp_request_aborted m = increase_udp_requests_aborted m
  handle_event udp_request_banned m = increase_udp_requests_banned m
  handle_event udp4_request m = increase_udp4_requests m
  handle_event udp4_connect m = increase_udp4_connections m
  handle_event udp4_announce m = increase_udp4_announces m
  handle_event udp4_scrape m = increase_udp4_scrapes m
  handle_event (udp4_response kind req_processing_time) m =
      recalculate kind (increase_udp4_responses m) req_processing_time
  handle_event udp4_error m = increase_udp4_errors m
  handle_event udp6_request m = increase_udp6_requests m
  handle_event udp6_connect m = increase_udp6_connections m
  handle_event udp6_announce m = increase_udp6_announces m
  handle_event udp6_scrape m = increase_udp6_scrapes m
  handle_event (udp6_response kind req_processing_time) m = increase_udp6_responses m
  handle_event udp6_error m = increase_udp6_errors m
