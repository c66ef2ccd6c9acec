-- ===== src/Http/Statistics.antt =====
-- src/packages/http_tracker_core/statistics: the metrics of the HTTP tracker (metrics.rs), their
-- repository (repository.rs) and the handler of events (event/mod.rs, event/handler.rs). The counters
-- are `u64`, and wrap as in the release build.
pub mod Laws
use torrust_tracker.Prelude.{ℕ, ◌+◌, ◌%◌, ◌^◌}

pub data Event : Type 0 where
  tcp4_announce tcp4_scrape tcp6_announce tcp6_scrape : Event

pub record Metrics : Type 0 where
  pub tcp4_connections_handled : ℕ
  pub tcp4_announces_handled : ℕ
  pub tcp4_scrapes_handled : ℕ
  pub tcp6_connections_handled : ℕ
  pub tcp6_announces_handled : ℕ
  pub tcp6_scrapes_handled : ℕ

-- `Metrics::default()`
abbrev pub default : Metrics
default = record {
  tcp4_connections_handled = 0;
  tcp4_announces_handled = 0;
  tcp4_scrapes_handled = 0;
  tcp6_connections_handled = 0;
  tcp6_announces_handled = 0;
  tcp6_scrapes_handled = 0;
}

unfoldable pub increase_tcp4_connections : Metrics → Metrics
increase_tcp4_connections m = record m {
  tcp4_connections_handled = (m.tcp4_connections_handled + 1) % 2 ^ 64;
}

unfoldable pub increase_tcp4_announces : Metrics → Metrics
increase_tcp4_announces m = record m {
  tcp4_announces_handled = (m.tcp4_announces_handled + 1) % 2 ^ 64;
}

unfoldable pub increase_tcp4_scrapes : Metrics → Metrics
increase_tcp4_scrapes m = record m { tcp4_scrapes_handled = (m.tcp4_scrapes_handled + 1) % 2 ^ 64 }

unfoldable pub increase_tcp6_connections : Metrics → Metrics
increase_tcp6_connections m = record m {
  tcp6_connections_handled = (m.tcp6_connections_handled + 1) % 2 ^ 64;
}

unfoldable pub increase_tcp6_announces : Metrics → Metrics
increase_tcp6_announces m = record m {
  tcp6_announces_handled = (m.tcp6_announces_handled + 1) % 2 ^ 64;
}

unfoldable pub increase_tcp6_scrapes : Metrics → Metrics
increase_tcp6_scrapes m = record m { tcp6_scrapes_handled = (m.tcp6_scrapes_handled + 1) % 2 ^ 64 }

unfoldable pub handle_event : Event → Metrics → Metrics
unfolding increase_tcp4_connections increase_tcp4_announces increase_tcp4_scrapes
    increase_tcp6_connections increase_tcp6_announces increase_tcp6_scrapes
handle_event tcp4_announce m = increase_tcp4_connections (increase_tcp4_announces m)
handle_event tcp4_scrape m = increase_tcp4_connections (increase_tcp4_scrapes m)
handle_event tcp6_announce m = increase_tcp6_connections (increase_tcp6_announces m)
handle_event tcp6_scrape m = increase_tcp6_connections (increase_tcp6_scrapes m)
