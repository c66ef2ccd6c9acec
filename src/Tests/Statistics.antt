-- ===== src/Tests/Statistics.antt =====
-- Examples of the theorems on statistics.
use torrust_tracker.Prelude.{ℕ, ◌+◌, ◌-◌, ◌/◌, List, [], ◌∷◌}
use torrust_tracker.Udp.Statistics.{
  Floats, Event, connect, announce, udp4_connect, udp4_response, udp6_announce, udp6_response,
}
use torrust_tracker.Http.Statistics.{tcp4_announce, tcp4_scrape, tcp6_scrape}
use torrust_tracker.Http.Statistics as Metrics

-- Arithmetic on whole numbers.
abbrev whole_numbers : Floats
whole_numbers = record {
  F64 = ℕ;
  of_unsigned = λ n. n;
  add = λ a b. a + b;
  sub = λ a b. a - b;
  div = λ a b. a / b;
  ceil_as_u64 = λ n. n;
}

abbrev udp_events : List Event
udp_events =
    udp6_response announce 900 ∷ udp6_announce ∷ udp4_response connect 400 ∷ udp4_connect ∷ []

abbrev http_events : List Metrics.Event
http_events = tcp4_announce ∷ tcp6_scrape ∷ tcp4_scrape ∷ []
