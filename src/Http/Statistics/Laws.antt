-- ===== src/Http/Statistics/Laws.antt =====
-- The counters against the events that were handled.
use torrust_tracker.Prelude.{ℕ, ◌+◌, ◌%◌, ◌^◌, ◌≡◌, List, [], ◌∷◌, arith}
use torrust_tracker.Http.Statistics.{
  Event, tcp4_announce, tcp4_scrape, tcp6_announce, tcp6_scrape, Metrics, default, handle_event,
}

-- How many events were IPv4 announces, IPv4 scrapes, IPv6 announces and IPv6 scrapes.
pub record Tally : Type 0 where
  pub announces4 : ℕ
  pub scrapes4 : ℕ
  pub announces6 : ℕ
  pub scrapes6 : ℕ

abbrev pub tally : List Event → Tally
tally [] = record { announces4 = 0; scrapes4 = 0; announces6 = 0; scrapes6 = 0 }
tally (tcp4_announce ∷ es) = let t = tally es in record t { announces4 = t.announces4 + 1 }
tally (tcp4_scrape ∷ es) = let t = tally es in record t { scrapes4 = t.scrapes4 + 1 }
tally (tcp6_announce ∷ es) = let t = tally es in record t { announces6 = t.announces6 + 1 }
tally (tcp6_scrape ∷ es) = let t = tally es in record t { scrapes6 = t.scrapes6 + 1 }

-- The counters are the numbers of the events modulo 2^64; every event is a connection.
pub record IsTallied (m : Metrics) (t : Tally) : Type 0 where
  pub announces4 : m.tcp4_announces_handled ≡ t.announces4 % 2 ^ 64
  pub scrapes4 : m.tcp4_scrapes_handled ≡ t.scrapes4 % 2 ^ 64
  pub connections4 : m.tcp4_connections_handled ≡ (t.announces4 + t.scrapes4) % 2 ^ 64
  pub announces6 : m.tcp6_announces_handled ≡ t.announces6 % 2 ^ 64
  pub scrapes6 : m.tcp6_scrapes_handled ≡ t.scrapes6 % 2 ^ 64
  pub connections6 : m.tcp6_connections_handled ≡ (t.announces6 + t.scrapes6) % 2 ^ 64

-- The metrics after the events, newest first.
abbrev pub after : List Event → Metrics
after [] = default
after (e ∷ es) = handle_event e (after es)

-- After any events the announces and scrapes of either IP version are counted modulo 2^64, and the
-- connections of an IP version are its announces and scrapes together.
pub after-IsTallied : (es : List Event) → IsTallied (after es) (tally es)
unfolding handle_event
after-IsTallied [] = ground arith
after-IsTallied (tcp4_announce ∷ es) = ground (arith, after-IsTallied es)
after-IsTallied (tcp4_scrape ∷ es) = ground (arith, after-IsTallied es)
after-IsTallied (tcp6_announce ∷ es) = ground (arith, after-IsTallied es)
after-IsTallied (tcp6_scrape ∷ es) = ground (arith, after-IsTallied es)
