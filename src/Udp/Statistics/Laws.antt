-- ===== src/Udp/Statistics/Laws.antt =====
-- The counters against the events that were handled.
use torrust_tracker.Prelude.{
  ℕ, ◌%◌, ◌^◌, Bool, true, false, ◌≡◌, refl, List, [], ◌∷◌, arith, count_b, filter_b, Bool-cases,
  inl, inr, ◌∙◌, ap, sym, ◌==◌,
}
use torrust_tracker.Udp.Statistics.{
  Floats, Event, UdpResponseKind, Metrics, default, handle_event, udp_request_aborted,
  udp_request_banned, udp4_request, udp4_connect, udp4_announce, udp4_scrape, udp4_response,
  udp4_error, udp6_request, udp6_connect, udp6_announce, udp6_scrape, udp6_response, udp6_error,
}

-- The kind of an event, whatever its data.
abbrev pub kind : Event → ℕ
kind udp_request_aborted = 0
kind udp_request_banned = 1
kind udp4_request = 2
kind udp4_connect = 3
kind udp4_announce = 4
kind udp4_scrape = 5
kind (udp4_response k t) = 6
kind udp4_error = 7
kind udp6_request = 8
kind udp6_connect = 9
kind udp6_announce = 10
kind udp6_scrape = 11
kind (udp6_response k t) = 12
kind udp6_error = 13

-- The number of events of a kind.
abbrev pub times : ℕ → List Event → ℕ
times k = count_b (λ e. kind e == k)

-- Every counter is the number of its events modulo 2^64.
pub record IsCounted (m : Metrics) (es : List Event) : Type 0 where
  pub udp_requests_aborted : m.udp_requests_aborted ≡ times 0 es % 2 ^ 64
  pub udp_requests_banned : m.udp_requests_banned ≡ times 1 es % 2 ^ 64
  pub udp4_requests : m.udp4_requests ≡ times 2 es % 2 ^ 64
  pub udp4_connections_handled : m.udp4_connections_handled ≡ times 3 es % 2 ^ 64
  pub udp4_announces_handled : m.udp4_announces_handled ≡ times 4 es % 2 ^ 64
  pub udp4_scrapes_handled : m.udp4_scrapes_handled ≡ times 5 es % 2 ^ 64
  pub udp4_responses : m.udp4_responses ≡ times 6 es % 2 ^ 64
  pub udp4_errors_handled : m.udp4_errors_handled ≡ times 7 es % 2 ^ 64
  pub udp6_requests : m.udp6_requests ≡ times 8 es % 2 ^ 64
  pub udp6_connections_handled : m.udp6_connections_handled ≡ times 9 es % 2 ^ 64
  pub udp6_announces_handled : m.udp6_announces_handled ≡ times 10 es % 2 ^ 64
  pub udp6_scrapes_handled : m.udp6_scrapes_handled ≡ times 11 es % 2 ^ 64
  pub udp6_responses : m.udp6_responses ≡ times 12 es % 2 ^ 64
  pub udp6_errors_handled : m.udp6_errors_handled ≡ times 13 es % 2 ^ 64

-- Everything but the number of IPv6 responses.
abbrev pub forget : Metrics → Metrics
forget m = record m { udp6_responses = 0 }

abbrev pub is_other : Event → Bool
is_other (udp6_response k t) = false
is_other _ = true

module _ (R : Floats) where
  -- The metrics after the events, newest first.
  abbrev pub after : List Event → Metrics
  after [] = default
  after (e ∷ es) = handle_event R e (after es)

  handle_event-IsCounted :
      (e : Event) (m : Metrics) (es : List Event)
      → IsCounted m es
      → IsCounted (handle_event R e m) (e ∷ es)
  unfolding handle_event
  handle_event-IsCounted udp_request_aborted m es h = ground (arith, h)
  handle_event-IsCounted udp_request_banned m es h = ground (arith, h)
  handle_event-IsCounted udp4_request m es h = ground (arith, h)
  handle_event-IsCounted udp4_connect m es h = ground (arith, h)
  handle_event-IsCounted udp4_announce m es h = ground (arith, h)
  handle_event-IsCounted udp4_scrape m es h = ground (arith, h)
  handle_event-IsCounted (udp4_response UdpResponseKind.connect t) m es h = ground (arith, h)
  handle_event-IsCounted (udp4_response UdpResponseKind.announce t) m es h = ground (arith, h)
  handle_event-IsCounted (udp4_response UdpResponseKind.scrape t) m es h = ground (arith, h)
  handle_event-IsCounted (udp4_response UdpResponseKind.error t) m es h = ground (arith, h)
  handle_event-IsCounted udp4_error m es h = ground (arith, h)
  handle_event-IsCounted udp6_request m es h = ground (arith, h)
  handle_event-IsCounted udp6_connect m es h = ground (arith, h)
  handle_event-IsCounted udp6_announce m es h = ground (arith, h)
  handle_event-IsCounted udp6_scrape m es h = ground (arith, h)
  handle_event-IsCounted (udp6_response k t) m es h = ground (arith, h)
  handle_event-IsCounted udp6_error m es h = ground (arith, h)

  -- After any events every counter of the requests, connections, announces, scrapes, responses and
  -- errors of either IP version, and of the aborted and banned requests, is the number of its events
  -- modulo 2^64.
  pub after-IsCounted : (es : List Event) → IsCounted (after es) es
  after-IsCounted [] = ground arith
  after-IsCounted (e ∷ es) = handle_event-IsCounted e (after es) es (after-IsCounted es)

  forget-handle_event :
      (e : Event) (m : Metrics) → forget (handle_event R e m) ≡ forget (handle_event R e (forget m))
  unfolding handle_event
  forget-handle_event udp_request_aborted m = refl
  forget-handle_event udp_request_banned m = refl
  forget-handle_event udp4_request m = refl
  forget-handle_event udp4_connect m = refl
  forget-handle_event udp4_announce m = refl
  forget-handle_event udp4_scrape m = refl
  forget-handle_event (udp4_response UdpResponseKind.connect t) m = refl
  forget-handle_event (udp4_response UdpResponseKind.announce t) m = refl
  forget-handle_event (udp4_response UdpResponseKind.scrape t) m = refl
  forget-handle_event (udp4_response UdpResponseKind.error t) m = refl
  forget-handle_event udp4_error m = refl
  forget-handle_event udp6_request m = refl
  forget-handle_event udp6_connect m = refl
  forget-handle_event udp6_announce m = refl
  forget-handle_event udp6_scrape m = refl
  forget-handle_event (udp6_response k t) m = refl
  forget-handle_event udp6_error m = refl

  forget-response :
      (e : Event) (m : Metrics) → is_other e ≡ false → forget (handle_event R e m) ≡ forget m
  unfolding handle_event
  forget-response (udp6_response k t) m h = refl
  forget-response e m h = cc

  -- The processing times of IPv6 responses count for nothing: after any events the metrics are those
  -- after the same events without the IPv6 responses, apart from the number of these.
  pub after-ignores_udp6_times :
      (es : List Event) → forget (after es) ≡ forget (after (filter_b is_other es))
  after-ignores_udp6_times [] = refl
  after-ignores_udp6_times (e ∷ es) = elim (Bool-cases (is_other e)) [
    | inl other ↦ rw other (
        forget-handle_event e (after es)
        ∙ ap (λ m. forget (handle_event R e m)) (after-ignores_udp6_times es)
        ∙ sym (forget-handle_event e (after (filter_b is_other es))))
    | inr response ↦
        rw response (forget-response e (after es) response ∙ after-ignores_udp6_times es)
  ]
