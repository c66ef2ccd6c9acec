-- ===== src/Udp/Banning/Laws.antt =====
-- Which addresses are banned, after any sequence of errors and resets.
use torrust_tracker.Prelude.{
  ℕ, ◌+◌, ◌%◌, ◌^◌, ◌≤◌, ◌<◌, false, ◌≡◌, refl, List, [], ◌∷◌, arith, ltb,
}
use torrust_tracker.HashMap
use torrust_tracker.HashMap.Laws.{get-insert}
use torrust_tracker.Primitives.Net.{IpAddr, ip_eq_iff}
use torrust_tracker.Udp.Banning.{
  CountingBloomFilter, BanService, ip_eq_instance, count, new, count_or_zero, increase_counter,
  get_count, is_banned, reset_bans,
}

-- What happens to the service.
pub data Event : Type 0 where
  error_from : IpAddr → Event
  reset : Event

-- The errors since the last reset, newest first, of the events newest first.
abbrev pub errors : List Event → List IpAddr
errors [] = []
errors (error_from ip ∷ es) = ip ∷ errors es
errors (reset ∷ es) = []

module _ (B : CountingBloomFilter) (limit : ℕ) where
  -- The service after the events, newest first.
  abbrev pub after : List Event → BanService B
  after [] = new B limit
  after (error_from ip ∷ es) = increase_counter B (after es) ip
  after (reset ∷ es) = reset_bans B (after es)

  limit-after : (es : List Event) → (after es).max_connection_id_errors_per_ip ≡ limit
  unfolding new increase_counter reset_bans
  limit-after [] = refl
  limit-after (error_from ip ∷ es) = limit-after es
  limit-after (reset ∷ es) = limit-after es

  inserted-after : (es : List Event) → B.inserted (errors es) (after es).fuzzy_error_counter
  unfolding new increase_counter reset_bans
  inserted-after [] = B.fresh_lem
  inserted-after (error_from ip ∷ es) =
      B.insert_lem (errors es) ip (after es).fuzzy_error_counter (inserted-after es)
  inserted-after (reset ∷ es) = B.clear_lem (after es).fuzzy_error_counter

  -- The exact counter of an address holds its errors since the last reset, modulo 2^32.
  pub get_count-after :
      (es : List Event) (ip : IpAddr)
      → count_or_zero B (get_count B (after es) ip) ≡ count ip (errors es) % 2 ^ 32
  unfolding new increase_counter reset_bans get_count HashMap.get
  get_count-after [] ip = refl
  get_count-after (error_from a ∷ es) ip =
      let n = (count_or_zero B (get_count B (after es) a) + 1) % 2 ^ 32 in
      ground (
        arith,
        get_count-after es ip,
        get-insert a ip n (after es).accurate_error_counter,
        ip_eq_iff ip a,
      )
  get_count-after (reset ∷ es) ip = refl

  -- With a limit below the saturation of the filter, an address is banned exactly if it made more
  -- errors since the last reset than the limit, provided that these were fewer than 2^32.
  pub is_banned-after :
      (es : List Event) (ip : IpAddr)
      → limit < B.saturation
      → count ip (errors es) < 2 ^ 32
      → is_banned B (after es) ip ≡ ltb limit (count ip (errors es))
  unfolding is_banned
  is_banned-after es ip low few = ground (
    arith,
    limit-after es,
    get_count-after es ip,
    B.estimate_low (errors es) ip (after es).fuzzy_error_counter (inserted-after es),
  )

  -- With a limit at or above the saturation of the filter no address is ever banned.
  pub is_banned-after_saturated :
      (es : List Event) (ip : IpAddr) → B.saturation ≤ limit → is_banned B (after es) ip ≡ false
  unfolding is_banned
  is_banned-after_saturated es ip high =
      ground (arith, limit-after es, B.estimate_high ip (after es).fuzzy_error_counter)
