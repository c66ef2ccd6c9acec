-- ===== src/Udp/Banning.antt =====
-- src/servers/udp/server/banning.rs: the service that bans addresses with too many wrong connection
-- ids. The counting Bloom filter is a crate, and an interface here; the time of the last reset is
-- written and never read, and is left out.
pub mod Laws
use torrust_tracker.Prelude.{
  ℕ, suc, ◌+◌, ◌%◌, ◌^◌, ◌≤◌, ◌<◌, min, Bool, false, ◌≡◌, Option, none, some, List, [], ◌∷◌,
  if◌then◌else◌, leb, ltb, Eq, length, to_nat,
}
use torrust_tracker.HashMap
use torrust_tracker.HashMap.{HashMap}
use torrust_tracker.Primitives.Net.{IpAddr, ip_eq, ip_eq_iff}

instance abbrev pub ip_eq_instance : Eq IpAddr
ip_eq_instance = record { beq = ip_eq; beq_iff = ip_eq_iff }

-- How often an address stands in a list.
abbrev pub count : IpAddr → List IpAddr → ℕ
count ip [] = 0
count ip (a ∷ l) = to_nat (ip_eq ip a) + count ip l

-- A counting Bloom filter whose counters stop at `saturation`. Its documented behaviour, over the
-- addresses inserted since it was made or cleared: the estimate never falls short of the number of
-- insertions, up to the saturation, and never passes the saturation.
pub record CountingBloomFilter : Type 1 where
  pub Filter : Type 0
  pub saturation : ℕ
  pub fresh : Filter
  pub insert : IpAddr → Filter → Filter
  pub estimate_count : IpAddr → Filter → ℕ
  pub clear : Filter → Filter
  pub inserted : List IpAddr → Filter → Type 0
  pub fresh_lem : inserted [] fresh
  pub insert_lem :
      (l : List IpAddr) (a : IpAddr) (f : Filter) → inserted l f → inserted (a ∷ l) (insert a f)
  pub clear_lem : (f : Filter) → inserted [] (clear f)
  pub estimate_low :
      (l : List IpAddr) (a : IpAddr) (f : Filter)
      → inserted l f
      → min (count a l) saturation ≤ estimate_count a f
  pub estimate_high : (a : IpAddr) (f : Filter) → estimate_count a f ≤ saturation

module _ (B : CountingBloomFilter) where
  pub record BanService : Type 0 where
    pub max_connection_id_errors_per_ip : ℕ
    pub fuzzy_error_counter : B.Filter
    pub accurate_error_counter : HashMap IpAddr ℕ

  unfoldable pub new : ℕ → BanService
  new max_errors = record {
    max_connection_id_errors_per_ip = max_errors;
    fuzzy_error_counter = B.fresh;
    accurate_error_counter = [];
  }

  -- `entry(ip).or_insert(0)`
  abbrev pub count_or_zero : Option ℕ → ℕ
  count_or_zero none = 0
  count_or_zero (some n) = n

  -- The counter is a `u32`, and wraps as in the release build.
  unfoldable pub increase_counter : BanService → IpAddr → BanService
  increase_counter s ip = record s {
    fuzzy_error_counter = B.insert ip s.fuzzy_error_counter;
    accurate_error_counter =
        HashMap.insert ip ((count_or_zero (HashMap.get ip s.accurate_error_counter) + 1) % 2 ^ 32)
          s.accurate_error_counter;
  }

  unfoldable pub get_count : BanService → IpAddr → Option ℕ
  get_count s ip = HashMap.get ip s.accurate_error_counter

  unfoldable pub get_banned_ips_total : BanService → ℕ
  get_banned_ips_total s = length s.accurate_error_counter

  unfoldable pub get_estimate_count : BanService → IpAddr → ℕ
  get_estimate_count s ip = B.estimate_count ip s.fuzzy_error_counter

  -- The match on the exact counter.
  abbrev over : ℕ → Option ℕ → Bool
  over limit (some count) = ltb limit count
  over limit none = false

  unfoldable pub is_banned : BanService → IpAddr → Bool
  unfolding get_count
  is_banned s ip =
      if leb (B.estimate_count ip s.fuzzy_error_counter) s.max_connection_id_errors_per_ip
      then false
      else over s.max_connection_id_errors_per_ip (get_count s ip)

  unfoldable pub reset_bans : BanService → BanService
  reset_bans s = record s {
    fuzzy_error_counter = B.clear s.fuzzy_error_counter;
    accurate_error_counter = [];
  }
