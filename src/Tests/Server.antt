-- ===== src/Tests/Server.antt =====
-- Examples of the theorems on the servers.
use torrust_tracker.Prelude.{
  ℕ, zero, suc, ◌+◌, ◌^◌, ◌-◌, ◌≤◌, Bool, true, false, ◌≡◌, refl, Option, none, some, List, [], ◌∷◌,
  arith, ok, codes, length, All,
}
use torrust_tracker.Primitives.Net.{v4}
use torrust_tracker.Primitives.Peer.{spelled, id_of_bytes}
use torrust_tracker.Udp.Banning.Laws.{Event, error_from, reset}
use torrust_tracker.Udp.ActiveRequests.{ActiveRequests, Schedule, capacity, force_push}
use torrust_tracker.Udp.ActiveRequests.Laws.{force_push_total}
use torrust_tracker.Http.Query.{NameValuePair, from_str, from_vec, show_pair}
use torrust_tracker.Http.Query.Text.{join}
use torrust_tracker.Http.Query.RoundTrip.{IsPlain, show_query, from_str-show_query}
use torrust_tracker.Http.AnnounceRequest.{Announce, started, accepted}
use torrust_tracker.Http.AnnounceRequest.Decimal.{put, decimal}
use torrust_tracker.Http.AnnounceRequest.Written.{InRange}
use torrust_tracker.Http.Extractors.{extract_announce_from}
use torrust_tracker.Http.Extractors.RoundTrip.{extract_announce_from-show_query}
use torrust_tracker.Tests.Stores.{list_map, plain_decoder}

abbrev events : List Event
events = error_from (v4 5) ∷ error_from (v4 5) ∷ error_from (v4 6) ∷ reset ∷ error_from (v4 5) ∷ []

-- The even tasks have finished.
abbrev schedule : Schedule
schedule = record { first = even; second = even; incoming = false }
  where
    even : ℕ → Bool
    even zero = true
    even (suc zero) = false
    even (suc (suc n)) = even n

abbrev from_to : ℕ → ℕ → List ℕ
from_to a zero = []
from_to a (suc n) = a ∷ from_to (a + 1) n

force_push_total_example :
    (s' : ActiveRequests) × (aborted : Option ℕ) × (force_push schedule
        (record { rb = from_to 1 50 })
        51
      ≡ some (s', aborted))
    × (length s'.rb ≤ capacity)
force_push_total_example = force_push_total schedule (record { rb = from_to 1 50 }) 51 (omega arith)

-- 1.5 and 2.5 as bit patterns are times, 1 and 4 their range.
abbrev one : ℕ
one = 4607182418800017408

abbrev one_and_a_half : ℕ
one_and_a_half = 4609434218613702656

abbrev four : ℕ
four = 4616189618054758400

abbrev pairs : List NameValuePair
pairs =
    record { name = codes "port"; value = codes "17548" }
    ∷ record { name = codes "event"; value = codes "started" }
    ∷ []

pairs-IsPlain : All IsPlain pairs
pairs-IsPlain = (
  record { name = refl; value = refl; no_mark = refl },
  (record { name = refl; value = refl; no_mark = refl }, tt),
)

from_str-show_query_example : from_str list_map (show_query pairs) ≡ ok (from_vec list_map pairs)
from_str-show_query_example =
    from_str-show_query list_map (record { name = codes "port"; value = codes "17548" })
      (record { name = codes "event"; value = codes "started" } ∷ []) pairs-IsPlain

-- An announce without the numbers of bytes that were moved.
abbrev request : Announce
request = record {
  info_hash = spelled 0 (codes "aaaaaaaaaaaaaaaaaaaa");
  peer_id = spelled 0 (codes "-qB00000000000000001");
  port = 17548;
  downloaded = none;
  uploaded = none;
  left = some (2 ^ 63 - 1);
  event = some started;
  compact = some accepted;
  numwant = some 50;
}

request-InRange : InRange request
request-InRange = record {
  port = omega arith;
  downloaded = tt;
  uploaded = tt;
  left = omega arith;
  numwant = omega arith;
}

extract_announce_from-show_query_example :
    extract_announce_from plain_decoder list_map (
      some (
        codes
          "info_hash=aaaaaaaaaaaaaaaaaaaa&peer_id=-qB00000000000000001&port=17548&left=9223372036854775807&event=started&compact=1&numwant=50"))
    ≡ ok request
unfolding join show_pair decimal put id_of_bytes
extract_announce_from-show_query_example =
    extract_announce_from-show_query plain_decoder list_map (codes "aaaaaaaaaaaaaaaaaaaa")
      (codes "-qB00000000000000001") request refl refl refl refl request-InRange
