-- ===== src/Http/Extractors/RoundTrip.antt =====
-- The announce request that a client writes into a URL is the one that the extractor takes from it.
use torrust_tracker.Prelude.{◌≡◌, refl, true, ◌∷◌, some, arith, ok, Text, all_b}
use torrust_tracker.Primitives.Peer.{id_of_bytes}
use torrust_tracker.Http.Query.{MultiMap}
use torrust_tracker.Http.Query.RoundTrip.{is_plain, show_query, from_str-show_query}
use torrust_tracker.Http.AnnounceRequest.{Decoder, Announce}
use torrust_tracker.Http.AnnounceRequest.Written.{
  InRange, first_param, other_params, other_params-IsPlain,
}
use torrust_tracker.Http.AnnounceRequest.Laws.{announce_of_query-written}
use torrust_tracker.Http.Extractors.{extract_announce_from}

module _ (C : Decoder) (D : MultiMap) (info_hash peer_id : Text) (a : Announce) where
  -- A client writes an announce request as a query string: its info hash and its peer id by texts
  -- without white space, `&` and `=` that decode to them, its numbers in decimal digits, its event by
  -- name and `compact` as 1 or 0, each of the optional fields only if it is there. If the numbers are
  -- in the range of their fields, the extractor takes from that string the same request.
  pub extract_announce_from-show_query :
      all_b is_plain info_hash ≡ true
      → all_b is_plain peer_id ≡ true
      → C.info_hash_of_bytes (C.percent_decode info_hash) ≡ ok a.info_hash
      → id_of_bytes (C.percent_decode peer_id) ≡ ok a.peer_id
      → InRange a
      → extract_announce_from C D
          (some (show_query (first_param info_hash ∷ other_params peer_id a)))
        ≡ ok a
  unfolding extract_announce_from
  extract_announce_from-show_query plain_hash plain_id hash id range = ground (
    arith,
    from_str-show_query D (first_param info_hash) (other_params peer_id a) (
      record { name = refl; value = plain_hash; no_mark = refl },
      other_params-IsPlain peer_id a plain_id,
    ),
    announce_of_query-written C D info_hash peer_id a hash id range,
  )
