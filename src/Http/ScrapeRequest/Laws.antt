-- ===== src/Http/ScrapeRequest/Laws.antt =====
-- Which torrents a scrape request asks for.
use torrust_tracker.Prelude.{ℕ, ◌≡◌, ◌↔◌, refl, some, List, [], ◌∷◌, ok, Text, map, arith}
use torrust_tracker.Http.Query.{MultiMap, Query, get_param_vec}
use torrust_tracker.Http.AnnounceRequest.{Decoder, info_hash_name}
use torrust_tracker.Http.ScrapeRequest.{percent_decode_info_hash, extract_each, scrape_of_query}

module _ (C : Decoder) where
  extract_each_ok :
      (raws : List Text) (hs : List ℕ)
      → extract_each {C = C} raws ≡ ok hs
      → map (percent_decode_info_hash C) raws ≡ map ok hs
  unfolding extract_each
  extract_each_ok [] hs h = ground arith
  extract_each_ok (raw ∷ raws) [] h = ground arith
  extract_each_ok (raw ∷ raws) (j ∷ hs) h = ground (arith, extract_each_ok raws hs)

  ok_extract_each :
      (raws : List Text) (hs : List ℕ)
      → map (percent_decode_info_hash C) raws ≡ map ok hs
      → extract_each {C = C} raws ≡ ok hs
  unfolding extract_each
  ok_extract_each [] [] h = refl
  ok_extract_each [] (j ∷ hs) h = ground arith
  ok_extract_each (raw ∷ raws) [] h = ground arith
  ok_extract_each (raw ∷ raws) (j ∷ hs) h = ground (arith, ok_extract_each raws hs)

-- A query is read as a scrape of some torrents exactly if it has the parameter, and the values of the
-- parameter decode to the info hashes of these torrents, one by one and in their order.
pub scrape_of_query-eq-ok_iff :
    (C : Decoder) (D : MultiMap) (q : Query D) (raws : List Text) (hs : List ℕ)
    → get_param_vec D q info_hash_name ≡ some raws
    → (scrape_of_query C D q ≡ ok (record { info_hashes = hs }))
      ↔ (map (percent_decode_info_hash C) raws ≡ map ok hs)
unfolding scrape_of_query
scrape_of_query-eq-ok_iff C D q raws hs found =
    ground (arith, extract_each_ok C raws hs, ok_extract_each C raws hs)
