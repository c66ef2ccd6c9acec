-- ===== src/Http/ScrapeRequest.antt =====
-- packages/http-protocol/src/v1/requests/scrape.rs: the scrape request that is read from a query.
pub mod Laws
use torrust_tracker.Prelude.{ℕ, Option, none, some, List, [], ◌∷◌, Result, ok, err, Text, ◌>>=◌}
use torrust_tracker.Http.Query.{MultiMap, Query, get_param_vec}
use torrust_tracker.Http.AnnounceRequest.{Decoder, info_hash_name}

pub record Scrape : Type 0 where
  pub info_hashes : List ℕ

pub data ParseScrapeQueryError (C : Decoder) : Type 0 where
  missing_param : Text → ParseScrapeQueryError C
  invalid_info_hash_param : Text → Text → C.ConversionError → ParseScrapeQueryError C

-- `percent_decode_info_hash`
unfoldable pub percent_decode_info_hash : (C : Decoder) → Text → Result C.ConversionError ℕ
percent_decode_info_hash C raw_info_hash = C.info_hash_of_bytes (C.percent_decode raw_info_hash)

module _ {C : Decoder} where
  abbrev decoded : Text → Result C.ConversionError ℕ → Result (ParseScrapeQueryError C) ℕ
  decoded raw_param (ok info_hash) = ok info_hash
  decoded raw_param (err e) = err (invalid_info_hash_param info_hash_name raw_param e)

  -- The loop of `extract_info_hashes`: the first parameter that is invalid ends it.
  unfoldable pub extract_each : List Text → Result (ParseScrapeQueryError C) (List ℕ)
  unfolding percent_decode_info_hash
  extract_each [] = ok []
  extract_each (raw_param ∷ raw_params) = do
    info_hash ← decoded raw_param (percent_decode_info_hash C raw_param)
    info_hashes ← extract_each raw_params
    ok (info_hash ∷ info_hashes)

  unfoldable pub extract_info_hashes :
      Option (List Text) → Result (ParseScrapeQueryError C) (List ℕ)
  unfolding extract_each
  extract_info_hashes (some raw_params) = extract_each raw_params
  extract_info_hashes none = err (missing_param info_hash_name)

-- `TryFrom<Query> for Scrape`
unfoldable pub scrape_of_query :
    (C : Decoder) (D : MultiMap) → Query D → Result (ParseScrapeQueryError C) Scrape
unfolding extract_info_hashes
scrape_of_query C D q = do
  info_hashes ← extract_info_hashes (get_param_vec D q info_hash_name)
  ok (record { info_hashes = info_hashes })
