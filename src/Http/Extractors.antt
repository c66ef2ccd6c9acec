-- ===== src/Http/Extractors.antt =====
-- src/servers/http/v1/extractors: what is taken from the URL of a request. The extractors of the web
-- framework stand around these functions; `PathRejection` is its enum, of which the code tells two
-- kinds apart.
pub mod RoundTrip
use torrust_tracker.Prelude.{Option, none, some, Result, ok, err, Text}
use torrust_tracker.TrackerCore.Authentication.Key
use torrust_tracker.TrackerCore.Authentication.Key.{Key}
use torrust_tracker.Http.Query.{MultiMap, ParseQueryError, from_str}
use torrust_tracker.Http.AnnounceRequest.{
  Decoder, Announce, ParseAnnounceQueryError, announce_of_query,
}
use torrust_tracker.Http.ScrapeRequest.{Scrape, ParseScrapeQueryError, scrape_of_query}

-- `no_query` is the `MissingParams` of either request.
pub data Failure {ℓ} (E : Type ℓ) : Type ℓ where
  no_query : Failure E
  invalid_query : ParseQueryError → Failure E
  invalid_request : E → Failure E

pub data AuthError : Type 0 where
  missing_auth_key invalid_key_format cannot_extract_key_param : AuthError

pub data PathRejection : Type 0 where
  failed_to_deserialize_path_params missing_path_params other : PathRejection

module _ (C : Decoder) (D : MultiMap) where
  unfoldable pub extract_announce_from :
      Option Text → Result (Failure (ParseAnnounceQueryError C)) Announce
  extract_announce_from none = err no_query
  extract_announce_from (some raw_query) = elim (from_str D raw_query) [
    | err e ↦ err (invalid_query e)
    | ok query ↦ elim (announce_of_query C D query) [
      | err e ↦ err (invalid_request e)
      | ok announce_request ↦ ok announce_request
    ]
  ]

  unfoldable pub extract_scrape_from :
      Option Text → Result (Failure (ParseScrapeQueryError C)) Scrape
  extract_scrape_from none = err no_query
  extract_scrape_from (some raw_query) = elim (from_str D raw_query) [
    | err e ↦ err (invalid_query e)
    | ok query ↦ elim (scrape_of_query C D query) [
      | err e ↦ err (invalid_request e)
      | ok scrape_request ↦ ok scrape_request
    ]
  ]

unfoldable pub parse_key : Text → Result AuthError Key
parse_key key = elim (Key.new key) [ ok k ↦ ok k | err e ↦ err invalid_key_format ]

unfoldable pub custom_error : PathRejection → AuthError
custom_error failed_to_deserialize_path_params = invalid_key_format
custom_error missing_path_params = missing_auth_key
custom_error other = cannot_extract_key_param

unfoldable pub extract_key : Result PathRejection Text → Result AuthError Key
unfolding parse_key custom_error
extract_key (ok key_param) = parse_key key_param
extract_key (err path_rejection) = err (custom_error path_rejection)
