-- ===== src/Api/Torrent.antt =====
-- src/servers/apis/v1/context/torrent/handlers.rs: the handlers of the torrents. `from_str` reads an
-- info hash; it is of the crate bittorrent_primitives.
pub mod Laws
use torrust_tracker.Prelude.{ℕ, Option, none, some, List, [], ◌∷◌, Result, ok, err, Text}
use torrust_tracker.Primitives.Metrics.{new_with_options}
use torrust_tracker.TrackerCore.InMemory.{InMemoryTorrentRepository}
use torrust_tracker.TrackerCore.Torrents.{get_torrent_info, get_torrents_page, get_torrents}
use torrust_tracker.Api.Middleware.{
  Response, invalid_info_hash_param, torrent_info_response, torrent_list_response,
  torrent_not_known_response,
}

pub record QueryParams : Type 0 where
  pub offset : Option ℕ
  pub limit : Option ℕ
  pub info_hashes : List Text

pub data QueryParamError : Type 0 where
  invalid_info_hash : Text → QueryParamError

module _ (E : Type 0) (from_str : Text → Option ℕ) where
  unfoldable pub get_torrent_handler : InMemoryTorrentRepository → Text → Response E
  get_torrent_handler r info_hash = elim (from_str info_hash) [
    | none ↦ invalid_info_hash_param info_hash
    | some k ↦ elim (get_torrent_info r k) [
      | some info ↦ torrent_info_response info
      | none ↦ torrent_not_known_response
    ]
  ]

  -- The loop of `parse_info_hashes`, with the info hashes that were read.
  abbrev pushed : ℕ → Result QueryParamError (List ℕ) → Result QueryParamError (List ℕ)
  pushed k (ok rest) = ok (k ∷ rest)
  pushed k (err e) = err e

  unfoldable pub parse_info_hashes : List Text → Result QueryParamError (List ℕ)
  parse_info_hashes [] = ok []
  parse_info_hashes (t ∷ texts) =
      let rest = parse_info_hashes texts in
      elim (from_str t) [ none ↦ err (invalid_info_hash t) | some k ↦ pushed k rest ]

  abbrev listed : InMemoryTorrentRepository → Result QueryParamError (List ℕ) → Response E
  listed r (ok info_hashes) = torrent_list_response (get_torrents r info_hashes)
  listed r (err (invalid_info_hash t)) = invalid_info_hash_param t

  abbrev page_or_listed : InMemoryTorrentRepository → Option ℕ → Option ℕ → List Text → Response E
  page_or_listed r offset limit [] =
      torrent_list_response (get_torrents_page r (some (new_with_options offset limit)))
  page_or_listed r offset limit (t ∷ texts) = listed r (parse_info_hashes (t ∷ texts))

  unfoldable pub get_torrents_handler : InMemoryTorrentRepository → QueryParams → Response E
  unfolding parse_info_hashes
  get_torrents_handler r params = page_or_listed r params.offset params.limit params.info_hashes
