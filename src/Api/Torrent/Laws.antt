-- ===== src/Api/Torrent/Laws.antt =====
-- What the API lists of torrents agrees with what it shows of each of them.
use torrust_tracker.Prelude.{
  ℕ, ◌≡◌, ◌≤◌, refl, sym, Option, none, some, List, [], ◌∷◌, All, length, inl, inr, arith, Result,
  ok, err, Option-cases, Text,
}
use torrust_tracker.Primitives.Metrics.{new_with_options}
use torrust_tracker.TorrentRepository.Repository.Laws.{IsValid}
use torrust_tracker.TorrentRepository.Entry
use torrust_tracker.TrackerCore.InMemory
use torrust_tracker.TrackerCore.InMemory.{InMemoryTorrentRepository}
use torrust_tracker.TrackerCore.Torrents.{
  Info, BasicInfo, basic_info, get_torrent_info, get_torrents_page, get_torrents,
}
use torrust_tracker.TrackerCore.Torrents.Services.{IsShown, get_torrents_page_lem}
use torrust_tracker.Api.Middleware.{torrent_list_response}
use torrust_tracker.Api.Torrent.{
  QueryParams, QueryParamError, get_torrents_handler, parse_info_hashes, listed, page_or_listed,
  invalid_info_hash,
}

-- A query for the torrent of a row alone shows the same numbers.
abbrev pub Agrees : InMemoryTorrentRepository → BasicInfo → Type 0
Agrees r b =
    (i : Info) × (get_torrent_info r b.info_hash ≡ some i)
    × (i.seeders ≡ b.seeders)
    × (i.completed ≡ b.completed)
    × (i.leechers ≡ b.leechers)

IsShown-Agrees : (r : InMemoryTorrentRepository) (b : BasicInfo) → IsShown r b → Agrees r b
unfolding get_torrents get_torrent_info
IsShown-Agrees r b h = elim (Option-cases (InMemory.get r b.info_hash)) [
  | inl absent ↦ ground arith
  | inr (t, present) ↦ (
    record {
      info_hash = b.info_hash;
      seeders = (Entry.get_swarm_metadata t).complete;
      completed = (Entry.get_swarm_metadata t).downloaded;
      leechers = (Entry.get_swarm_metadata t).incomplete;
      peers = some (Entry.get_peers t none);
    },
    ground arith,
    ground arith,
    ground arith,
    ground arith,
  )
]

All-Agrees :
    (r : InMemoryTorrentRepository) (l : List BasicInfo) → All (IsShown r) l → All (Agrees r) l
All-Agrees r [] h = tt
All-Agrees r (b ∷ l) (here, later) = (IsShown-Agrees r b here, All-Agrees r l later)

get_torrents-Agrees :
    (r : InMemoryTorrentRepository) (hs : List ℕ) → All (Agrees r) (get_torrents r hs)
unfolding get_torrents
get_torrents-Agrees r [] = tt
get_torrents-Agrees r (h ∷ hs) = elim (Option-cases (InMemory.get r h)) [
  | inl absent ↦ rw absent (get_torrents-Agrees r hs)
  | inr (t, present) ↦ rw present (
    IsShown-Agrees r (basic_info h (Entry.get_swarm_metadata t)) (rw (present, get_torrents) refl),
    get_torrents-Agrees r hs,
  )
]

module _ (E : Type 0) (from_str : Text → Option ℕ) (r : InMemoryTorrentRepository) where
  listed-Agrees :
      (texts : Result QueryParamError (List ℕ)) (l : List BasicInfo)
      → listed E from_str r texts ≡ torrent_list_response l
      → All (Agrees r) l
  listed-Agrees (ok hs) l h =
      let e : get_torrents r hs ≡ l = cc in rw (sym e) (get_torrents-Agrees r hs)
  listed-Agrees (err (invalid_info_hash t)) l h = ground arith

  shown_lem :
      (offset limit : Option ℕ) (texts : List Text) (l : List BasicInfo)
      → IsValid r.torrents
      → page_or_listed E from_str r offset limit texts ≡ torrent_list_response l
      → All (Agrees r) l × (texts ≡ [] → length l ≤ (new_with_options offset limit).limit)
  shown_lem offset limit [] l v h =
      let (few, shown) = get_torrents_page_lem r (new_with_options offset limit) v in
      let e : get_torrents_page r (some (new_with_options offset limit)) ≡ l = cc in
      rw (sym e) (All-Agrees r _ shown, λ none. few)
  shown_lem offset limit (t ∷ texts) l v h =
      (listed-Agrees (parse_info_hashes E from_str (t ∷ texts)) l h, λ (q : t ∷ texts ≡ []). cc)

  -- From a valid repository, every row that the API lists, by page or by info hashes, has the
  -- numbers that it shows of that torrent alone; and a page has no more rows than its limit.
  pub get_torrents_handler-shows :
      (params : QueryParams) (l : List BasicInfo)
      → IsValid r.torrents
      → get_torrents_handler E from_str r params ≡ torrent_list_response l
      → All (Agrees r) l
        × (params.info_hashes ≡ [] → length l ≤ (new_with_options params.offset params.limit).limit)
  unfolding get_torrents_handler
  get_torrents_handler-shows params l v h =
      shown_lem params.offset params.limit params.info_hashes l v h
