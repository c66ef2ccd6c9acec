-- ===== src/TrackerCore/Scrape/Laws.antt =====
-- The answer to a scrape request.
use torrust_tracker.Prelude.{
  ℕ, ◌≡◌, refl, none, some, List, [], ◌∷◌, arith, if◌then◌else◌, ◌||◌, not,
}
use torrust_tracker.OrderedMap
use torrust_tracker.OrderedMap.Laws.{lookup-insert}
use torrust_tracker.Primitives.Metrics.{SwarmMetadata, zeroed}
use torrust_tracker.Primitives.Core.{ScrapeData, add_file}
use torrust_tracker.Primitives.Core as Data
use torrust_tracker.TrackerCore.InMemory
use torrust_tracker.TrackerCore.Whitelist.{has, contains, authorize}
use torrust_tracker.TrackerCore.Scrape.{ScrapeHandler, shown, scrape_each, scrape}

-- What a client may see of a torrent: its statistics, if the tracker has no whitelist or the torrent
-- is on it, and zeros otherwise.
abbrev pub visible : ScrapeHandler → ℕ → SwarmMetadata
visible s j =
    if not s.config.listed || contains s.whitelist j
    then InMemory.get_swarm_metadata s.torrents j
    else zeroed

shown-visible : (s : ScrapeHandler) (j : ℕ) → shown s j ≡ visible s j
unfolding shown authorize
shown-visible s j = ground arith

lookup-scrape_each :
    (s : ScrapeHandler) (d : ScrapeData) (hs : List ℕ) (j : ℕ)
    → OrderedMap.lookup j (scrape_each s d hs).files
      ≡ (if has j hs then some (shown s j) else OrderedMap.lookup j d.files)
unfolding scrape_each add_file
lookup-scrape_each s d [] j = refl
lookup-scrape_each s d (h ∷ hs) j = ground (
  arith,
  lookup-scrape_each s (add_file d h (shown s h)) hs j,
  lookup-insert h j (shown s h) d.files,
)

-- A scrape answers for exactly the torrents that it was asked for, each with what a client may see
-- of it.
pub lookup-scrape :
    (s : ScrapeHandler) (hs : List ℕ) (j : ℕ)
    → OrderedMap.lookup j (scrape s hs).files ≡ (if has j hs then some (visible s j) else none)
unfolding scrape OrderedMap.lookup
lookup-scrape s hs j = ground (arith, lookup-scrape_each s Data.empty hs j, shown-visible s j)
