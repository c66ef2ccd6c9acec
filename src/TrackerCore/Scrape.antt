-- ===== src/TrackerCore/Scrape.antt =====
-- packages/tracker-core/src/scrape_handler.rs.
pub mod Laws
use torrust_tracker.Prelude.{ℕ, List, [], ◌∷◌, Result, ok, err}
use torrust_tracker.Primitives.Metrics.{SwarmMetadata, zeroed}
use torrust_tracker.Primitives.Core.{ScrapeData, empty, add_file}
use torrust_tracker.Configuration.{Core}
use torrust_tracker.TrackerCore.InMemory
use torrust_tracker.TrackerCore.InMemory.{InMemoryTorrentRepository}
use torrust_tracker.TrackerCore.Whitelist.{InMemoryWhitelist, authorize}

pub record ScrapeHandler : Type 0 where
  pub config : Core
  pub whitelist : InMemoryWhitelist
  pub torrents : InMemoryTorrentRepository

-- What is shown of one torrent.
unfoldable pub shown : ScrapeHandler → ℕ → SwarmMetadata
shown s info_hash = elim (authorize s.config s.whitelist info_hash) [
  | ok u ↦ InMemory.get_swarm_metadata s.torrents info_hash
  | err e ↦ zeroed
]

-- The loop of `scrape`.
unfoldable pub scrape_each : ScrapeHandler → ScrapeData → List ℕ → ScrapeData
unfolding shown
scrape_each s scrape_data [] = scrape_data
scrape_each s scrape_data (info_hash ∷ rest) =
    scrape_each s (add_file scrape_data info_hash (shown s info_hash)) rest

unfoldable pub scrape : ScrapeHandler → List ℕ → ScrapeData
unfolding scrape_each
scrape s info_hashes = scrape_each s empty info_hashes
