-- ===== src/Primitives/Core.antt =====
-- packages/primitives/src/core.rs: the data of the announce and scrape responses. The hash map of
-- a scrape response is an ordered map here: who goes over its entries says in which order.
use torrust_tracker.Prelude.{ℕ, List, [], ◌∷◌}
use torrust_tracker.OrderedMap.{Map, insert}
use torrust_tracker.Primitives.Peer.{Peer}
use torrust_tracker.Primitives.Metrics.{SwarmMetadata, zeroed as zeroed_metadata}

-- packages/configuration/src/lib.rs
pub record AnnouncePolicy : Type 0 where
  pub interval : ℕ
  pub interval_min : ℕ

pub record AnnounceData : Type 0 where
  pub peers : List Peer
  pub stats : SwarmMetadata
  pub policy : AnnouncePolicy

pub record ScrapeData : Type 0 where
  pub files : Map SwarmMetadata

abbrev pub empty : ScrapeData
empty = record { files = [] }

unfoldable pub add_file : ScrapeData → ℕ → SwarmMetadata → ScrapeData
add_file d info_hash swarm_metadata = record { files = insert info_hash swarm_metadata d.files }

unfoldable pub add_zeroed : ScrapeData → List ℕ → ScrapeData
add_zeroed d [] = d
add_zeroed d (h ∷ hs) = add_zeroed (add_file d h zeroed_metadata) hs

-- `ScrapeData::zeroed`
unfoldable pub zeroed : List ℕ → ScrapeData
unfolding add_zeroed
zeroed info_hashes = add_zeroed empty info_hashes
