-- ===== src/Primitives/Metrics.antt =====
-- packages/primitives/src/swarm_metadata.rs, torrent_metrics.rs and pagination.rs.
use torrust_tracker.Prelude.{
  ℕ, ◌+◌, ◌%◌, ◌^◌, Bool, ◌&&◌, Option, none, some, ◌≡◌, ◌↔◌, arith, ◌==◌,
}

pub record SwarmMetadata : Type 0 where
  pub downloaded : ℕ
  pub complete : ℕ
  pub incomplete : ℕ

abbrev pub zeroed : SwarmMetadata
zeroed = record { downloaded = 0; complete = 0; incomplete = 0 }

-- The derived `PartialEq`.
abbrev pub metadata_eq : SwarmMetadata → SwarmMetadata → Bool
metadata_eq a b =
    a.downloaded == b.downloaded && (a.complete == b.complete && a.incomplete == b.incomplete)

pub metadata_eq_iff : (a b : SwarmMetadata) → (metadata_eq a b ≡ Bool.true) ↔ (a ≡ b)
metadata_eq_iff a b = ground arith

pub record TorrentsMetrics : Type 0 where
  pub complete : ℕ
  pub downloaded : ℕ
  pub incomplete : ℕ
  pub torrents : ℕ

-- `TorrentsMetrics::default()`
abbrev pub no_metrics : TorrentsMetrics
no_metrics = record { complete = 0; downloaded = 0; incomplete = 0; torrents = 0 }

-- `AddAssign`: `u64` sums, with the wrap-around of the release build.
unfoldable pub add_assign : TorrentsMetrics → TorrentsMetrics → TorrentsMetrics
add_assign a b = record {
  complete = (a.complete + b.complete) % 2 ^ 64;
  downloaded = (a.downloaded + b.downloaded) % 2 ^ 64;
  incomplete = (a.incomplete + b.incomplete) % 2 ^ 64;
  torrents = (a.torrents + b.torrents) % 2 ^ 64;
}

pub record Pagination : Type 0 where
  pub offset : ℕ
  pub limit : ℕ

abbrev pub default_offset : ℕ
default_offset = 0

abbrev pub default_limit : ℕ
default_limit = 4000

unfoldable pub new_with_options : Option ℕ → Option ℕ → Pagination
new_with_options offset_option limit_option = record {
  offset = elim offset_option [ some offset ↦ offset | none ↦ default_offset ];
  limit = elim limit_option [ some limit ↦ limit | none ↦ default_limit ];
}
