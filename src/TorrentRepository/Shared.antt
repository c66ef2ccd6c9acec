-- ===== src/TorrentRepository/Shared.antt =====
-- packages/torrent-repository/src/repository/rw_lock_std_mutex_std.rs and dash_map_mutex_std.rs: maps of
-- shared entries, where an announce takes one lock after another. A map leads from info hashes to
-- the places of the entries, as `Arc` does, and an announce that is under way is a value that says
-- what it does next; a step is what it does under one lock.
pub mod Locked
pub mod Dash
pub mod Interleavings
pub mod Schedules
pub mod Lost
use torrust_tracker.Prelude.{ℕ, suc, Option, none, some, List, [], ◌∷◌, Bool, true, false}
use torrust_tracker.OrderedMap
use torrust_tracker.OrderedMap.{Map}
use torrust_tracker.Primitives.Peer.{Peer}
use torrust_tracker.Configuration.{TrackerPolicy}
use torrust_tracker.TorrentRepository.Entry
use torrust_tracker.TorrentRepository.Entry.{Torrent}
use torrust_tracker.TorrentRepository.Repository.{value_or}

-- `allocated` is the place of the next entry.
pub record SharedMap : Type 0 where
  pub torrents : Map ℕ
  pub entries : Map Torrent
  pub allocated : ℕ

unfoldable pub entry_at : SharedMap → ℕ → Torrent
entry_at s place = value_or Entry.default (OrderedMap.lookup place s.entries)

abbrev at_place : SharedMap → Option ℕ → Torrent
at_place s none = Entry.default
at_place s (some place) = entry_at s place

-- The torrent that stands in the map, or an empty one.
unfoldable pub torrent_of : SharedMap → ℕ → Torrent
unfolding entry_at
torrent_of s info_hash = at_place s (OrderedMap.lookup info_hash s.torrents)

-- `upsert_peer` of the entry, under its mutex.
unfoldable pub upsert_at : SharedMap → ℕ → Peer → SharedMap
unfolding entry_at
upsert_at s place peer = record s {
  entries = OrderedMap.insert place (Entry.upsert_peer (entry_at s place) peer).0 s.entries;
}

-- A new entry, put into the map in place of what stands there.
unfoldable pub insert_default : SharedMap → ℕ → SharedMap
insert_default s info_hash = record {
  torrents = OrderedMap.insert info_hash s.allocated s.torrents;
  entries = OrderedMap.insert s.allocated Entry.default s.entries;
  allocated = suc s.allocated;
}

-- `db.entry(h).or_insert(Arc::default())`
unfoldable pub or_insert : SharedMap → ℕ → SharedMap × ℕ
unfolding insert_default
or_insert s info_hash = elim (OrderedMap.lookup info_hash s.torrents) [
  | some place ↦ (s, place)
  | none ↦ (insert_default s info_hash, s.allocated)
]

-- `remove`, as `remove_peerless_torrents` does it: the entry stays where an announce holds it.
unfoldable pub remove : SharedMap → ℕ → SharedMap
remove s info_hash = record s { torrents = OrderedMap.remove info_hash s.torrents }
