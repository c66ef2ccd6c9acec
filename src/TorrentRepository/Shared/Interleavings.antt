-- ===== src/TorrentRepository/Shared/Interleavings.antt =====
-- Concurrent announces on the map behind a read-write lock.
use torrust_tracker.Prelude.{
  ℕ, ◌<◌, ◌≡◌, refl, Option, none, some, arith, if◌then◌else◌, ◌==◌, inl, inr, Option-cases,
}
use torrust_tracker.OrderedMap
use torrust_tracker.OrderedMap.{Map}
use torrust_tracker.OrderedMap.Laws.{lookup-insert}
use torrust_tracker.Primitives.Peer.{Peer}
use torrust_tracker.TorrentRepository.Entry
use torrust_tracker.TorrentRepository.Entry.{Torrent}
use torrust_tracker.TorrentRepository.Shared.{
  SharedMap, entry_at, torrent_of, upsert_at, insert_default, or_insert,
}
use torrust_tracker.TorrentRepository.Shared.Locked.{Upsert, begun, missing, holding, done, advance}

-- Two torrents never share an entry, and every entry of the map was allocated.
pub record IsSeparate (s : SharedMap) : Type 0 where
  pub allocated : (h a : ℕ) → OrderedMap.lookup h s.torrents ≡ some a → a < s.allocated
  pub injective :
      (h k a : ℕ)
      → OrderedMap.lookup h s.torrents ≡ some a
      → OrderedMap.lookup k s.torrents ≡ some a
      → h ≡ k

-- An announce that has an entry has that of the map.
abbrev pub IsCurrent : SharedMap → Upsert → Type 0
IsCurrent s (holding h a p) = OrderedMap.lookup h s.torrents ≡ some a
IsCurrent s (begun h p) = Unit
IsCurrent s (missing h p) = Unit
IsCurrent s done = Unit

-- What a step commits.
abbrev pub committed : Upsert → Option (ℕ × Peer)
committed (holding h a p) = some (h, p)
committed (begun h p) = none
committed (missing h p) = none
committed done = none

abbrev pub apply : Option (ℕ × Peer) → ℕ → Torrent → Torrent
apply none j t = t
apply (some (h, p)) j t = if j == h then (Entry.upsert_peer t p).0 else t

module _ (s : SharedMap) (separate : IsSeparate s) where
  torrent_of-upsert_at :
      (h a : ℕ) (p : Peer) (j : ℕ)
      → OrderedMap.lookup h s.torrents ≡ some a
      → torrent_of (upsert_at s a p) j ≡ apply (some (h, p)) j (torrent_of s j)
  unfolding torrent_of upsert_at
  torrent_of-upsert_at h a p j here = elim (Option-cases (OrderedMap.lookup j s.torrents)) [
    | inl gone ↦ ground (arith, lookup-insert a a (Entry.upsert_peer (entry_at s a) p).0 s.entries)
    | inr (b, found) ↦ ground (
      arith,
      lookup-insert a b (Entry.upsert_peer (entry_at s a) p).0 s.entries,
      separate.injective h j a here,
    )
  ]

  insert_default-IsSeparate :
      (h : ℕ) → OrderedMap.lookup h s.torrents ≡ none → IsSeparate (insert_default s h)
  unfolding insert_default
  insert_default-IsSeparate h absent = record {
    allocated = λ k a found.
        ground (arith, lookup-insert h k s.allocated s.torrents, separate.allocated k a);
    injective = λ j k a here there. ground (
      arith,
      lookup-insert h j s.allocated s.torrents,
      lookup-insert h k s.allocated s.torrents,
      separate.injective j k a,
      separate.allocated j a,
      separate.allocated k a,
    );
  }

  -- A new entry for a torrent that is not there changes no torrent.
  torrent_of-insert_default :
      (h j : ℕ)
      → OrderedMap.lookup h s.torrents ≡ none
      → torrent_of (insert_default s h) j ≡ torrent_of s j
  unfolding torrent_of insert_default
  torrent_of-insert_default h j absent = elim (Option-cases (OrderedMap.lookup j s.torrents)) [
    | inl gone ↦ ground (
      arith,
      lookup-insert h j s.allocated s.torrents,
      lookup-insert s.allocated s.allocated Entry.default s.entries,
    )
    | inr (b, found) ↦ ground (
      arith,
      lookup-insert h j s.allocated s.torrents,
      lookup-insert s.allocated b Entry.default s.entries,
      separate.allocated j b found,
    )
  ]

  -- What a step does to the torrents is what it commits.
  pub torrent_of-advance :
      (t : Upsert) (j : ℕ)
      → IsCurrent s t
      → torrent_of (advance s t).0 j ≡ apply (committed t) j (torrent_of s j)
  unfolding advance
  torrent_of-advance (begun h p) j now = ground arith
  torrent_of-advance (missing h p) j now = ground (arith, torrent_of-insert_default h j)
  torrent_of-advance (holding h a p) j now = torrent_of-upsert_at h a p j now
  torrent_of-advance done j now = refl

  pub IsSeparate-advance : (t : Upsert) → IsSeparate (advance s t).0
  unfolding advance upsert_at
  IsSeparate-advance (begun h p) = elim (Option-cases (OrderedMap.lookup h s.torrents)) [
    | inl gone ↦ rw (gone, advance, or_insert) separate
    | inr (a, found) ↦ rw (found, advance, or_insert) separate
  ]
  IsSeparate-advance (missing h p) = elim (Option-cases (OrderedMap.lookup h s.torrents)) [
    | inl gone ↦ rw (gone, advance, or_insert) (insert_default-IsSeparate h gone)
    | inr (a, found) ↦ rw (found, advance, or_insert) separate
  ]
  IsSeparate-advance (holding h a p) = record {
    allocated = separate.allocated;
    injective = separate.injective;
  }
  IsSeparate-advance done = separate

  -- An entry that stands in the map stays there.
  lookup-advance :
      (t : Upsert) (h a : ℕ)
      → OrderedMap.lookup h s.torrents ≡ some a
      → OrderedMap.lookup h (advance s t).0.torrents ≡ some a
  unfolding advance upsert_at insert_default
  lookup-advance (begun k p) h a found = ground arith
  lookup-advance (missing k p) h a found = ground (arith, lookup-insert k h s.allocated s.torrents)
  lookup-advance (holding k b p) h a found = found
  lookup-advance done h a found = found

  pub IsCurrent-others : (t u : Upsert) → IsCurrent s u → IsCurrent (advance s t).0 u
  IsCurrent-others t (begun h p) now = tt
  IsCurrent-others t (missing h p) now = tt
  IsCurrent-others t (holding h a p) now = lookup-advance t h a now
  IsCurrent-others t done now = tt

  pub IsCurrent-advance : (t : Upsert) → IsCurrent (advance s t).0 (advance s t).1
  unfolding advance insert_default
  IsCurrent-advance (begun h p) = elim (Option-cases (OrderedMap.lookup h s.torrents)) [
    | inl gone ↦ rw (gone, advance, IsCurrent) tt
    | inr (a, found) ↦ rw (found, advance, IsCurrent) (lookup-advance (begun h p) h a found)
  ]
  IsCurrent-advance (missing h p) = elim (Option-cases (OrderedMap.lookup h s.torrents)) [
    | inl gone ↦
        rw (gone, advance, or_insert, IsCurrent)
          (ground (arith, lookup-insert h h s.allocated s.torrents))
    | inr (a, found) ↦ rw (found, advance, or_insert, IsCurrent) found
  ]
  IsCurrent-advance (holding h a p) = tt
  IsCurrent-advance done = tt
