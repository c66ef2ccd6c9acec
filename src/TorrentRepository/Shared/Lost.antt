-- ===== src/TorrentRepository/Shared/Lost.antt =====
-- Interleavings in which an announce is lost.
use torrust_tracker.Prelude.{
  ℕ, ◌≡◌, refl, Bool, true, false, none, some, List, [], ◌∷◌, arith, if◌then◌else◌,
}
use torrust_tracker.OrderedMap
use torrust_tracker.OrderedMap.Laws.{lookup-insert, lookup-remove}
use torrust_tracker.Primitives.Peer.{Peer}
use torrust_tracker.TorrentRepository.Entry
use torrust_tracker.TorrentRepository.Shared.{
  SharedMap, torrent_of, upsert_at, insert_default, remove,
}
use torrust_tracker.TorrentRepository.Shared.Locked
use torrust_tracker.TorrentRepository.Shared.Dash
use torrust_tracker.TorrentRepository.Shared.Dash.{Upsert, advance}

-- Two announces, of which a schedule says which goes on: `true` is the second.
abbrev pub interleave : List Bool → SharedMap → Upsert → Upsert → SharedMap
interleave [] s t u = s
interleave (b ∷ bs) s t u =
    let (s₁, t') = advance s t in
    let (s₂, u') = advance s u in
    let second = interleave bs s₂ t u' in
    let first = interleave bs s₁ t' u in if b then second else first

-- Both look the torrent up, then the first announce goes on to its end, then the second.
abbrev pub race : List Bool
race = false ∷ true ∷ false ∷ false ∷ true ∷ true ∷ []

begun_absent :
    (s : SharedMap) (h : ℕ) (p : Peer)
    → OrderedMap.lookup h s.torrents ≡ none
    → advance s (Dash.begun h p) ≡ (s, Dash.missing h p)
unfolding advance
begun_absent s h p absent = ground arith

missing_lem :
    (s : SharedMap) (h : ℕ) (p : Peer)
    → advance s (Dash.missing h p) ≡ (insert_default s h, Dash.inserted h p)
unfolding advance
missing_lem s h p = refl

inserted_lem :
    (s : SharedMap) (h : ℕ) (p : Peer)
    → advance (insert_default s h) (Dash.inserted h p)
      ≡ (upsert_at (insert_default s h) s.allocated p, Dash.done)
unfolding advance insert_default
inserted_lem s h p = ground (arith, lookup-insert h h s.allocated s.torrents)

inserted_torrent :
    (s : SharedMap) (h : ℕ) (p : Peer)
    → torrent_of (upsert_at (insert_default s h) s.allocated p) h
      ≡ (Entry.upsert_peer Entry.default p).0
unfolding torrent_of upsert_at insert_default
inserted_torrent s h p = ground (
  arith,
  lookup-insert h h s.allocated s.torrents,
  lookup-insert s.allocated s.allocated Entry.default s.entries,
  lookup-insert s.allocated s.allocated (Entry.upsert_peer Entry.default p).0
      (OrderedMap.insert s.allocated Entry.default s.entries),
)

-- Of two first announces of a torrent on the map without a common lock, the first can be lost: where
-- both look the torrent up before either puts it in, the entry that the second puts in takes the
-- place of the one that has the first peer already.
pub interleave_loses :
    (s : SharedMap) (h : ℕ) (p q : Peer)
    → OrderedMap.lookup h s.torrents ≡ none
    → torrent_of (interleave race s (Dash.begun h p) (Dash.begun h q)) h
      ≡ (Entry.upsert_peer Entry.default q).0
interleave_loses s h p q absent =
    let first = upsert_at (insert_default s h) s.allocated p in
    rw
      (
        begun_absent s h p absent,
        begun_absent s h q absent,
        missing_lem s h p,
        inserted_lem s h p,
        missing_lem first h q,
        inserted_lem first h q,
      )
      (inserted_torrent first h q)

-- An announce that took its entry before the torrent is removed is lost, on the map behind a
-- read-write lock too: after it the torrent is empty.
pub remove_loses :
    (s : SharedMap) (h a : ℕ) (p : Peer)
    → OrderedMap.lookup h s.torrents ≡ some a
    → (let begun = Locked.advance s (Locked.begun h p) in
        torrent_of (Locked.advance (remove begun.0 h) begun.1).0 h ≡ Entry.default)
unfolding Locked.advance torrent_of remove
remove_loses s h a p found = ground (arith, lookup-remove h h s.torrents)
