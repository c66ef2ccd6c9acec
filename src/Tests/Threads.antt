-- ===== src/Tests/Threads.antt =====
-- Examples of the theorems on concurrent announces.
use torrust_tracker.Prelude.{ℕ, zero, suc, ◌≡◌, ◌⊎◌, refl, some, List, [], ◌∷◌, arith}
use torrust_tracker.OrderedMap
use torrust_tracker.Primitives.Peer.{Peer, started}
use torrust_tracker.TorrentRepository.Entry
use torrust_tracker.TorrentRepository.Shared.{SharedMap, torrent_of}
use torrust_tracker.TorrentRepository.Shared.Locked.{begun, done, advance}
use torrust_tracker.TorrentRepository.Shared.Dash
use torrust_tracker.TorrentRepository.Shared.Interleavings.{IsSeparate, IsCurrent, committed}
use torrust_tracker.TorrentRepository.Shared.Schedules.{
  Pool, set, recorded, Reach, begins, steps, in_turn, pending, Has, Reach-in_turn,
}
use torrust_tracker.TorrentRepository.Shared.Lost.{interleave, race, interleave_loses}
use torrust_tracker.Tests.Samples.{peer}

abbrev empty : SharedMap
empty = record { torrents = []; entries = []; allocated = 0 }

empty-IsSeparate : IsSeparate empty
unfolding OrderedMap.lookup
empty-IsSeparate = record {
  allocated = λ h a found. ground (arith, found);
  injective = λ h k a here there. ground (arith, here);
}

-- Thread 0 announces peer 1, and thread 1 peer 2, for the torrent 7.
abbrev pool : Pool
pool zero = begun 7 (peer 1 5 started 10)
pool (suc zero) = begun 7 (peer 2 5 started 20)
pool (suc (suc i)) = done

pool-IsCurrent : (i : ℕ) → IsCurrent empty (pool i)
pool-IsCurrent zero = tt
pool-IsCurrent (suc zero) = tt
pool-IsCurrent (suc (suc i)) = tt

-- The threads that are named make a step, the last one first.
abbrev play : List ℕ → SharedMap × Pool × List (ℕ × Peer)
play [] = (empty, pool, [])
play (i ∷ is) =
    let (s, q, es) = play is in
    ((advance s (q i)).0, set i (advance s (q i)).1 q, recorded (committed (q i)) es)

play-Reach : (is : List ℕ) → Reach empty pool (play is).0 (play is).1 (play is).2
play-Reach [] = begins
play-Reach (i ∷ is) = steps (play is).0 (play is).1 (play is).2 i (play-Reach is)

-- Both look the torrent up, both ask for its entry, and thread 1 is the first to announce.
abbrev schedule : List ℕ
schedule = 0 ∷ 1 ∷ 1 ∷ 0 ∷ 1 ∷ 0 ∷ []

Reach-in_turn_example :
    ((j : ℕ) → torrent_of (play schedule).0 j ≡ in_turn (torrent_of empty) (play schedule).2 j)
    × ((i : ℕ) (e : ℕ × Peer)
        → pending (pool i) ≡ some e
        → (pending ((play schedule).1 i) ≡ some e) ⊎ Has e (play schedule).2)
Reach-in_turn_example =
    Reach-in_turn empty pool empty-IsSeparate pool-IsCurrent (play schedule).0 (play schedule).1
      (play schedule).2 (play-Reach schedule)

interleave_loses_example :
    torrent_of
      (interleave race empty
        (Dash.begun 7 (peer 1 5 started 10))
        (Dash.begun 7 (peer 2 5 started 20)))
      7
    ≡ (Entry.upsert_peer Entry.default (peer 2 5 started 20)).0
unfolding OrderedMap.lookup
interleave_loses_example = interleave_loses empty 7 (peer 1 5 started 10) (peer 2 5 started 20) refl
