-- ===== src/Tests/Torrents.antt =====
-- Examples of the theorems on torrents and repositories.
use torrust_tracker.Prelude.{◌≡◌, some}
use torrust_tracker.Primitives.Peer.{completed}
use torrust_tracker.TorrentRepository.PeerList
use torrust_tracker.TorrentRepository.Entry.History.{after, get-after, downloaded-after}
use torrust_tracker.TorrentRepository.Repository.{empty}
use torrust_tracker.TorrentRepository.Repository.Laws.{IsValid}
use torrust_tracker.TorrentRepository.Repository.Invariant
use torrust_tracker.TorrentRepository.Repository.Invariant.{run-IsValid, empty_repository-IsValid}
use torrust_tracker.TorrentRepository.RwLockStd.Equivalence.{run, behind_lock, run-behind_lock}
use torrust_tracker.Tests.Samples.{peer, history, operations}

get-after_example : PeerList.get (after history).swarm 2 ≡ some (peer 2 0 completed 30)
get-after_example = get-after history 2

downloaded-after_example : (after history).downloaded ≡ 1
downloaded-after_example = downloaded-after history

run-IsValid_example : IsValid (Invariant.run empty operations)
run-IsValid_example = run-IsValid empty operations empty_repository-IsValid

run-behind_lock_example :
    run (behind_lock empty) operations ≡ behind_lock (Invariant.run empty operations)
run-behind_lock_example = run-behind_lock empty operations empty_repository-IsValid
