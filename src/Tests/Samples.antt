-- ===== src/Tests/Samples.antt =====
-- Peers, torrents and settings for the tests.
use torrust_tracker.Prelude.{ℕ, ◌+◌, true, false, some, List, [], ◌∷◌, pos}
use torrust_tracker.Primitives.Net.{SocketAddr, v4}
use torrust_tracker.Primitives.Peer.{Peer, AnnounceEvent, started, stopped, completed}
use torrust_tracker.Configuration.{Core, TrackerPolicy, default_network}
use torrust_tracker.TorrentRepository.Repository.{CrossbeamSkipList, empty}
use torrust_tracker.TorrentRepository.Repository.Invariant.{
  Operation, upsert_peer, import_persistent, run,
}

abbrev pub address : ℕ → SocketAddr
address n = record { ip = v4 (2130706433 + n); port = 6881 }

abbrev pub peer : ℕ → ℕ → AnnounceEvent → ℕ → Peer
peer id left event updated = record {
  peer_id = id;
  peer_addr = address id;
  updated = updated;
  uploaded = pos 0;
  downloaded = pos 0;
  left = pos left;
  event = event;
}

-- Peer 2 completes its download, after peer 1 stopped; newest first.
abbrev pub history : List Peer
history =
    peer 2 0 completed 30 ∷ peer 1 0 stopped 20 ∷ peer 2 5 started 10 ∷ peer 1 5 started 5 ∷ []

abbrev pub operations : List Operation
operations =
    import_persistent ((7, 3) ∷ [])
    ∷ upsert_peer 9 (peer 1 5 started 5)
    ∷ upsert_peer 7 (peer 2 0 started 10)
    ∷ Operation.remove_inactive_peers 7
    ∷ Operation.remove_peerless_torrents policy
    ∷ []
  where
    policy : TrackerPolicy
    policy = record {
      max_peer_timeout = 900;
      persistent_torrent_completed_stat = false;
      remove_peerless_torrents = true;
    }

abbrev pub repository : CrossbeamSkipList
repository = run empty operations

abbrev pub core : Core
core = record {
  announce_policy = record { interval = 120; interval_min = 120 };
  listed = true;
  net = default_network;
  private_tracker = true;
  private_mode = some (record { check_keys_expiration = true });
  tracker_policy = record {
    max_peer_timeout = 0;
    persistent_torrent_completed_stat = true;
    remove_peerless_torrents = true;
  };
}
