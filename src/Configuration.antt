-- ===== src/Configuration.antt =====
-- packages/configuration/src: the settings that the tracker core reads (lib.rs, v2_0_0/core.rs and
-- v2_0_0/network.rs), with their defaults and the semantic check of `Core`. Settings that only
-- wire the application together are left out.
use torrust_tracker.Prelude.{
  ℕ, Bool, true, false, Option, none, some, not, ◌&&◌, if◌then◌else◌, Result, ok, err,
}
use torrust_tracker.Primitives.Net.{IpAddr}
use torrust_tracker.Primitives.Core.{AnnouncePolicy}

pub record TrackerPolicy : Type 0 where
  pub max_peer_timeout : ℕ
  pub persistent_torrent_completed_stat : Bool
  pub remove_peerless_torrents : Bool

pub record Network : Type 0 where
  pub external_ip : Option IpAddr
  pub on_reverse_proxy : Bool

pub record PrivateMode : Type 0 where
  pub check_keys_expiration : Bool

pub record Core : Type 0 where
  pub announce_policy : AnnouncePolicy
  pub listed : Bool
  pub net : Network
  pub private_tracker : Bool
  pub private_mode : Option PrivateMode
  pub tracker_policy : TrackerPolicy

-- `TORRENT_PEERS_LIMIT`
abbrev pub torrent_peers_limit : ℕ
torrent_peers_limit = 74

abbrev pub default_tracker_policy : TrackerPolicy
default_tracker_policy = record {
  max_peer_timeout = 900;
  persistent_torrent_completed_stat = false;
  remove_peerless_torrents = true;
}

abbrev pub default_network : Network
default_network = record { external_ip = some (IpAddr.v4 0); on_reverse_proxy = false }

pub data SemanticValidationError : Type 0 where
  useless_private_mode_section : SemanticValidationError

abbrev is_some : Option PrivateMode → Bool
is_some none = false
is_some (some m) = true

unfoldable pub validate : Core → Result SemanticValidationError (Unit {0})
validate c =
    if is_some c.private_mode && not c.private_tracker
    then err SemanticValidationError.useless_private_mode_section
    else ok tt
