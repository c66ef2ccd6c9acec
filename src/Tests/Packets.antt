-- ===== src/Tests/Packets.antt =====
-- Examples of the theorems on the packets of the UDP server, over a protocol that writes each field of
-- a packet as one number.
use torrust_tracker.Prelude.{
  ℕ, zero, suc, ◌+◌, ◌%◌, ◌^◌, true, false, ◌≡◌, refl, none, some, List, [], ◌∷◌, arith,
  if◌then◌else◌, ltb, Result, ok, err, pos, codes,
}
use mathlib.Core.Option
use mathlib.Core.List.{Perm}
use mathlib.Core.List.Perm
use torrust_tracker.OrderedMap
use torrust_tracker.Primitives.Peer.{started}
use torrust_tracker.TorrentRepository.Repository.Invariant.{empty_repository-IsValid}
use torrust_tracker.TorrentRepository.Repository as Repository
use torrust_tracker.TrackerCore.Whitelist.{authorize, contains, has, torrent_not_whitelisted}
use torrust_tracker.Udp.Banning.{count, is_banned, new, increase_counter}
use torrust_tracker.Udp.Banning.Laws.{Event, errors}
use torrust_tracker.Udp.ConnectionCookie.{make, assemble, lt_f64}
use torrust_tracker.Udp.Protocol.{
  Request, connect_request, announce_request, scrape_request, RequestParseError, sendable,
  unsendable, tracker_error, RawRequest, CookieTimeValues,
}
use torrust_tracker.Udp.Platform.{Platform, Container}
use torrust_tracker.Udp.Handlers.{
  max_scrape_torrents, handle_packet, handle_connect, handle_announce, handle_scrape,
}
use torrust_tracker.Udp.Handlers.Effects.{
  cookie, refused, torrents_after, handle_packet-ban_service, handle_packet-torrents,
}
use torrust_tracker.Udp.Handlers.Answers.{
  answered_transaction, handle_packet_total, handle_announce-connect,
}
use torrust_tracker.Udp.Handlers.ScrapeOrder.{entries, handle_scrape-ignores_order}
use torrust_tracker.Udp.Processor.{Floats, Circumstances}
use torrust_tracker.Udp.Launcher.{
  max_connection_id_errors_per_ip, Server, start, receive, run_task, charge, receives, runs,
}
use torrust_tracker.Udp.Launcher.Laws.{Reach, begins, goes_on, recorded, is_banned-Reach}
use torrust_tracker.Udp.Launcher.Invariant.{IsHealthy, IsHealthy-Reach}
use torrust_tracker.Udp.Launcher.Accounts.{IsBalanced, IsBalanced-Reach}
use torrust_tracker.Tests.Samples.{core, address}
use torrust_tracker.Tests.Stores.{torrent_table, exact_counter, adding_cipher}

-- The kind of a packet, its transaction, and its other fields.
abbrev read : ℕ → ℕ → List ℕ → Result RequestParseError Request
read zero transaction_id fields = ok (connect_request transaction_id)
read (suc zero) transaction_id (connection_id ∷ info_hash ∷ port ∷ []) = ok (
    announce_request (record {
      connection_id = connection_id;
      transaction_id = transaction_id;
      info_hash = info_hash;
      peer_id = 1;
      bytes_downloaded = pos 0;
      bytes_left = pos 5;
      bytes_uploaded = pos 0;
      event = started;
      peers_wanted = pos 10;
      port = port;
    }))
read (suc (suc n)) transaction_id (connection_id ∷ info_hashes) =
    ok (scrape_request connection_id transaction_id info_hashes)
read n transaction_id fields = err (sendable 0 transaction_id (codes "malformed"))

abbrev parse : List ℕ → ℕ → Result RequestParseError Request
parse (kind ∷ transaction_id ∷ fields) max = read kind transaction_id fields
parse _ max = err (unsendable (codes "short"))

abbrev pub platform : Platform
platform = record {
  cipher = adding_cipher;
  store = torrent_table;
  filter = exact_counter;
  fingerprint = λ a. a.port % 2 ^ 64;
  fingerprint_bound = λ a. omega arith;
  iterate = λ m. m;
  iterate-Perm = λ m. Perm.refl m;
  parse_bytes = parse;
  write_bytes = λ r. some [];
}

abbrev pub container : Container platform
container = record {
  announce_handler = record {
    config = record core { private_tracker = false; private_mode = none };
    torrents = record { torrents = Repository.empty };
    db = [];
  };
  whitelist = record { whitelist = (7, tt) ∷ [] };
  ban_service = record {
    max_connection_id_errors_per_ip = 10;
    fuzzy_error_counter = [];
    accurate_error_counter = [];
  };
  sends_events = true;
  events = [];
}

-- The bit patterns of 1, 1.5 and 4.
abbrev times : CookieTimeValues
times = record {
  issue_time = 4609434218613702656;
  start = 4607182418800017408;
  end = 4616189618054758400;
}

-- The connection id of the client at address 1, whose port is 6881.
abbrev connection_id : ℕ
connection_id = platform.cipher.encrypt_block ((4609434218613702656 + 6881) % 2 ^ 64)

abbrev packet : ℕ → RawRequest
packet id = record { payload = 1 ∷ 42 ∷ id ∷ 7 ∷ 6881 ∷ []; from = address 1 }

handle_packet-torrents_example :
    ((handle_packet container (packet connection_id) times 9).1.announce_handler.torrents
      ≡ (elim (platform.parse_bytes (packet connection_id).payload max_scrape_torrents) [
        | err e ↦ container.announce_handler.torrents
        | ok request ↦ torrents_after container (address 1) times 9 request
      ]))
    × ((handle_packet container (packet connection_id) times 9).1.whitelist ≡ container.whitelist)
    × ((handle_packet container (packet connection_id) times 9).1.announce_handler.config
        ≡ container.announce_handler.config)
handle_packet-torrents_example = handle_packet-torrents container (packet connection_id) times 9

handle_packet-ban_service_example :
    (handle_packet container (packet 3) times 9).1.ban_service
    ≡ (elim (platform.parse_bytes (packet 3).payload max_scrape_torrents) [
      | err e ↦ container.ban_service
      | ok request ↦
          if refused platform (address 1) times (cookie request)
          then increase_counter exact_counter container.ban_service (address 1).ip
          else container.ban_service
    ])
handle_packet-ban_service_example = handle_packet-ban_service container (packet 3) times 9

handle_packet_total_example :
    Option.map answered_transaction (handle_packet container (packet connection_id) times 9).0
    ≡ some 42
unfolding lt_f64
handle_packet_total_example = handle_packet_total container (packet connection_id) times 9 refl refl

handle_announce-connect_example :
    (handle_announce container
      (address 1)
      (record {
        connection_id = connection_id;
        transaction_id = 42;
        info_hash = 8;
        peer_id = 1;
        bytes_downloaded = pos 0;
        bytes_left = pos 5;
        bytes_uploaded = pos 0;
        event = started;
        peers_wanted = pos 10;
        port = 6881;
      })
      times
      9).0
    ≡ some (err (tracker_error (torrent_not_whitelisted 8), 42))
unfolding handle_connect make assemble lt_f64 authorize contains OrderedMap.lookup
handle_announce-connect_example =
    handle_announce-connect container container (address 1) 41 connection_id times.issue_time
      (record {
        connection_id = connection_id;
        transaction_id = 42;
        info_hash = 8;
        peer_id = 1;
        bytes_downloaded = pos 0;
        bytes_left = pos 5;
        bytes_uploaded = pos 0;
        event = started;
        peers_wanted = pos 10;
        port = 6881;
      })
      times 9 (omega arith) refl refl refl refl refl

-- The torrents 7 and 8 in either order, one of them twice.
same_torrents : (j : ℕ) → has j (7 ∷ 8 ∷ []) ≡ has j (8 ∷ 7 ∷ 8 ∷ [])
same_torrents j = ground arith

handle_scrape-ignores_order_example :
    Perm
      (entries (handle_scrape container (address 1) connection_id 42 (7 ∷ 8 ∷ []) times).0)
      (entries (handle_scrape container (address 1) connection_id 42 (8 ∷ 7 ∷ 8 ∷ []) times).0)
handle_scrape-ignores_order_example =
    handle_scrape-ignores_order container (address 1) connection_id 42 times (7 ∷ 8 ∷ [])
      (8 ∷ 7 ∷ 8 ∷ []) same_torrents

-- The server receives a packet with a wrong connection id, and its task runs.
abbrev floats : Floats
floats = record {
  as_secs_f64 = λ t. times.issue_time;
  add = λ a b. times.end;
  sub = λ a b. times.start;
}

abbrev circumstances : Circumstances
circumstances = record { started = 9; announced = 9; elapsed = 1; socket_sends = true }

abbrev received : Server platform
received = receive (start container) (packet 3)

abbrev served : Server platform
served = run_task floats 0 received 0 (packet 3) circumstances

abbrev history : List Event
history = recorded (charge platform floats 0 (packet 3) circumstances) []

served-Reach : Reach floats 0 container served history
unfolding receive OrderedMap.lookup OrderedMap.insert
served-Reach =
    goes_on received served [] (charge platform floats 0 (packet 3) circumstances)
      (goes_on (start container) received [] none begins
        (receives (start container) (packet 3) refl))
      (runs received 0 (packet 3) circumstances refl)

is_banned-Reach_example :
    is_banned exact_counter served.container.ban_service (address 1).ip
    ≡ ltb max_connection_id_errors_per_ip (count (address 1).ip (errors history))
unfolding new
is_banned-Reach_example =
    is_banned-Reach floats 0 container served history (address 1).ip refl served-Reach (omega arith)
      (ground arith)

IsHealthy-Reach_example : IsHealthy served
IsHealthy-Reach_example =
    IsHealthy-Reach floats 0 container served history empty_repository-IsValid served-Reach

IsBalanced-Reach_example : IsBalanced served
IsBalanced-Reach_example = IsBalanced-Reach floats 0 container served history refl refl served-Reach
