-- ===== src/Udp/Handlers/Effects.antt =====
-- What a packet changes: the torrents and the bans.
use torrust_tracker.Prelude.{
  ℕ, Bool, ◌&&◌, true, false, Option, none, some, ◌≡◌, inl, inr, arith, Result, ok, err,
  Result-cases, if◌then◌else◌,
}
use torrust_tracker.Primitives.Net.{SocketAddr}
use torrust_tracker.TrackerCore.InMemory
use torrust_tracker.TrackerCore.InMemory.{InMemoryTorrentRepository}
use torrust_tracker.TrackerCore.Announce.{announced, from_i32}
use torrust_tracker.TrackerCore.Announce.Laws.{torrents-announce}
use torrust_tracker.TrackerCore.Whitelist.{authorize}
use torrust_tracker.Udp.Banning.{increase_counter}
use torrust_tracker.Udp.ConnectionCookie.{Checked, returned, panicked, check}
use torrust_tracker.Udp.Protocol.{
  AnnounceRequest, Request, connect_request, announce_request, scrape_request, RawRequest,
  CookieTimeValues,
}
use torrust_tracker.Udp.Platform.{Platform, Container, core_config}
use torrust_tracker.Udp.Handlers.{max_scrape_torrents, from_request, handle_request, handle_packet}

-- The cookie that a request shows.
abbrev pub cookie : Request → Option ℕ
cookie (connect_request transaction_id) = none
cookie (announce_request request) = some request.connection_id
cookie (scrape_request connection_id transaction_id info_hashes) = some connection_id

abbrev is_refusal : Checked → Bool
is_refusal panicked = false
is_refusal (returned (ok t)) = false
is_refusal (returned (err e)) = true

abbrev is_acceptance : Checked → Bool
is_acceptance panicked = false
is_acceptance (returned (ok t)) = true
is_acceptance (returned (err e)) = false

-- Whether the cookie of a request is refused.
abbrev pub refused : Platform → SocketAddr → CookieTimeValues → Option ℕ → Bool
refused P from times none = false
refused P from times (some connection_id) =
    is_refusal (check P.cipher connection_id (P.fingerprint from) times.start times.end)

abbrev is_ok {ℓ κ} : {E : Type κ} {A : Type ℓ} → Result E A → Bool
is_ok (ok a) = true
is_ok (err e) = false

module _ {P : Platform} (c : Container P) (from : SocketAddr) (times : CookieTimeValues)
    (now : ℕ) where
  -- Whether an announce may change the torrents: its cookie is accepted and its torrent authorized.
  abbrev pub admitted : AnnounceRequest → Bool
  admitted request =
      is_acceptance
        (check P.cipher request.connection_id (P.fingerprint from) times.start times.end)
      && is_ok (authorize (core_config c) c.whitelist request.info_hash)

  -- The torrents that a request leaves.
  abbrev pub torrents_after : Request → InMemoryTorrentRepository
  torrents_after (announce_request request) =
      if admitted request
      then InMemory.upsert_peer c.announce_handler.torrents request.info_hash
          (announced c.announce_handler (from_request request from.ip now) from.ip)
      else c.announce_handler.torrents
  torrents_after (connect_request transaction_id) = c.announce_handler.torrents
  torrents_after (scrape_request connection_id transaction_id info_hashes) =
      c.announce_handler.torrents

  handle_request-torrents :
      (request : Request)
      → (handle_request c request from times now).1.announce_handler.torrents
        ≡ torrents_after request
  unfolding handle_request
  handle_request-torrents (connect_request transaction_id) = ground arith
  handle_request-torrents (announce_request request) = ground (
    arith,
    torrents-announce c.announce_handler request.info_hash (from_request request from.ip now)
        from.ip (from_i32 request.peers_wanted),
  )
  handle_request-torrents (scrape_request connection_id transaction_id info_hashes) = ground arith

  handle_request-settings :
      (request : Request)
      → ((handle_request c request from times now).1.whitelist ≡ c.whitelist)
        × ((handle_request c request from times now).1.announce_handler.config
            ≡ c.announce_handler.config)
  unfolding handle_request
  handle_request-settings request = (ground arith, ground arith)

module _ {P : Platform} (c : Container P) (raw : RawRequest) (times : CookieTimeValues)
    (now : ℕ) where
  -- A packet that is a request whose cookie the check refuses counts as an error of its sender;
  -- no other packet does, even one that does not parse and has a wrong cookie.
  pub handle_packet-ban_service :
      (handle_packet c raw times now).1.ban_service
      ≡ (elim (P.parse_bytes raw.payload max_scrape_torrents) [
        | err e ↦ c.ban_service
        | ok request ↦
            if refused P raw.from times (cookie request)
            then increase_counter P.filter c.ban_service raw.from.ip
            else c.ban_service
      ])
  unfolding handle_packet
  handle_packet-ban_service = ground arith

  -- A packet changes the torrents only if it is an announce of an authorized torrent with a cookie
  -- that the check accepts, and then by the peer of that announce alone, stored under the address
  -- that the tracker assigns; the whitelist and the settings stay.
  pub handle_packet-torrents :
      ((handle_packet c raw times now).1.announce_handler.torrents
        ≡ (elim (P.parse_bytes raw.payload max_scrape_torrents) [
          | err e ↦ c.announce_handler.torrents
          | ok request ↦ torrents_after c raw.from times now request
        ]))
      × ((handle_packet c raw times now).1.whitelist ≡ c.whitelist)
      × ((handle_packet c raw times now).1.announce_handler.config ≡ c.announce_handler.config)
  unfolding handle_packet
  handle_packet-torrents = elim (Result-cases (P.parse_bytes raw.payload max_scrape_torrents)) [
    | inl (request, parsed) ↦
        let (whitelist_kept, config_kept) = handle_request-settings c raw.from times now request in
        (
          ground (arith, handle_request-torrents c raw.from times now request),
          ground (arith, whitelist_kept),
          ground (arith, config_kept),
        )
    | inr (e, failed) ↦ (ground arith, ground arith, ground arith)
  ]
