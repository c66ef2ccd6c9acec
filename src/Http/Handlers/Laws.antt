-- ===== src/Http/Handlers/Laws.antt =====
-- Who may announce and scrape over HTTP, and what comes of it.
use torrust_tracker.Prelude.{
  ℕ, Bool, true, false, not, ◌&&◌, ◌≡◌, refl, Option, none, some, List, [], ◌∷◌, arith, Result, ok,
  err, Result-cases, inl, inr, if◌then◌else◌,
}
use torrust_tracker.OrderedMap
use torrust_tracker.OrderedMap.Laws.{lookup-insert}
use torrust_tracker.Primitives.Net.{IpAddr}
use torrust_tracker.Primitives.Metrics as Metrics
use torrust_tracker.Primitives.Core.{ScrapeData, zeroed, add_file, add_zeroed}
use torrust_tracker.Primitives.Core as Data
use torrust_tracker.TrackerCore.InMemory
use torrust_tracker.TrackerCore.InMemory.{InMemoryTorrentRepository}
use torrust_tracker.TrackerCore.Announce.{TorrentStore, announced}
use torrust_tracker.TrackerCore.Announce.Laws.{torrents-announce}
use torrust_tracker.TrackerCore.Scrape.Laws.{visible, lookup-scrape}
use torrust_tracker.TrackerCore.Whitelist.{has, authorize}
use torrust_tracker.TrackerCore.Authentication.Key.{Key, authenticate}
use torrust_tracker.Http.PeerIpResolver.{ClientIpSources, PeerIpResolutionError, invoke}
use torrust_tracker.Http.AnnounceRequest.{Announce}
use torrust_tracker.Http.Handlers.{
  Container, core_config, scrape_handler, peer_from_request, peers_wanted, handle_announce,
  return_real_scrape_data, handle_scrape,
}

abbrev pub is_ok {ℓ κ} : {E : Type κ} {A : Type ℓ} → Result E A → Bool
is_ok (ok a) = true
is_ok (err e) = false

module _ {D : TorrentStore} (c : Container D) (now : ℕ) where
  -- Whether a client with this key may use the tracker: a private tracker asks for a valid key.
  abbrev pub knows : Option Key → Bool
  knows none = not (core_config c).private_tracker
  knows (some key) = is_ok (authenticate (core_config c) c.keys now key)

module _ {D : TorrentStore} (c : Container D) (request : Announce) (sources : ClientIpSources)
    (maybe_key : Option Key) (now : ℕ) where
  -- The torrents after an announce of a client with this address.
  abbrev pub torrents_from : Result PeerIpResolutionError IpAddr → InMemoryTorrentRepository
  torrents_from (err e) = c.announce_handler.torrents
  torrents_from (ok ip) =
      if knows c now maybe_key && is_ok (authorize (core_config c) c.whitelist request.info_hash)
      then InMemory.upsert_peer c.announce_handler.torrents request.info_hash
          (announced c.announce_handler (peer_from_request request ip now) ip)
      else c.announce_handler.torrents

  -- An announce is answered with peers exactly if the client may use the tracker, the torrent is
  -- authorized and the address of the client is known, and with an error otherwise; it changes the
  -- torrents exactly in the first case, by the peer of the announce alone.
  pub handle_announce-torrents :
      (is_ok (handle_announce c request sources maybe_key now).0 ≡ (
        knows c now maybe_key
        && (is_ok (authorize (core_config c) c.whitelist request.info_hash)
            && is_ok (invoke (core_config c).net.on_reverse_proxy sources))))
      × ((handle_announce c request sources maybe_key now).1.announce_handler.torrents
          ≡ torrents_from (invoke (core_config c).net.on_reverse_proxy sources))
  unfolding handle_announce authenticate
  handle_announce-torrents =
      elim (Result-cases (invoke (core_config c).net.on_reverse_proxy sources)) [
        | inl (ip, resolved) ↦
            let stored =
              torrents-announce c.announce_handler request.info_hash
                (peer_from_request request ip now) ip (peers_wanted request.numwant) in
            (ground arith, ground (arith, stored))
        | inr (e, failed) ↦ (ground arith, ground arith)
      ]

-- Zeroed data answers for the torrents that were asked for.
lookup-add_zeroed :
    (d : ScrapeData) (hs : List ℕ) (j : ℕ)
    → OrderedMap.lookup j (add_zeroed d hs).files
      ≡ (if has j hs then some Metrics.zeroed else OrderedMap.lookup j d.files)
unfolding add_zeroed add_file
lookup-add_zeroed d [] j = refl
lookup-add_zeroed d (h ∷ hs) j = ground (
  arith,
  lookup-add_zeroed (add_file d h Metrics.zeroed) hs j,
  lookup-insert h j Metrics.zeroed d.files,
)

module _ {D : TorrentStore} (c : Container D) (hs : List ℕ) (sources : ClientIpSources)
    (now : ℕ) where
  real_lem :
      (maybe_key : Option Key) → return_real_scrape_data c now maybe_key ≡ knows c now maybe_key
  unfolding return_real_scrape_data authenticate
  real_lem maybe_key = ground arith

  -- A scrape that is answered answers for exactly the torrents that it asks for: a client that may
  -- use the tracker sees of each what is visible of it, and any other client sees zeros.
  pub lookup-handle_scrape :
      (maybe_key : Option Key) (d : ScrapeData) (j : ℕ)
      → (handle_scrape c hs sources maybe_key now).0 ≡ ok d
      → OrderedMap.lookup j d.files ≡ (
          if has j hs
          then some (if knows c now maybe_key then visible (scrape_handler c) j else Metrics.zeroed)
          else none)
  unfolding handle_scrape zeroed OrderedMap.lookup
  lookup-handle_scrape maybe_key d j answered = ground (
    arith,
    real_lem maybe_key,
    lookup-scrape (scrape_handler c) hs j,
    lookup-add_zeroed Data.empty hs j,
  )

  -- What a scrape changes does not depend on the key: the torrents stay, and the scrape of a client
  -- without a valid key is counted as any other.
  pub handle_scrape-ignores_key :
      (key other : Option Key)
      → ((handle_scrape c hs sources key now).1 ≡ (handle_scrape c hs sources other now).1)
        × ((handle_scrape c hs sources key now).1.announce_handler ≡ c.announce_handler)
  unfolding handle_scrape
  handle_scrape-ignores_key key other = (ground arith, ground arith)
