-- ===== src/Udp/Handlers/ScrapeOrder.antt =====
-- The entries of the answer to a scrape carry no info hash, so a client can tell them apart by their
-- order alone.
use torrust_tracker.Prelude.{
  ℕ, none, some, List, [], ◌∷◌, map, ◌≡◌, sym, ap, ok, err, arith, if◌then◌else◌, ◌∙◌,
}
use mathlib.Core.List.{Perm}
use mathlib.Core.List.Perm
use torrust_tracker.OrderedMap.Order.{IsSorted, insert-IsSorted}
use torrust_tracker.OrderedMap.Extensional.{Map-ext}
use torrust_tracker.Primitives.Net.{SocketAddr}
use torrust_tracker.Primitives.Core.{ScrapeData, add_file}
use torrust_tracker.Primitives.Core as Data
use torrust_tracker.TrackerCore.Whitelist.{has}
use torrust_tracker.TrackerCore.Scrape.{ScrapeHandler, shown, scrape_each, scrape}
use torrust_tracker.TrackerCore.Scrape.Laws.{visible, lookup-scrape}
use torrust_tracker.Udp.ConnectionCookie.{Checked, returned, panicked, check}
use torrust_tracker.Udp.Protocol.{CookieTimeValues, TorrentScrapeStatistics, scrape_response}
use torrust_tracker.Udp.Platform.{Platform, Container, scrape_handler}
use torrust_tracker.Udp.Handlers.{Answer, scrape_entry, handle_scrape}

scrape_each-IsSorted :
    (s : ScrapeHandler) (d : ScrapeData) (hs : List ℕ)
    → IsSorted d.files
    → IsSorted (scrape_each s d hs).files
unfolding scrape_each add_file
scrape_each-IsSorted s d [] sorted = sorted
scrape_each-IsSorted s d (h ∷ hs) sorted =
    scrape_each-IsSorted s (add_file d h (shown s h)) hs
      (insert-IsSorted h (shown s h) d.files sorted)

scrape-IsSorted : (s : ScrapeHandler) (hs : List ℕ) → IsSorted (scrape s hs).files
unfolding scrape
scrape-IsSorted s hs = scrape_each-IsSorted s Data.empty hs tt

-- The data of a scrape is that of the set of the torrents.
scrape_same :
    (s : ScrapeHandler) (hs gs : List ℕ)
    → ((j : ℕ) → has j hs ≡ has j gs)
    → (scrape s hs).files ≡ (scrape s gs).files
scrape_same s hs gs same =
    Map-ext (scrape s hs).files (scrape s gs).files (scrape-IsSorted s hs) (scrape-IsSorted s gs)
      (λ j.
        lookup-scrape s hs j
        ∙ ap (λ b. if b then some (visible s j) else none) (same j)
        ∙ sym (lookup-scrape s gs j))

-- The entries of an answer.
abbrev pub entries : Answer → List TorrentScrapeStatistics
entries (some (ok (scrape_response transaction_id torrent_stats))) = torrent_stats
entries _ = []

abbrev if_accepted : Checked → List TorrentScrapeStatistics → List TorrentScrapeStatistics
if_accepted panicked l = []
if_accepted (returned (err e)) l = []
if_accepted (returned (ok t)) l = l

if_accepted-Perm :
    (r : Checked) {l m : List TorrentScrapeStatistics}
    → Perm l m
    → Perm (if_accepted r l) (if_accepted r m)
if_accepted-Perm panicked same = Perm.refl []
if_accepted-Perm (returned (err e)) same = Perm.refl []
if_accepted-Perm (returned (ok t)) same = same

module _ {P : Platform} (c : Container P) (client : SocketAddr) (connection_id transaction_id : ℕ)
    (times : CookieTimeValues) where
  entries-handle_scrape :
      (hs : List ℕ)
      → entries (handle_scrape c client connection_id transaction_id hs times).0
        ≡ if_accepted
            (check P.cipher connection_id (P.fingerprint client) times.start times.end)
            (map scrape_entry (P.iterate (scrape (scrape_handler c) hs).files))
  unfolding handle_scrape
  entries-handle_scrape hs = ground arith

  listed_entries :
      (hs : List ℕ)
      → Perm (entries (handle_scrape c client connection_id transaction_id hs times).0) (
          if_accepted
            (check P.cipher connection_id (P.fingerprint client) times.start times.end)
            (map scrape_entry (scrape (scrape_handler c) hs).files))
  listed_entries hs = rw entries-handle_scrape (
      if_accepted-Perm (check P.cipher connection_id (P.fingerprint client) times.start times.end)
        (Perm.map scrape_entry (P.iterate-Perm (scrape (scrape_handler c) hs).files)))

  -- Two scrapes that ask for the same torrents, in whatever order and however often, are answered
  -- with the same entries up to their order.
  pub handle_scrape-ignores_order :
      (hs gs : List ℕ)
      → ((j : ℕ) → has j hs ≡ has j gs)
      → Perm
          (entries (handle_scrape c client connection_id transaction_id hs times).0)
          (entries (handle_scrape c client connection_id transaction_id gs times).0)
  handle_scrape-ignores_order hs gs same =
      Perm.trans (listed_entries hs)
        (rw (scrape_same (scrape_handler c) hs gs same) (Perm.symm (listed_entries gs)))
