-- ===== src/TorrentRepository/Repository/Metrics.antt =====
-- The totals and the pages of a repository.
use native.Mathlib.Nat.{zero-add, suc-add}
use torrust_tracker.Prelude.{
  ℕ, zero, suc, ◌+◌, ◌%◌, ◌^◌, ◌≡◌, ◌<◌, ◌∙◌, refl, ap, some, List, [], ◌∷◌, ◌++◌, arith, length,
  take, drop,
}
use torrust_tracker.OrderedMap.{Map}
use torrust_tracker.Primitives.Metrics.{TorrentsMetrics, SwarmMetadata, no_metrics}
use torrust_tracker.TorrentRepository.Entry
use torrust_tracker.TorrentRepository.Entry.{Torrent}
use torrust_tracker.TorrentRepository.Repository.{
  CrossbeamSkipList, add_metrics, get_metrics, get_paginated,
}

-- The sum of a statistic over all torrents.
abbrev pub total : (SwarmMetadata → ℕ) → Map Torrent → ℕ
total f [] = 0
total f ((k, t) ∷ m) = f (Entry.get_swarm_metadata t) + total f m

abbrev total_metrics : Map Torrent → TorrentsMetrics
total_metrics m = record {
  complete = total (λ s. s.complete) m % 2 ^ 64;
  downloaded = total (λ s. s.downloaded) m % 2 ^ 64;
  incomplete = total (λ s. s.incomplete) m % 2 ^ 64;
  torrents = length m % 2 ^ 64;
}

-- The totals, started from the metrics `a`.
abbrev add_totals : TorrentsMetrics → Map Torrent → TorrentsMetrics
add_totals a m = record {
  complete = (a.complete + total (λ s. s.complete) m) % 2 ^ 64;
  downloaded = (a.downloaded + total (λ s. s.downloaded) m) % 2 ^ 64;
  incomplete = (a.incomplete + total (λ s. s.incomplete) m) % 2 ^ 64;
  torrents = (a.torrents + length m) % 2 ^ 64;
}

record IsReduced (a : TorrentsMetrics) : Type 0 where
  complete : a.complete < 2 ^ 64
  downloaded : a.downloaded < 2 ^ 64
  incomplete : a.incomplete < 2 ^ 64
  torrents : a.torrents < 2 ^ 64

-- One step of the loop.
abbrev add_entry : TorrentsMetrics → Torrent → TorrentsMetrics
add_entry a t = add_metrics a ((0, t) ∷ [])

add_metrics-cons :
    (a : TorrentsMetrics) (k : ℕ) (t : Torrent) (m : Map Torrent)
    → add_metrics a ((k, t) ∷ m) ≡ add_metrics (add_entry a t) m
unfolding add_metrics
add_metrics-cons a k t m = refl

add_entry-IsReduced : (a : TorrentsMetrics) (t : Torrent) → IsReduced (add_entry a t)
unfolding add_metrics
add_entry-IsReduced a t = omega arith

add_totals-cons :
    (a : TorrentsMetrics) (k : ℕ) (t : Torrent) (m : Map Torrent)
    → add_totals (add_entry a t) m ≡ add_totals a ((k, t) ∷ m)
unfolding add_metrics
add_totals-cons a k t m = ground arith

add_totals-nil : (a : TorrentsMetrics) → IsReduced a → a ≡ add_totals a []
add_totals-nil a h = ground arith

add_metrics_lem :
    (a : TorrentsMetrics) (m : Map Torrent) → IsReduced a → add_metrics a m ≡ add_totals a m
unfolding add_metrics
add_metrics_lem a [] h = add_totals-nil a h
add_metrics_lem a ((k, t) ∷ m) h =
    add_metrics_lem (add_entry a t) m (add_entry-IsReduced a t) ∙ add_totals-cons a k t m

-- The metrics of a repository are the sums of the statistics of its torrents and the number of its
-- torrents, each modulo 2^64.
get_metrics-total : (r : CrossbeamSkipList) → get_metrics r ≡ total_metrics r.torrents
unfolding get_metrics
get_metrics-total r = add_metrics_lem no_metrics r.torrents (omega arith) ∙ ground arith

module _ {ℓ} {A : Type ℓ} where
  take-nil : (n : ℕ) → take {A = A} n [] ≡ []
  take-nil zero = refl
  take-nil (suc n) = refl

  drop-nil : (n : ℕ) → drop {A = A} n [] ≡ []
  drop-nil zero = refl
  drop-nil (suc n) = refl

  drop-drop : (o a : ℕ) (xs : List A) → drop (o + a) xs ≡ drop a (drop o xs)
  drop-drop zero a xs = rw zero-add refl
  drop-drop (suc o) a [] = simp drop-nil
  drop-drop (suc o) a (x ∷ xs) = rw suc-add (drop-drop o a xs)

  take-drop_join : (a b : ℕ) (xs : List A) → take a xs ++ take b (drop a xs) ≡ take (a + b) xs
  take-drop_join zero b xs = rw zero-add refl
  take-drop_join (suc a) b [] = simp take-nil
  take-drop_join (suc a) b (x ∷ xs) = rw suc-add (ap (◌∷◌ x) (take-drop_join a b xs))

-- The pages of a repository are consecutive stretches of its entries: a page of `a` entries and
-- the page of `b` entries that starts where it ends are the page of `a + b` entries.
pub pages_join :
    (r : CrossbeamSkipList) (o a b : ℕ)
    → get_paginated r (some (record { offset = o; limit = a }))
        ++ get_paginated r (some (record { offset = o + a; limit = b }))
      ≡ get_paginated r (some (record { offset = o; limit = a + b }))
unfolding get_paginated
pages_join r o a b = rw drop-drop (take-drop_join a b (drop o r.torrents))
