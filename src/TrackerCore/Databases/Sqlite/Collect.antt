-- ===== src/TrackerCore/Databases/Sqlite/Collect.antt =====
-- What the queries of sqlite.rs collect from the rows of a well-formed table.
use torrust_tracker.Prelude.{
  ℕ, ◌≡◌, refl, ◌*◌, ◌^◌, ◌⊎◌, inl, inr, Option, none, some, List, [], ◌∷◌, map, arith, ok, err,
  Text, text_eq_iff, text_eq_instance, Bool-cases, ltb, pos,
}
use torrust_tracker.OrderedMap
use torrust_tracker.OrderedMap.{Map}
use torrust_tracker.OrderedMap.Laws.{lookup-insert}
use torrust_tracker.HashMap
use torrust_tracker.HashMap.{HashMap}
use torrust_tracker.TrackerCore.Whitelist.{has}
use torrust_tracker.TrackerCore.Authentication.Key.{PeerKey, nanos}
use torrust_tracker.TrackerCore.Authentication.Key.Laws.{find_row}
use torrust_tracker.TrackerCore.Databases.{InfoHashText}
use torrust_tracker.TrackerCore.Databases.Rows.{
  has_text, IsUnique, collect_ok, key_of_row, unsigned_abs,
}
use torrust_tracker.TrackerCore.Databases.Rows.Laws.{
  text_eq-to_string, IsHashColumn, IsHashColumn-head, IsHashColumn-tail,
}
use torrust_tracker.TrackerCore.Databases.Rusqlite.{
  Value, null, integer, real, text, Engine, Stores,
}
use torrust_tracker.TrackerCore.Databases.Sqlite.{whitelist_row, torrent_row, collect_map, key_row}
use torrust_tracker.TrackerCore.Databases.Sqlite.WellFormed.{key_of, IsKeyTable, IsTorrentTable}

-- The key in a row, or none if its time cannot be read.
abbrev pub row_key : Text → Value → Option PeerKey
row_key t null = some (record { key = key_of t; valid_until = none })
row_key t (integer z) =
    some (record { key = key_of t; valid_until = some (unsigned_abs z * nanos) })
row_key t _ = none

-- The key in the row of a text, if there is a row.
abbrev pub found_key : Text → Option Value → Option PeerKey
found_key t none = none
found_key t (some v) = row_key t v

-- The number in a column of downloads.
abbrev pub downloads_of : Value → ℕ
downloads_of (integer z) = unsigned_abs z
downloads_of _ = 0

-- The conditions on a table hold of its rows but the first.
get-tail :
    {V : Type 0} (t u : Text) (v w : V) (l : HashMap Text V)
    → IsUnique ((t, v) ∷ l)
    → HashMap.get u l ≡ some w
    → HashMap.get u ((t, v) ∷ l) ≡ some w
unfolding HashMap.get
get-tail t u v w l unique e = ground (arith, text_eq_iff u t)

get-head :
    {V : Type 0} (t : Text) (v : V) (l : HashMap Text V) → HashMap.get t ((t, v) ∷ l) ≡ some v
unfolding HashMap.get
get-head t v l = ground (arith, text_eq_iff t t)

module _ (H : InfoHashText) (E : Engine) where
  pub collect_whitelist :
      (l : List Text)
      → IsHashColumn H l
      → (ks : List ℕ) × (collect_ok (whitelist_row H E) (map text l) ≡ some ks)
        × ((j : ℕ) → has j ks ≡ has_text (H.to_string j) l)
  unfolding collect_ok
  collect_whitelist [] h = ([], refl, λ j. refl)
  collect_whitelist (t ∷ l) h =
      let (k, e) = IsHashColumn-head H t l h in
      let (ks, rest, same) = collect_whitelist l (IsHashColumn-tail H t l h) in
      (
        k ∷ ks,
        ground (arith, E.column_string t, H.from_str-to_string k),
        λ j. ground (arith, same j, text_eq-to_string H j k),
      )

  -- Reading a stored time gives it back, or fails if it is later than an `i64` can hold.
  pub read_time :
      (o : Option ℕ) (v : Value)
      → Stores o v
      → ((v ≡ null) × (E.get_opt_i64 v ≡ ok none))
        ⊎ (((n : ℕ) × (v ≡ integer (pos n)) × (E.get_opt_i64 v ≡ ok (some (pos n))))
            ⊎ ((v ≡ real) × ((e : E.SqlError) × (E.get_opt_i64 v ≡ err e))))
  read_time none v stores = inl (stores, rw stores E.column_null)
  read_time (some n) v (fits, late) = elim (Bool-cases (ltb n (2 ^ 63))) [
    | inl small ↦ let e = fits (ground arith) in inr (inl (n, e, rw e (E.column_i64 (pos n))))
    | inr large ↦
        let e = late (ground arith) in
        let (e', failed) = E.column_real in inr (inr (e, (e', rw e failed)))
  ]

  pub collect_keys :
      (l : HashMap Text Value)
      → IsUnique l
      → IsKeyTable l
      → (ps : List PeerKey) × (collect_ok (key_row H E) (map (λ row. (text row.0, row.1)) l)
          ≡ some ps)
        × ((k : Text) → find_row k ps ≡ found_key k (HashMap.get k l))
  unfolding collect_ok key_of_row HashMap.get
  collect_keys [] unique h = ([], refl, λ k. refl)
  collect_keys ((t, v) ∷ l) unique h =
      let (o, valid, stores) = h t v (get-head t v l) in
      let (ps, rest, same) =
        collect_keys l unique.1 (λ u w found. h u w (get-tail t u v w l unique found)) in
      elim (read_time o v stores) [
        | inl (e, read) ↦ (
          record { key = key_of t; valid_until = none } ∷ ps,
          ground (arith, E.column_string t),
          λ k. ground (arith, same k, text_eq_iff k t),
        )
        | inr (inl (n, e, read)) ↦ (
          record { key = key_of t; valid_until = some (n * nanos) } ∷ ps,
          ground (arith, E.column_string t),
          λ k. ground (arith, same k, text_eq_iff k t),
        )
        | inr (inr (e, (e', failed))) ↦
            (ps, ground (arith, E.column_string t), λ k. ground (arith, same k, text_eq_iff k t))
      ]

  pub collect_torrents :
      (l : HashMap Text Value)
      → IsUnique l
      → IsTorrentTable H l
      → (ps : List (ℕ × ℕ)) × (collect_ok (torrent_row H E) (map (λ row. (text row.0, row.1)) l)
          ≡ some ps)
        × ((k : ℕ) (m : Map ℕ)
            → OrderedMap.lookup k (collect_map H E m ps) ≡ elim (HashMap.get (H.to_string k) l) [
              | some v ↦ some (downloads_of v)
              | none ↦ OrderedMap.lookup k m
            ])
  unfolding collect_ok HashMap.get collect_map
  collect_torrents [] unique h = ([], refl, λ k m. refl)
  collect_torrents ((t, v) ∷ l) unique h =
      let (j, n, e, f, bound) = h t v (get-head t v l) in
      let (ps, rest, same) =
        collect_torrents l unique.1 (λ u w found. h u w (get-tail t u v w l unique found)) in
      (
        (j, n) ∷ ps,
        ground (arith, E.column_string t, E.column_u32 n bound, H.from_str-to_string j),
        λ k m. ground (
          arith,
          same k (OrderedMap.insert j n m),
          lookup-insert j k n m,
          text_eq-to_string H k j,
          text_eq_iff (H.to_string k) t,
        ),
      )
