-- ===== src/TrackerCore/Whitelist/Laws.antt =====
-- The whitelist in memory and that of the database agree.
use torrust_tracker.Prelude.{
  ℕ, true, false, ◌≡◌, refl, List, [], ◌∷◌, inl, inr, arith, if◌then◌else◌, ◌||◌, ◌==◌, ok, err,
  Result-cases,
}
use torrust_tracker.OrderedMap
use torrust_tracker.OrderedMap.Laws.{lookup-insert, lookup-remove}
use torrust_tracker.Configuration.{Core}
use torrust_tracker.TrackerCore.Whitelist.{
  InMemoryWhitelist, contains, add, remove, clear, authorize, has, WhitelistStore, add_to_database,
  remove_from_database, WhitelistManager, add_torrent_to_whitelist, remove_torrent_from_whitelist,
  add_each, load_whitelist_from_database, torrent_not_whitelisted,
}

pub contains-add :
    (w : InMemoryWhitelist) (k j : ℕ) → contains (add w k).0 j ≡ (j == k || contains w j)
unfolding add
contains-add w k j = ground (arith, lookup-insert k j tt w.whitelist)

pub contains-remove :
    (w : InMemoryWhitelist) (k j : ℕ)
    → contains (remove w k).0 j ≡ (if j == k then false else contains w j)
unfolding remove
contains-remove w k j = ground (arith, lookup-remove k j w.whitelist)

module _ (D : WhitelistStore) where
  -- The two whitelists have the same info hashes.
  abbrev pub InSync : WhitelistManager D → Type 0
  InSync s = (j : ℕ) → contains s.in_memory j ≡ has j (D.rows s.db)

  -- What the operations on the database do, whether a row was there or not.
  module _ (k : ℕ) (db : D.Db) where
    add_to_database_ok :
        (j : ℕ)
        → (add_to_database D k db).0 ≡ ok tt
        → has j (D.rows (add_to_database D k db).1) ≡ (j == k || has j (D.rows db))
    unfolding add_to_database
    add_to_database_ok j h = elim (Result-cases (D.get_info_hash_from_whitelist k db)) [
      | inr (e, q) ↦ ground arith
      | inl (o, q) ↦ elim (Result-cases (D.add_info_hash_to_whitelist k db).0) [
        | inr (e, r) ↦ ground (arith, D.get_lem k db o)
        | inl (n, r) ↦ ground (arith, D.get_lem k db o, D.add_ok k db n j)
      ]
    ]

    add_to_database_err :
        (e : D.Error) → (add_to_database D k db).0 ≡ err e → (add_to_database D k db).1 ≡ db
    unfolding add_to_database
    add_to_database_err e h = ground (arith, D.add_err k db e)

    remove_from_database_ok :
        (j : ℕ)
        → (remove_from_database D k db).0 ≡ ok tt
        → has j (D.rows (remove_from_database D k db).1)
          ≡ (if j == k then false else has j (D.rows db))
    unfolding remove_from_database
    remove_from_database_ok j h = elim (Result-cases (D.get_info_hash_from_whitelist k db)) [
      | inr (e, q) ↦ ground arith
      | inl (o, q) ↦ elim (Result-cases (D.remove_info_hash_from_whitelist k db).0) [
        | inr (e, r) ↦ ground (arith, D.get_lem k db o)
        | inl (n, r) ↦ ground (arith, D.get_lem k db o, D.remove_ok k db n j)
      ]
    ]

    remove_from_database_err :
        (e : D.Error)
        → (remove_from_database D k db).0 ≡ err e
        → (remove_from_database D k db).1 ≡ db
    unfolding remove_from_database
    remove_from_database_err e h = ground (arith, D.remove_err k db e)

  module _ (s : WhitelistManager D) (k : ℕ) where
    -- Adding a torrent: on success the database has it besides what it had, and so has the memory;
    -- on an error nothing changed anywhere.
    pub add_torrent_ok :
        (j : ℕ)
        → (add_torrent_to_whitelist D s k).0 ≡ ok tt
        → (has j (D.rows (add_torrent_to_whitelist D s k).1.db) ≡ (j == k || has j (D.rows s.db)))
          × (contains (add_torrent_to_whitelist D s k).1.in_memory j
              ≡ (j == k || contains s.in_memory j))
    unfolding add_torrent_to_whitelist
    add_torrent_ok j h = ground (arith, add_to_database_ok k s.db j, contains-add s.in_memory k j)

    pub add_torrent_err :
        (e : D.Error)
        → (add_torrent_to_whitelist D s k).0 ≡ err e
        → (add_torrent_to_whitelist D s k).1 ≡ s
    unfolding add_torrent_to_whitelist
    add_torrent_err e h = ground (arith, add_to_database_err k s.db e)

    pub remove_torrent_ok :
        (j : ℕ)
        → (remove_torrent_from_whitelist D s k).0 ≡ ok tt
        → (has j (D.rows (remove_torrent_from_whitelist D s k).1.db)
            ≡ (if j == k then false else has j (D.rows s.db)))
          × (contains (remove_torrent_from_whitelist D s k).1.in_memory j
              ≡ (if j == k then false else contains s.in_memory j))
    unfolding remove_torrent_from_whitelist
    remove_torrent_ok j h =
        ground (arith, remove_from_database_ok k s.db j, contains-remove s.in_memory k j)

    pub remove_torrent_err :
        (e : D.Error)
        → (remove_torrent_from_whitelist D s k).0 ≡ err e
        → (remove_torrent_from_whitelist D s k).1 ≡ s
    unfolding remove_torrent_from_whitelist
    remove_torrent_err e h = ground (arith, remove_from_database_err k s.db e)

  contains-add_each :
      (w : InMemoryWhitelist) (l : List ℕ) (j : ℕ)
      → contains (add_each D w l) j ≡ (has j l || contains w j)
  unfolding add_each
  contains-add_each w [] j = refl
  contains-add_each w (k ∷ l) j =
      ground (arith, contains-add_each (add w k).0 l j, contains-add w k j)

  -- Adding a torrent keeps the two whitelists the same, whether it succeeds or fails.
  pub add_torrent-InSync :
      (s : WhitelistManager D) (k : ℕ) → InSync s → InSync (add_torrent_to_whitelist D s k).1
  add_torrent-InSync s k h j = elim (Result-cases (add_torrent_to_whitelist D s k).0) [
    | inl (u, q) ↦ ground (arith, add_torrent_ok s k j, h j)
    | inr (e, q) ↦ rw (add_torrent_err s k e q) (h j)
  ]

  -- Removing a torrent keeps the two whitelists the same, whether it succeeds or fails.
  pub remove_torrent-InSync :
      (s : WhitelistManager D) (k : ℕ) → InSync s → InSync (remove_torrent_from_whitelist D s k).1
  remove_torrent-InSync s k h j = elim (Result-cases (remove_torrent_from_whitelist D s k).0) [
    | inl (u, q) ↦ ground (arith, remove_torrent_ok s k j, h j)
    | inr (e, q) ↦ rw (remove_torrent_err s k e q) (h j)
  ]

  -- Loading the whitelist, where it succeeds, makes the memory agree with the database, whatever it held before.
  pub load_whitelist-InSync :
      (s : WhitelistManager D)
      → (load_whitelist_from_database D s).0 ≡ ok tt
      → InSync (load_whitelist_from_database D s).1
  unfolding load_whitelist_from_database clear contains OrderedMap.lookup
  load_whitelist-InSync s h j = elim (Result-cases (D.load_whitelist s.db)) [
    | inr (e, q) ↦ ground arith
    | inl (l, q) ↦ ground (arith, contains-add_each (clear s.in_memory) l j, D.load_lem s.db l j q)
  ]

  pub load_keeps_db : (s : WhitelistManager D) → (load_whitelist_from_database D s).1.db ≡ s.db
  unfolding load_whitelist_from_database
  load_keeps_db s = elim (Result-cases (D.load_whitelist s.db)) [
    | inl (l, q) ↦ ground arith
    | inr (e, q) ↦ ground arith
  ]

  module _ (config : Core) (s : WhitelistManager D) (k j : ℕ) (listed : config.listed ≡ true) where
    -- On a tracker with a whitelist, after a torrent is added it is authorized, and the other
    -- torrents are authorized as before.
    pub authorize-add_torrent :
        (add_torrent_to_whitelist D s k).0 ≡ ok tt
        → authorize config (add_torrent_to_whitelist D s k).1.in_memory j
          ≡ (if j == k then ok tt else authorize config s.in_memory j)
    unfolding authorize
    authorize-add_torrent h = ground (arith, add_torrent_ok s k j h)

    -- On a tracker with a whitelist, after a torrent is removed it is refused, and the other
    -- torrents are authorized as before.
    pub authorize-remove_torrent :
        (remove_torrent_from_whitelist D s k).0 ≡ ok tt
        → authorize config (remove_torrent_from_whitelist D s k).1.in_memory j
          ≡ (if j == k then err (torrent_not_whitelisted j) else authorize config s.in_memory j)
    unfolding authorize
    authorize-remove_torrent h = ground (arith, remove_torrent_ok s k j h)
