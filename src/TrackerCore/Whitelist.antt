-- ===== src/TrackerCore/Whitelist.antt =====
-- packages/tracker-core/src/whitelist: the whitelist in memory (repository/in_memory.rs) and in the
-- database (repository/persisted.rs), their manager (manager.rs), and the authorization of a torrent
-- (authorization.rs). The hash set is an ordered map to the unit type; its order is never read.
pub mod Laws
use torrust_tracker.Prelude.{
  ℕ, Bool, true, false, not, Option, none, some, List, [], ◌∷◌, if◌then◌else◌, ◌≡◌, ◌||◌, ◌==◌,
  Result, ok, err,
}
use torrust_tracker.OrderedMap
use torrust_tracker.OrderedMap.{Map}
use torrust_tracker.Configuration.{Core}

abbrev pub is_some {ℓ} : {A : Type ℓ} → Option A → Bool
is_some none = false
is_some (some a) = true

pub record InMemoryWhitelist : Type 0 where
  pub whitelist : Map (Unit {0})

abbrev pub empty : InMemoryWhitelist
empty = record { whitelist = [] }

unfoldable pub contains : InMemoryWhitelist → ℕ → Bool
contains w info_hash = is_some (OrderedMap.lookup info_hash w.whitelist)

-- `HashSet::insert` says whether the value was not there.
unfoldable pub add : InMemoryWhitelist → ℕ → InMemoryWhitelist × Bool
unfolding contains
add w info_hash =
    (record { whitelist = OrderedMap.insert info_hash tt w.whitelist }, not (contains w info_hash))

unfoldable pub remove : InMemoryWhitelist → ℕ → InMemoryWhitelist × Bool
unfolding contains
remove w info_hash =
    (record { whitelist = OrderedMap.remove info_hash w.whitelist }, contains w info_hash)

unfoldable pub clear : InMemoryWhitelist → InMemoryWhitelist
clear w = empty

pub data WhitelistError : Type 0 where
  torrent_not_whitelisted : ℕ → WhitelistError

unfoldable pub authorize : Core → InMemoryWhitelist → ℕ → Result WhitelistError (Unit {0})
authorize config w info_hash =
    if not config.listed
    then ok tt
    else if contains w info_hash
    then ok tt
    else err (torrent_not_whitelisted info_hash)

-- Whether a list of rows has an info hash.
abbrev pub has : ℕ → List ℕ → Bool
has k [] = false
has k (j ∷ js) = k == j || has k js

-- The whitelist table, as a driver of the database offers it (databases/mod.rs): `rows` is what the
-- table holds. The laws are what the comments of the trait say: a query reads the table, an addition
-- and a removal change one row, and a call that fails changes nothing.
pub record WhitelistStore : Type 1 where
  pub Db : Type 0
  pub Error : Type 0
  pub rows : Db → List ℕ
  pub load_whitelist : Db → Result Error (List ℕ)
  pub get_info_hash_from_whitelist : ℕ → Db → Result Error (Option ℕ)
  pub add_info_hash_to_whitelist : ℕ → Db → Result Error ℕ × Db
  pub remove_info_hash_from_whitelist : ℕ → Db → Result Error ℕ × Db
  pub load_lem :
      (db : Db) (l : List ℕ) (j : ℕ) → load_whitelist db ≡ ok l → has j l ≡ has j (rows db)
  pub get_lem :
      (k : ℕ) (db : Db) (o : Option ℕ)
      → get_info_hash_from_whitelist k db ≡ ok o
      → is_some o ≡ has k (rows db)
  pub add_ok :
      (k : ℕ) (db : Db) (n j : ℕ)
      → (add_info_hash_to_whitelist k db).0 ≡ ok n
      → has j (rows (add_info_hash_to_whitelist k db).1) ≡ (j == k || has j (rows db))
  pub add_err :
      (k : ℕ) (db : Db) (e : Error)
      → (add_info_hash_to_whitelist k db).0 ≡ err e
      → (add_info_hash_to_whitelist k db).1 ≡ db
  pub remove_ok :
      (k : ℕ) (db : Db) (n j : ℕ)
      → (remove_info_hash_from_whitelist k db).0 ≡ ok n
      → has j (rows (remove_info_hash_from_whitelist k db).1)
        ≡ (if j == k then false else has j (rows db))
  pub remove_err :
      (k : ℕ) (db : Db) (e : Error)
      → (remove_info_hash_from_whitelist k db).0 ≡ err e
      → (remove_info_hash_from_whitelist k db).1 ≡ db

module _ (D : WhitelistStore) where
  abbrev pub Outcome : Type 0
  Outcome = Result D.Error (Unit {0})

  -- The number of rows that a statement changed is dropped.
  abbrev done : Result D.Error ℕ × D.Db → Outcome × D.Db
  done (ok n, db) = (ok tt, db)
  done (err e, db) = (err e, db)

  -- The default method of the trait `Database`.
  unfoldable pub is_info_hash_whitelisted : ℕ → D.Db → Result D.Error Bool
  is_info_hash_whitelisted info_hash db = elim (D.get_info_hash_from_whitelist info_hash db) [
    | ok o ↦ ok (is_some o)
    | err e ↦ err e
  ]

  -- `DatabaseWhitelist::add`
  unfoldable pub add_to_database : ℕ → D.Db → Outcome × D.Db
  unfolding is_info_hash_whitelisted
  add_to_database info_hash db = elim (is_info_hash_whitelisted info_hash db) [
    | err e ↦ (err e, db)
    | ok is_whitelisted ↦
        if is_whitelisted then (ok tt, db) else done (D.add_info_hash_to_whitelist info_hash db)
  ]

  -- `DatabaseWhitelist::remove`
  unfoldable pub remove_from_database : ℕ → D.Db → Outcome × D.Db
  unfolding is_info_hash_whitelisted
  remove_from_database info_hash db = elim (is_info_hash_whitelisted info_hash db) [
    | err e ↦ (err e, db)
    | ok is_whitelisted ↦
        if not is_whitelisted
        then (ok tt, db)
        else done (D.remove_info_hash_from_whitelist info_hash db)
  ]

  pub record WhitelistManager : Type 0 where
    pub db : D.Db
    pub in_memory : InMemoryWhitelist

  abbrev then_in_memory :
      (InMemoryWhitelist → InMemoryWhitelist)
      → Outcome × D.Db
      → InMemoryWhitelist
      → Outcome × WhitelistManager
  then_in_memory f (ok u, db) w = (ok tt, record { db = db; in_memory = f w })
  then_in_memory f (err e, db) w = (err e, record { db = db; in_memory = w })

  unfoldable pub add_torrent_to_whitelist : WhitelistManager → ℕ → Outcome × WhitelistManager
  unfolding add_to_database
  add_torrent_to_whitelist s info_hash =
      then_in_memory (λ w. (add w info_hash).0) (add_to_database info_hash s.db) s.in_memory

  unfoldable pub remove_torrent_from_whitelist : WhitelistManager → ℕ → Outcome × WhitelistManager
  unfolding remove_from_database
  remove_torrent_from_whitelist s info_hash =
      then_in_memory (λ w. (remove w info_hash).0) (remove_from_database info_hash s.db) s.in_memory

  -- The loop of `load_whitelist_from_database`.
  unfoldable pub add_each : InMemoryWhitelist → List ℕ → InMemoryWhitelist
  add_each w [] = w
  add_each w (info_hash ∷ rest) = add_each (add w info_hash).0 rest

  unfoldable pub load_whitelist_from_database : WhitelistManager → Outcome × WhitelistManager
  unfolding add_each
  load_whitelist_from_database s = elim (D.load_whitelist s.db) [
    | err e ↦ (err e, s)
    | ok info_hashes ↦ (ok tt, record s { in_memory = add_each (clear s.in_memory) info_hashes })
  ]
