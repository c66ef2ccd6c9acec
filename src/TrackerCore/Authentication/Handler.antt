-- ===== src/TrackerCore/Authentication/Handler.antt =====
-- packages/tracker-core/src/authentication/handler.rs, with the repository of keys in the database
-- (key/repository/persisted.rs), which is an interface here.
pub mod Laws
use torrust_tracker.Prelude.{
  ℕ, ◌*◌, Option, none, some, List, ◌≡◌, if◌then◌else◌, Result, ok, err, Text, text_eq,
}
use mathlib.Core.Option
use torrust_tracker.TrackerCore.Authentication.Key
use torrust_tracker.TrackerCore.Authentication.Key.{
  PeerKey, ParseKeyError, InMemoryKeyRepository, generate_key, now_add, nanos, as_secs,
}
use torrust_tracker.TrackerCore.Authentication.Key.Laws.{find_row}

-- The keys table, as a driver of the database offers it (databases/mod.rs): `stored` is what the
-- table holds, for each key its expiry in whole seconds (the comments of peer_key.rs), and `Fits` are the
-- expiries that its column holds. A call that fails changes nothing.
pub record KeyStore : Type 1 where
  pub Db : Type 0
  pub Error : Type 0
  pub stored : Db → Text → Option (Option ℕ)
  pub Fits : Option ℕ → Type 0
  pub load_keys : Db → Result Error (List PeerKey)
  pub add_key_to_keys : PeerKey → Db → Result Error ℕ × Db
  pub remove_key_from_keys : Key.Key → Db → Result Error ℕ × Db
  pub load_lem :
      (db : Db) (l : List PeerKey) (k : Text)
      → load_keys db ≡ ok l
      → find_row k l
        ≡ Option.map
            (λ t. record {
              key = record { value = k };
              valid_until = Option.map (λ s. s * nanos) t;
            })
            (stored db k)
  pub add_ok :
      (p : PeerKey) (db : Db) (n : ℕ) (k : Text)
      → Fits p.valid_until
      → (add_key_to_keys p db).0 ≡ ok n
      → stored (add_key_to_keys p db).1 k
        ≡ (if text_eq k p.key.value then some (Option.map as_secs p.valid_until) else stored db k)
  pub add_err :
      (p : PeerKey) (db : Db) (e : Error)
      → (add_key_to_keys p db).0 ≡ err e
      → (add_key_to_keys p db).1 ≡ db
  pub remove_ok :
      (j : Key.Key) (db : Db) (n : ℕ) (k : Text)
      → (remove_key_from_keys j db).0 ≡ ok n
      → stored (remove_key_from_keys j db).1 k ≡ (if text_eq k j.value then none else stored db k)
  pub remove_err :
      (j : Key.Key) (db : Db) (e : Error)
      → (remove_key_from_keys j db).0 ≡ err e
      → (remove_key_from_keys j db).1 ≡ db

pub record AddKeyRequest : Type 0 where
  pub opt_key : Option Text
  pub opt_seconds_valid : Option ℕ

module _ (D : KeyStore) where
  pub record KeysHandler : Type 0 where
    pub db : D.Db
    pub in_memory : InMemoryKeyRepository

  pub data PeerKeyError : Type 0 where
    duration_overflow : ℕ → PeerKeyError
    invalid_key : Text → ParseKeyError → PeerKeyError
    database_error : D.Error → PeerKeyError

  -- What a request ends with: a result, or a panic.
  pub data Outcome : Type 0 where
    returned : Result PeerKeyError PeerKey → Outcome
    panicked : Outcome

  -- `self.db_key_repository.add(&peer_key)?`, then the insertion in memory.
  abbrev insert_if_added :
      PeerKey
      → InMemoryKeyRepository
      → Result D.Error ℕ × D.Db
      → Result D.Error PeerKey × KeysHandler
  insert_if_added p m (ok n, db) = (ok p, record { db = db; in_memory = Key.insert m p })
  insert_if_added p m (err e, db) = (err e, record { db = db; in_memory = m })

  unfoldable pub add_expiring_peer_key :
      KeysHandler → Key.Key → Option ℕ → Result D.Error PeerKey × KeysHandler
  add_expiring_peer_key s key valid_until =
      let peer_key : PeerKey = record { key = key; valid_until = valid_until } in
      insert_if_added peer_key s.in_memory (D.add_key_to_keys peer_key s.db)

  unfoldable pub add_permanent_peer_key :
      KeysHandler → Key.Key → Result D.Error PeerKey × KeysHandler
  unfolding add_expiring_peer_key
  add_permanent_peer_key s key = add_expiring_peer_key s key none

  -- `none` where `generate_key` panics.
  unfoldable pub generate_expiring_peer_key :
      KeysHandler → Key.Key → ℕ → Option ℕ → Option (Result D.Error PeerKey × KeysHandler)
  generate_expiring_peer_key s random_key now lifetime =
      elim (generate_key random_key now lifetime) [
        | none ↦ none
        | some peer_key ↦
            some (insert_if_added peer_key s.in_memory (D.add_key_to_keys peer_key s.db))
      ]

  unfoldable pub generate_permanent_peer_key :
      KeysHandler → Key.Key → ℕ → Option (Result D.Error PeerKey × KeysHandler)
  unfolding generate_expiring_peer_key
  generate_permanent_peer_key s random_key now = generate_expiring_peer_key s random_key now none

  -- The match on the result of the insertion.
  abbrev located : Result D.Error PeerKey × KeysHandler → Outcome × KeysHandler
  located (ok auth_key, s) = (returned (ok auth_key), s)
  located (err e, s) = (returned (err (database_error e)), s)

  abbrev located_or_panic :
      KeysHandler → Option (Result D.Error PeerKey × KeysHandler) → Outcome × KeysHandler
  located_or_panic s none = (panicked, s)
  located_or_panic s (some r) = located r

  -- `pre_existing_key.parse::<Key>()`, and the insertion with the expiry.
  abbrev parse_and_add :
      KeysHandler → Text → Option ℕ → Result ParseKeyError Key.Key → Outcome × KeysHandler
  parse_and_add s text valid_until (ok key) = located (add_expiring_peer_key s key valid_until)
  parse_and_add s text valid_until (err e) = (returned (err (invalid_key text e)), s)

  abbrev parse_and_add_permanent :
      KeysHandler → Text → Result ParseKeyError Key.Key → Outcome × KeysHandler
  parse_and_add_permanent s text (ok key) = located (add_permanent_peer_key s key)
  parse_and_add_permanent s text (err e) = (returned (err (invalid_key text e)), s)

  -- With a key given.
  abbrev add_pre_existing : KeysHandler → ℕ → Text → Option ℕ → Outcome × KeysHandler
  add_pre_existing s now text (some seconds_valid) = elim (now_add now (seconds_valid * nanos)) [
    | none ↦ (returned (err (duration_overflow seconds_valid)), s)
    | some valid_until ↦ parse_and_add s text (some valid_until) (Key.new text)
  ]
  add_pre_existing s now text none = parse_and_add_permanent s text (Key.new text)

  -- With a key to draw.
  abbrev add_generated : KeysHandler → Key.Key → ℕ → Option ℕ → Outcome × KeysHandler
  add_generated s random_key now (some seconds_valid) =
      located_or_panic s
        (generate_expiring_peer_key s random_key now (some (seconds_valid * nanos)))
  add_generated s random_key now none =
      located_or_panic s (generate_permanent_peer_key s random_key now)

  abbrev add_by : KeysHandler → Key.Key → ℕ → Option Text → Option ℕ → Outcome × KeysHandler
  add_by s random_key now (some text) seconds = add_pre_existing s now text seconds
  add_by s random_key now none seconds = add_generated s random_key now seconds

  unfoldable pub add_peer_key : KeysHandler → Key.Key → ℕ → AddKeyRequest → Outcome × KeysHandler
  unfolding add_expiring_peer_key add_permanent_peer_key generate_expiring_peer_key
      generate_permanent_peer_key
  add_peer_key s random_key now request =
      add_by s random_key now request.opt_key request.opt_seconds_valid

  abbrev remove_if_removed :
      Key.Key
      → InMemoryKeyRepository
      → Result D.Error ℕ × D.Db
      → Result D.Error (Unit {0}) × KeysHandler
  remove_if_removed k m (ok n, db) = (ok tt, record { db = db; in_memory = Key.remove m k })
  remove_if_removed k m (err e, db) = (err e, record { db = db; in_memory = m })

  unfoldable pub remove_peer_key : KeysHandler → Key.Key → Result D.Error (Unit {0}) × KeysHandler
  remove_peer_key s key = remove_if_removed key s.in_memory (D.remove_key_from_keys key s.db)

  unfoldable pub load_peer_keys_from_database :
      KeysHandler → Result D.Error (Unit {0}) × KeysHandler
  load_peer_keys_from_database s = elim (D.load_keys s.db) [
    | err e ↦ (err e, s)
    | ok keys_from_database ↦
        (ok tt, record s { in_memory = Key.reset_with s.in_memory keys_from_database })
  ]
