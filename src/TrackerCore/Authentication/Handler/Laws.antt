-- ===== src/TrackerCore/Authentication/Handler/Laws.antt =====
-- The keys in memory and those of the database agree, and what each request to add a key ends with.
use torrust_tracker.Prelude.{
  ℕ, ◌+◌, ◌*◌, ◌/◌, ◌^◌, ◌≤◌, true, ◌≡◌, ◌≢◌, ◌⊎◌, inl, inr, refl, sym, ap, ◌∙◌, text_eq_iff,
  Option, none, some, arith, if◌then◌else◌, Result, ok, err, Text, ltb, Result-cases,
}
use mathlib.Core.Option
use torrust_tracker.Configuration.{Core}
use torrust_tracker.TrackerCore.Authentication.Key
use torrust_tracker.TrackerCore.Authentication.Key.{
  PeerKey, InMemoryKeyRepository, generate_key, now_add, nanos, as_secs, authenticate,
  verify_key_expiration, key_expired, unable_to_read_key, auth_key_length,
}
use torrust_tracker.TrackerCore.Authentication.Key.Laws.{
  get-insert_key, get-remove_key, get-reset_with, checks_expiration, in_time,
}
use torrust_tracker.TrackerCore.Authentication.Handler.{
  KeyStore, AddKeyRequest, KeysHandler, Outcome, returned, panicked, insert_if_added, located,
  PeerKeyError, invalid_key, add_peer_key, remove_peer_key, load_peer_keys_from_database,
  duration_overflow,
}

-- The expiry in whole seconds of a key that was found.
abbrev pub stored_expiry : Option PeerKey → Option (Option ℕ)
stored_expiry none = none
stored_expiry (some p) = some (Option.map as_secs p.valid_until)

abbrev key_of : Text → Key.Key
key_of k = record { value = k }

stored_expiry-row :
    (k : Text) (o : Option (Option ℕ))
    → stored_expiry
        (Option.map (λ t. record { key = key_of k; valid_until = Option.map (λ s. s * nanos) t }) o)
      ≡ o
stored_expiry-row k none = refl
stored_expiry-row k (some none) = refl
stored_expiry-row k (some (some s)) =
    let e : s * nanos / nanos ≡ s = omega arith in ap (λ (n : ℕ). some (some n)) e

module _ (D : KeyStore) where
  -- The memory has the keys of the database, with the same expiry up to fractions of seconds.
  abbrev pub InSync : KeysHandler D → Type 0
  InSync s = (k : Text) → stored_expiry (Key.get s.in_memory (key_of k)) ≡ D.stored s.db k

  -- The insertion of a key, as the database answers.
  abbrev inserted : KeysHandler D → PeerKey → KeysHandler D
  inserted s p = (insert_if_added D p s.in_memory (D.add_key_to_keys p s.db)).1

  inserted-InSync :
      (s : KeysHandler D) (p : PeerKey) → D.Fits p.valid_until → InSync s → InSync (inserted s p)
  inserted-InSync s p fits h k = elim (Result-cases (D.add_key_to_keys p s.db).0) [
    | inl (n, q) ↦
        ground (arith, D.add_ok p s.db n k fits, get-insert_key s.in_memory p (key_of k), h k)
    | inr (e, q) ↦ ground (arith, D.add_err p s.db e, h k)
  ]

  -- The expiry that a request asks for: `none` if it is later than a clock can tell.
  abbrev pub asked_expiry : ℕ → Option ℕ → Option (Option ℕ)
  asked_expiry now none = some none
  asked_expiry now (some seconds) =
      if ltb (now + seconds * nanos) (2 ^ 64 * nanos)
      then some (some (now + seconds * nanos))
      else none

  abbrev asked_text : Text → Option ℕ → Option (Option ℕ) → Result (Option (PeerKeyError D)) PeerKey
  asked_text text (some seconds) none = err (some (duration_overflow seconds))
  asked_text text none none = err none
  asked_text text seconds (some valid_until) = elim (Key.new text) [
    | ok key ↦ ok (record { key = key; valid_until = valid_until })
    | err e ↦ err (some (invalid_key text e))
  ]

  abbrev asked_random : Key.Key → Option (Option ℕ) → Result (Option (PeerKeyError D)) PeerKey
  asked_random random_key none = err none
  asked_random random_key (some valid_until) =
      ok (record { key = random_key; valid_until = valid_until })

  -- The key that a request asks for, or what the request ends with at once: an expiry that is too
  -- late is reported if a key is given, and panics if one is to be drawn; a given text that is no
  -- key is reported.
  abbrev pub asked : Key.Key → ℕ → AddKeyRequest → Result (Option (PeerKeyError D)) PeerKey
  asked random_key now request = elim request.opt_key [
    | some text ↦
        asked_text text request.opt_seconds_valid (asked_expiry now request.opt_seconds_valid)
    | none ↦ asked_random random_key (asked_expiry now request.opt_seconds_valid)
  ]

  -- What the insertion of the asked key ends with.
  abbrev pub ended :
      KeysHandler D → Result (Option (PeerKeyError D)) PeerKey → Outcome D × KeysHandler D
  ended s (err none) = (panicked, s)
  ended s (err (some e)) = (returned (err e), s)
  ended s (ok p) = located D (insert_if_added D p s.in_memory (D.add_key_to_keys p s.db))

  -- A request to add a key either ends at once, with everything as it was, or inserts the key that
  -- it asks for into the database and, if that succeeds, into the memory.
  pub add_peer_key_lem :
      (s : KeysHandler D) (random_key : Key.Key) (now : ℕ) (request : AddKeyRequest)
      → add_peer_key D s random_key now request ≡ ended s (asked random_key now request)
  unfolding add_peer_key generate_key now_add
  add_peer_key_lem s random_key now request = ground arith

  ended_cases :
      (s : KeysHandler D) (r : Result (Option (PeerKeyError D)) PeerKey)
      → ((ended s r).1 ≡ s) ⊎ ((p : PeerKey) × (r ≡ ok p) × ((ended s r).1 ≡ inserted s p))
  ended_cases s (err none) = inl refl
  ended_cases s (err (some e)) = inl refl
  ended_cases s (ok p) = inr (p, refl, ground arith)

  -- Adding a key keeps the memory and the database the same, up to fractions of seconds in an expiry,
  -- however the request ends, if the expiry that it asks for fits in its column.
  pub add_peer_key-InSync :
      (s : KeysHandler D) (random_key : Key.Key) (now : ℕ) (request : AddKeyRequest)
      → ((p : PeerKey) → asked random_key now request ≡ ok p → D.Fits p.valid_until)
      → InSync s
      → InSync (add_peer_key D s random_key now request).1
  add_peer_key-InSync s random_key now request fits h =
      rw add_peer_key_lem (elim (ended_cases s (asked random_key now request)) [
        | inl same ↦ rw same h
        | inr (p, wanted, changed) ↦ rw changed (inserted-InSync s p (fits p wanted) h)
      ])

  -- Removing a key keeps the memory and the database the same, also where it fails.
  pub remove_peer_key-InSync :
      (s : KeysHandler D) (key : Key.Key) → InSync s → InSync (remove_peer_key D s key).1
  unfolding remove_peer_key
  remove_peer_key-InSync s key h k = elim (Result-cases (D.remove_key_from_keys key s.db).0) [
    | inl (n, q) ↦
        ground (arith, D.remove_ok key s.db n k, get-remove_key s.in_memory key (key_of k), h k)
    | inr (e, q) ↦ ground (arith, D.remove_err key s.db e, h k)
  ]

  -- Loading the keys, where it succeeds, makes the memory agree with the database, whatever it held before.
  pub load_peer_keys-InSync :
      (s : KeysHandler D)
      → (load_peer_keys_from_database D s).0 ≡ ok tt
      → InSync (load_peer_keys_from_database D s).1
  unfolding load_peer_keys_from_database
  load_peer_keys-InSync s h k = elim (Result-cases (D.load_keys s.db)) [
    | inr (e, q) ↦ ground arith
    | inl (l, q) ↦
        rw (q, load_peer_keys_from_database)
          (rw (get-reset_with, D.load_lem s.db l k q) (stored_expiry-row k (D.stored s.db k)))
  ]

  ended-fails :
      (s : KeysHandler D) (r : Result (Option (PeerKeyError D)) PeerKey)
      → ((p : PeerKey) → (ended s r).0 ≢ returned (ok p))
      → (ended s r).1 ≡ s
  ended-fails s (err none) h = refl
  ended-fails s (err (some e)) h = refl
  ended-fails s (ok p) h = elim (Result-cases (D.add_key_to_keys p s.db).0) [
    | inl (n, q) ↦ absurd (h p (ground arith))
    | inr (e, q) ↦ ground (arith, D.add_err p s.db e)
  ]

  -- A request that does not end with a key leaves the memory and the database as they were.
  pub add_peer_key-fails :
      (s : KeysHandler D) (random_key : Key.Key) (now : ℕ) (request : AddKeyRequest)
      → ((p : PeerKey) → (add_peer_key D s random_key now request).0 ≢ returned (ok p))
      → (add_peer_key D s random_key now request).1 ≡ s
  add_peer_key-fails s random_key now request =
      rw add_peer_key_lem (ended-fails s (asked random_key now request))

  -- A request for a new key with a lifetime that the clock cannot hold panics, while the same
  -- lifetime with a given key is reported as an error.
  pub add_peer_key_overflow :
      (s : KeysHandler D) (random_key : Key.Key) (now seconds : ℕ) (text : Text)
      → 2 ^ 64 * nanos ≤ now + seconds * nanos
      → ((add_peer_key D s random_key now
            (record { opt_key = none; opt_seconds_valid = some seconds })).0
          ≡ panicked)
        × ((add_peer_key D s random_key now
              (record { opt_key = some text; opt_seconds_valid = some seconds })).0
            ≡ returned (err (duration_overflow seconds)))
  add_peer_key_overflow s random_key now seconds text late =
      rw (add_peer_key_lem) (rw add_peer_key_lem (ground arith))

  ended_ok :
      (s : KeysHandler D) (r : Result (Option (PeerKeyError D)) PeerKey) (p : PeerKey)
      → (ended s r).0 ≡ returned (ok p)
      → (r ≡ ok p) × ((ended s r).1.in_memory ≡ Key.insert s.in_memory p)
  ended_ok s (err none) p h = ground arith
  ended_ok s (err (some e)) p h = ground arith
  ended_ok s (ok q) p h = ground arith

  asked_ok :
      (random_key : Key.Key) (now : ℕ) (request : AddKeyRequest) (p : PeerKey)
      → asked random_key now request ≡ ok p
      → asked_expiry now request.opt_seconds_valid ≡ some p.valid_until
  asked_ok random_key now request p h = ground arith

  module _ (config : Core) (s : KeysHandler D) (random_key : Key.Key) (now : ℕ)
      (request : AddKeyRequest) (p : PeerKey)
      (added : (add_peer_key D s random_key now request).0 ≡ returned (ok p)) where
    added_lem :
        (asked random_key now request ≡ ok p)
        × ((add_peer_key D s random_key now request).1.in_memory ≡ Key.insert s.in_memory p)
    added_lem = rw add_peer_key_lem (
        ended_ok s (asked random_key now request) p (
          sym (
            ap (λ (o : Outcome D × KeysHandler D). o.0) (add_peer_key_lem s random_key now request))
          ∙ added))

    -- After a request added a key, its expiry is the one that was asked for, and a private tracker
    -- that checks expiries accepts it until then, that instant included, and refuses it as
    -- expired afterwards; a key without expiry is accepted at any time.
    pub authenticate-add_peer_key :
        (t : ℕ)
        → config.private_tracker ≡ true
        → checks_expiration config.private_mode ≡ true
        → (asked_expiry now request.opt_seconds_valid ≡ some p.valid_until)
          × (authenticate config (add_peer_key D s random_key now request).1.in_memory t p.key
              ≡ (if in_time p.valid_until t then ok tt else err key_expired))
    unfolding authenticate verify_key_expiration
    authenticate-add_peer_key t priv checks = (
      asked_ok random_key now request p added_lem.0,
      ground (
        arith,
        added_lem.1,
        get-insert_key s.in_memory p p.key,
        text_eq_iff p.key.value p.key.value,
      ),
    )

-- Removing a key makes a private tracker refuse it, whatever its expiry was.
pub authenticate-remove_peer_key :
    (D : KeyStore) (config : Core) (s : KeysHandler D) (k : Key.Key) (t : ℕ)
    → config.private_tracker ≡ true
    → (remove_peer_key D s k).0 ≡ ok tt
    → authenticate config (remove_peer_key D s k).1.in_memory t k ≡ err (unable_to_read_key k)
unfolding authenticate remove_peer_key
authenticate-remove_peer_key D config s k t priv removed =
    ground (arith, get-remove_key s.in_memory k k, text_eq_iff k.value k.value)
