-- ===== src/TrackerCore/Authentication/Key.antt =====
-- packages/tracker-core/src/authentication/key/mod.rs and peer_key.rs, and service.rs with the keys in
-- memory (key/repository/in_memory.rs). The time is an argument: what the clock shows when it is
-- read, in nanoseconds. The random generator is an argument too: the characters that it draws.
pub mod Laws
use torrust_tracker.Prelude.{
  ℕ, ◌+◌, ◌*◌, ◌/◌, ◌^◌, Bool, true, false, not, ◌&&◌, Option, none, some, List, [], ◌∷◌,
  if◌then◌else◌, Result, ok, err, ◌==◌, ltb, Text, text_eq, str_len, is_ascii_alphanumeric, all_b,
  text_eq_instance,
}
use torrust_tracker.HashMap
use torrust_tracker.HashMap.{HashMap}
use torrust_tracker.Configuration.{Core, PrivateMode}

-- `AUTH_KEY_LENGTH`
abbrev pub auth_key_length : ℕ
auth_key_length = 32

-- A key is its text.
pub record Key : Type 0 where
  pub value : Text

pub data ParseKeyError : Type 0 where
  invalid_key_length invalid_chars : ParseKeyError

-- `Key::new`
unfoldable pub new : Text → Result ParseKeyError Key
new value =
    if not (str_len value == auth_key_length)
    then err invalid_key_length
    else if not (all_b is_ascii_alphanumeric value)
    then err invalid_chars
    else ok (record { value = value })

pub record PeerKey : Type 0 where
  pub key : Key
  pub valid_until : Option ℕ

abbrev pub nanos : ℕ
nanos = 1_000_000_000

abbrev pub as_secs : ℕ → ℕ
as_secs t = t / nanos

abbrev valid_until_eq : Option ℕ → Option ℕ → Bool
valid_until_eq (some a) (some b) = as_secs a == as_secs b
valid_until_eq none none = true
valid_until_eq _ _ = false

-- `PartialEq for PeerKey`: fractions of seconds are ignored.
unfoldable pub peer_key_eq : PeerKey → PeerKey → Bool
peer_key_eq a b = text_eq a.key.value b.key.value && valid_until_eq a.valid_until b.valid_until

-- `Time::now_add`: `none` if the seconds do not fit in a `u64`.
unfoldable pub now_add : ℕ → ℕ → Option ℕ
now_add now add_time = if ltb (now + add_time) (2 ^ 64 * nanos) then some (now + add_time) else none

-- `generate_key`: the key that was drawn, and `none` where `unwrap` panics.
unfoldable pub generate_key : Key → ℕ → Option ℕ → Option PeerKey
unfolding now_add
generate_key random_key now none = some (record { key = random_key; valid_until = none })
generate_key random_key now (some lifetime) = elim (now_add now lifetime) [
  | none ↦ none
  | some t ↦ some (record { key = random_key; valid_until = some t })
]

pub data Error : Type 0 where
  unable_to_read_key : Key → Error
  key_expired : Error

unfoldable pub verify_key_expiration : PeerKey → ℕ → Result Error (Unit {0})
verify_key_expiration auth_key current_time = elim auth_key.valid_until [
  | some valid_until ↦ if ltb valid_until current_time then err key_expired else ok tt
  | none ↦ ok tt
]

pub record InMemoryKeyRepository : Type 0 where
  pub keys : HashMap Text PeerKey

unfoldable pub insert : InMemoryKeyRepository → PeerKey → InMemoryKeyRepository
insert r auth_key = record { keys = HashMap.insert auth_key.key.value auth_key r.keys }

unfoldable pub remove : InMemoryKeyRepository → Key → InMemoryKeyRepository
remove r key = record { keys = HashMap.remove key.value r.keys }

unfoldable pub get : InMemoryKeyRepository → Key → Option PeerKey
get r key = HashMap.get key.value r.keys

unfoldable pub insert_each : InMemoryKeyRepository → List PeerKey → InMemoryKeyRepository
unfolding insert
insert_each r [] = r
insert_each r (key ∷ rest) = insert_each (insert r key) rest

-- `reset_with` clears the map and inserts every key.
unfoldable pub reset_with : InMemoryKeyRepository → List PeerKey → InMemoryKeyRepository
unfolding insert_each
reset_with r peer_keys = insert_each (record { keys = [] }) peer_keys

-- The inner match of `verify_auth_key`.
abbrev verify_in_mode : Option PrivateMode → PeerKey → ℕ → Result Error (Unit {0})
verify_in_mode (some private_mode) key now =
    if private_mode.check_keys_expiration then verify_key_expiration key now else ok tt
verify_in_mode none key now = verify_key_expiration key now

unfoldable pub verify_auth_key : Core → InMemoryKeyRepository → ℕ → Key → Result Error (Unit {0})
unfolding get
verify_auth_key config r now key = elim (get r key) [
  | none ↦ err (unable_to_read_key key)
  | some found ↦ verify_in_mode config.private_mode found now
]

-- `AuthenticationService::authenticate`
unfoldable pub authenticate : Core → InMemoryKeyRepository → ℕ → Key → Result Error (Unit {0})
unfolding verify_auth_key
authenticate config r now key =
    if config.private_tracker then verify_auth_key config r now key else ok tt
