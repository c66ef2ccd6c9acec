-- ===== src/TrackerCore/Authentication/Key/Laws.antt =====
-- Which texts are keys, when a key is accepted, and what the memory holds.
use torrust_tracker.Prelude.{
  ℕ, ◌≤◌, Bool, true, false, not, ◌≡◌, ◌↔◌, ◌⊎◌, refl, Option, none, some, List, [], ◌∷◌, arith,
  if◌then◌else◌, ok, err, ltb, Text, text_eq, str_len, is_ascii_alphanumeric, all_b,
  text_eq_instance, length,
}
use torrust_tracker.HashMap
use torrust_tracker.HashMap.{HashMap}
use torrust_tracker.HashMap.Laws.{get-insert, get-remove}
use torrust_tracker.Configuration.{Core, PrivateMode}
use torrust_tracker.TrackerCore.Authentication.Key.{
  Key, PeerKey, new, auth_key_length, verify_key_expiration, key_expired, InMemoryKeyRepository,
  insert, remove, get, insert_each, reset_with, authenticate,
}

str_len-alphanumeric : (s : Text) → all_b is_ascii_alphanumeric s ≡ true → str_len s ≡ length s
str_len-alphanumeric [] h = refl
str_len-alphanumeric (c ∷ s) h = ground (arith, str_len-alphanumeric s)

-- The texts that are keys are those of 32 characters, each a letter or digit of ASCII, and a key
-- shows as the text that it was read from.
pub new-eq-ok_iff :
    (s : Text) (k : Key)
    → (new s ≡ ok k)
      ↔ ((k.value ≡ s) × (length s ≡ auth_key_length) × (all_b is_ascii_alphanumeric s ≡ true))
unfolding new
new-eq-ok_iff s k =
    (λ h. ground (arith, str_len-alphanumeric s), λ h. ground (arith, str_len-alphanumeric s))

-- Whether the expiry of keys is checked.
abbrev pub checks_expiration : Option PrivateMode → Bool
checks_expiration none = true
checks_expiration (some m) = m.check_keys_expiration

-- A key is in time until its expiry, that instant included; a permanent key always is.
abbrev pub in_time : Option ℕ → ℕ → Bool
in_time none now = true
in_time (some t) now = not (ltb t now)

module _ (config : Core) (r : InMemoryKeyRepository) (now : ℕ) (k : Key) where
  -- A request is authenticated exactly if the tracker is public, or the key is in memory and is in
  -- time or its expiry is not checked.
  pub authenticate-eq-ok_iff : (authenticate config r now k ≡ ok tt) ↔ (
      (config.private_tracker ≡ false)
      ⊎ ((p : PeerKey) × (get r k ≡ some p)
          × ((checks_expiration config.private_mode ≡ false) ⊎ (in_time p.valid_until now ≡ true))))
  unfolding authenticate verify_key_expiration
  authenticate-eq-ok_iff = (λ h. ground arith, λ h. ground arith)

  -- Once a key has expired it stays expired: a key that is refused as expired is refused so at
  -- every later time.
  pub authenticate-expired :
      (later : ℕ)
      → now ≤ later
      → authenticate config r now k ≡ err key_expired
      → authenticate config r later k ≡ err key_expired
  unfolding authenticate verify_key_expiration
  authenticate-expired later h e = ground arith

pub get-insert_key :
    (r : InMemoryKeyRepository) (p : PeerKey) (k : Key)
    → get (insert r p) k ≡ (if text_eq k.value p.key.value then some p else get r k)
unfolding get insert
get-insert_key r p k = get-insert p.key.value k.value p r.keys

pub get-remove_key :
    (r : InMemoryKeyRepository) (k j : Key)
    → get (remove r k) j ≡ (if text_eq j.value k.value then none else get r j)
unfolding get remove
get-remove_key r k j = get-remove k.value j.value r.keys

abbrev row_or : Option PeerKey → Option PeerKey → Option PeerKey
row_or none b = b
row_or (some a) b = some a

-- The last row of a key.
abbrev pub find_row : Text → List PeerKey → Option PeerKey
find_row k [] = none
find_row k (p ∷ l) = row_or (find_row k l) (if text_eq k p.key.value then some p else none)

get-insert_each :
    (r : InMemoryKeyRepository) (l : List PeerKey) (k : Key)
    → get (insert_each r l) k ≡ row_or (find_row k.value l) (get r k)
unfolding insert_each
get-insert_each r [] k = refl
get-insert_each r (p ∷ l) k = ground (arith, get-insert_each (insert r p) l k, get-insert_key r p k)

-- After a reset the memory has exactly the given keys.
pub get-reset_with :
    (r : InMemoryKeyRepository) (l : List PeerKey) (k : Key)
    → get (reset_with r l) k ≡ find_row k.value l
unfolding reset_with get HashMap.get
get-reset_with r l k = ground (arith, get-insert_each (record { keys = [] }) l k)
