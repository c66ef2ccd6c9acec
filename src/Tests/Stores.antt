-- ===== src/Tests/Stores.antt =====
-- Concrete versions of the interfaces: tables as lists, an exact counter for the Bloom filter, an
-- addition for the cipher.
use torrust_tracker.Prelude.{
  ℕ, ◌+◌, ◌-◌, ◌*◌, ◌%◌, ◌^◌, ◌≤◌, min, Bool, true, false, ◌≡◌, refl, ap, Option, none, some, List,
  [], ◌∷◌, map, arith, if◌then◌else◌, ◌==◌, Result, ok, err, Text, text_eq, text_eq_iff,
  text_eq_instance, length,
}
use mathlib.Core.Option
use torrust_tracker.OrderedMap
use torrust_tracker.OrderedMap.{Map}
use torrust_tracker.HashMap
use torrust_tracker.HashMap.{HashMap}
use torrust_tracker.HashMap.Laws.{get-insert}
use torrust_tracker.Primitives.Net.{IpAddr}
use torrust_tracker.Primitives.Peer.{spelled}
use torrust_tracker.TrackerCore.Announce.{TorrentStore}
use torrust_tracker.TrackerCore.Whitelist.{WhitelistStore, has, is_some}
use torrust_tracker.TrackerCore.Authentication.Key
use torrust_tracker.TrackerCore.Authentication.Key.{PeerKey, as_secs, nanos}
use torrust_tracker.TrackerCore.Authentication.Key.Laws.{find_row}
use torrust_tracker.TrackerCore.Authentication.Handler.{KeyStore}
use torrust_tracker.Udp.Banning.{CountingBloomFilter, count}
use torrust_tracker.Udp.ConnectionCookie.{Cipher}
use torrust_tracker.Http.Query.{MultiMap, NameValuePair, with_last, first}
use torrust_tracker.Http.AnnounceRequest.{Decoder}

abbrev pub torrent_table : TorrentStore
torrent_table = record {
  Db = Map ℕ;
  Error = Unit {0};
  save_persistent_torrent = λ h n db. (ok tt, OrderedMap.insert h n db);
  load_persistent_torrents = λ db. ok db;
}

-- The rows without an info hash.
abbrev without : ℕ → List ℕ → List ℕ
without k [] = []
without k (j ∷ js) = let rest = without k js in if k == j then rest else j ∷ rest

has-without : (k j : ℕ) (l : List ℕ) → has j (without k l) ≡ (if j == k then false else has j l)
has-without k j [] = ground arith
has-without k j (i ∷ l) = ground (arith, has-without k j l)

abbrev found : ℕ → Bool → Option ℕ
found k true = some k
found k false = none

-- A removal of a row that is not there fails.
abbrev removed : Bool → ℕ → List ℕ → Result (Unit {0}) ℕ × List ℕ
removed true k db = (ok 1, without k db)
removed false k db = (err tt, db)

pub found_lem :
    (k : ℕ) (db : List ℕ) (o : Option ℕ)
    → ◌≡◌ {A = Result (Unit {0}) (Option ℕ)} (ok (found k (has k db))) (ok o)
    → is_some o ≡ has k db
found_lem k db o h = ground arith

pub removed_ok :
    (k : ℕ) (db : List ℕ) (n j : ℕ)
    → (removed (has k db) k db).0 ≡ ok n
    → has j (removed (has k db) k db).1 ≡ (if j == k then false else has j db)
removed_ok k db n j h = ground (arith, has-without k j db)

pub removed_err :
    (k : ℕ) (db : List ℕ) (e : Unit {0})
    → (removed (has k db) k db).0 ≡ err e
    → (removed (has k db) k db).1 ≡ db
removed_err k db e h = ground arith

pub loaded_lem :
    (db l : List ℕ) (j : ℕ)
    → ◌≡◌ {A = Result (Unit {0}) (List ℕ)} (ok db) (ok l)
    → has j l ≡ has j db
loaded_lem db l j h = ground arith

pub added_err :
    (k : ℕ) (db : List ℕ) (e : Unit {0})
    → ◌≡◌ {A = Result (Unit {0}) ℕ} (ok 1) (err e)
    → k ∷ db ≡ db
added_err k db e h = cc

abbrev pub whitelist_table : WhitelistStore
whitelist_table = record {
  Db = List ℕ;
  Error = Unit {0};
  rows = λ db. db;
  load_whitelist = λ db. ok db;
  get_info_hash_from_whitelist = λ k db. ok (found k (has k db));
  add_info_hash_to_whitelist = λ k db. (ok 1, k ∷ db);
  remove_info_hash_from_whitelist = λ k db. removed (has k db) k db;
  load_lem = loaded_lem;
  get_lem = found_lem;
  add_ok = λ k db n j h. refl;
  add_err = added_err;
  remove_ok = removed_ok;
  remove_err = removed_err;
}

-- The keys table: a key and its expiry in seconds, the newest row first.
abbrev KeyRows : Type 0
KeyRows = HashMap Text (Option ℕ)

abbrev later_or {ℓ} : {A : Type ℓ} → Option A → Option A → Option A
later_or none b = b
later_or (some a) b = some a

abbrev find_secs : KeyRows → Text → Option (Option ℕ)
find_secs [] k = none
find_secs ((t, s) ∷ l) k = later_or (find_secs l k) (if text_eq k t then some s else none)

abbrev peer_key : Text × Option ℕ → PeerKey
peer_key row = record {
  key = record { value = row.0 };
  valid_until = Option.map (λ s. s * nanos) row.1;
}

abbrev drop_key : Text → KeyRows → KeyRows
drop_key k [] = []
drop_key k ((t, s) ∷ l) = let rest = drop_key k l in if text_eq k t then rest else (t, s) ∷ rest

-- A key that is there already violates the unique constraint.
abbrev add_row : PeerKey → Option (Option ℕ) → KeyRows → Result (Unit {0}) ℕ × KeyRows
add_row p none db = (ok 1, (p.key.value, Option.map as_secs p.valid_until) ∷ db)
add_row p (some s) db = (err tt, db)

find_row-peer_key :
    (db : KeyRows) (k : Text)
    → find_row k (map peer_key db)
      ≡ Option.map
          (λ t. record { key = record { value = k }; valid_until = Option.map (λ s. s * nanos) t })
          (find_secs db k)
find_row-peer_key [] k = refl
find_row-peer_key ((t, s) ∷ db) k = ground (arith, find_row-peer_key db k, text_eq_iff k t)

pub loaded_keys_lem :
    (db : KeyRows) (l : List PeerKey) (k : Text)
    → ◌≡◌ {A = Result (Unit {0}) (List PeerKey)} (ok (map peer_key db)) (ok l)
    → find_row k l
      ≡ Option.map
          (λ t. record { key = record { value = k }; valid_until = Option.map (λ s. s * nanos) t })
          (find_secs db k)
loaded_keys_lem db l k h = ground (arith, find_row-peer_key db k)

pub add_row_ok :
    (p : PeerKey) (db : KeyRows) (n : ℕ) (k : Text)
    → (add_row p (find_secs db p.key.value) db).0 ≡ ok n
    → find_secs (add_row p (find_secs db p.key.value) db).1 k
      ≡ (if text_eq k p.key.value then some (Option.map as_secs p.valid_until) else find_secs db k)
add_row_ok p db n k h = ground (arith, text_eq_iff k p.key.value)

pub add_row_err :
    (p : PeerKey) (db : KeyRows) (e : Unit {0})
    → (add_row p (find_secs db p.key.value) db).0 ≡ err e
    → (add_row p (find_secs db p.key.value) db).1 ≡ db
add_row_err p db e h = ground arith

pub find_secs-drop_key :
    (j k : Text) (db : KeyRows)
    → find_secs (drop_key j db) k ≡ (if text_eq k j then none else find_secs db k)
find_secs-drop_key j k [] = ground arith
find_secs-drop_key j k ((t, s) ∷ db) =
    ground (arith, find_secs-drop_key j k db, text_eq_iff j t, text_eq_iff k t, text_eq_iff k j)

pub dropped_err :
    (j : Key.Key) (db : KeyRows) (e : Unit {0})
    → ◌≡◌ {A = Result (Unit {0}) ℕ} (ok 1) (err e)
    → drop_key j.value db ≡ db
dropped_err j db e h = cc

abbrev pub key_table : KeyStore
key_table = record {
  Db = KeyRows;
  Error = Unit {0};
  stored = find_secs;
  Fits = λ o. Unit {0};
  load_keys = λ db. ok (map peer_key db);
  add_key_to_keys = λ p db. add_row p (find_secs db p.key.value) db;
  remove_key_from_keys = λ j db. (ok 1, drop_key j.value db);
  load_lem = loaded_keys_lem;
  add_ok = λ p db n k fits h. add_row_ok p db n k h;
  add_err = add_row_err;
  remove_ok = λ j db n k h. find_secs-drop_key j.value k db;
  remove_err = dropped_err;
}

pub estimate_lem :
    (l : List IpAddr) (a : IpAddr) (f : List IpAddr)
    → l ≡ f
    → min (count a l) 15 ≤ min (count a f) 15
estimate_lem l a f h = ground arith

abbrev pub exact_counter : CountingBloomFilter
exact_counter = record {
  Filter = List IpAddr;
  saturation = 15;
  fresh = [];
  insert = λ a f. a ∷ f;
  estimate_count = λ a f. min (count a f) 15;
  clear = λ f. [];
  inserted = λ l f. l ≡ f;
  fresh_lem = refl;
  insert_lem = λ l a f h. ap (◌∷◌ a) h;
  clear_lem = λ f. refl;
  estimate_low = estimate_lem;
  estimate_high = λ a f. omega arith;
}

abbrev pub adding_cipher : Cipher
adding_cipher = record {
  encrypt_block = λ b. (b + 12345) % 2 ^ 64;
  decrypt_block = λ b. (b + 2 ^ 64 - 12345) % 2 ^ 64;
  decrypt-encrypt = λ b h. omega arith;
}

pub list_map_empty : (k : Text) → ◌≡◌ {A = Option (List NameValuePair)} (HashMap.get k []) none
unfolding HashMap.get
list_map_empty k = refl

pub list_map_insert :
    (k j : Text) (v : NameValuePair) (m : HashMap Text (List NameValuePair))
    → HashMap.get j (HashMap.insert k (with_last (HashMap.get k m) v) m)
      ≡ (if text_eq j k then some (with_last (HashMap.get j m) v) else HashMap.get j m)
list_map_insert k j v m =
    ground (arith, get-insert k j (with_last (HashMap.get k m) v) m, text_eq_iff j k)

abbrev pub list_map : MultiMap
list_map = record {
  M = HashMap Text (List NameValuePair);
  empty = [];
  insert = λ k v m. HashMap.insert k (with_last (HashMap.get k m) v) m;
  get = λ k m. first (HashMap.get k m);
  get_vec = λ k m. HashMap.get k m;
  get_vec-empty = list_map_empty;
  get_vec-insert = list_map_insert;
  get_lem = λ k m. refl;
}

abbrev pub plain_decoder : Decoder
plain_decoder = record {
  ConversionError = Unit {0};
  percent_decode = λ t. t;
  info_hash_of_bytes = λ bytes. if length bytes == 20 then ok (spelled 0 bytes) else err tt;
}
