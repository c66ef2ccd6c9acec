-- ===== src/TrackerCore/Databases/Sqlite/WellFormed.antt =====
-- Databases that hold only what the driver of sqlite.rs writes.
use torrust_tracker.Prelude.{ℕ, ◌≡◌, ◌<◌, ◌^◌, Option, some, ok, pos, Text, text_eq_instance}
use torrust_tracker.HashMap
use torrust_tracker.HashMap.{HashMap}
use torrust_tracker.TrackerCore.Authentication.Key
use torrust_tracker.TrackerCore.Databases.{InfoHashText}
use torrust_tracker.TrackerCore.Databases.Rows.Laws.{IsHashColumn}
use torrust_tracker.TrackerCore.Databases.Rusqlite.{Value, integer, Engine, Stores}

abbrev pub key_of : Text → Key.Key
key_of k = record { value = k }

-- Every row has a text that is a key, and a time as it is stored.
abbrev pub IsKeyTable : HashMap Text Value → Type 0
IsKeyTable l =
    (t : Text) (v : Value)
    → HashMap.get t l ≡ some v
    → (o : Option ℕ) × (Key.new t ≡ ok (key_of t)) × Stores o v

module _ (H : InfoHashText) where
  -- Every row has an info hash, and a number that fits in a `u32`.
  abbrev pub IsTorrentTable : HashMap Text Value → Type 0
  IsTorrentTable l =
      (t : Text) (v : Value)
      → HashMap.get t l ≡ some v
      → (k : ℕ) × (n : ℕ) × (t ≡ H.to_string k) × (v ≡ integer (pos n)) × (n < 2 ^ 32)

  module _ (E : Engine) where
    pub record IsWellFormed (db : E.Db) : Type 0 where
      pub hashes : IsHashColumn H (E.whitelist db)
      pub key_rows : IsKeyTable (E.keys db)
      pub torrent_rows : IsTorrentTable (E.torrents db)
