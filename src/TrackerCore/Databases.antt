-- ===== src/TrackerCore/Databases.antt =====
-- packages/tracker-core/src/databases: the errors (error.rs), the drivers that the tracker knows
-- (driver/mod.rs), and what the drivers use of other crates.
pub mod Rows
pub mod Rusqlite
pub mod Sqlite
pub mod MysqlCrate
pub mod Mysql
use torrust_tracker.Prelude.{ℕ, ◌≡◌, Option, some, Text}

pub data Driver : Type 0 where
  sqlite3 my_sql : Driver

-- The errors without their sources and places in the code.
pub data Error : Type 0 where
  query_returned_no_rows invalid_query insert_failed : Driver → Error
  delete_failed : ℕ → Driver → Error
  connection_error connection_pool : Driver → Error

-- How the crate bittorrent_primitives writes and reads an info hash. Both ways to write it give its
-- hexadecimal digits.
pub record InfoHashText : Type 0 where
  pub to_string : ℕ → Text
  pub to_hex_string : ℕ → Text
  pub from_str : Text → Option ℕ
  pub from_str-to_string : (k : ℕ) → from_str (to_string k) ≡ some k
  pub to_hex_string_lem : (k : ℕ) → to_hex_string k ≡ to_string k
