-- ===== src/Api/Whitelist/Stored.antt =====
-- The whitelist of a tracker on SQLite, from the requests to the API down to the rows of the table.
use torrust_tracker.Prelude.{ℕ, ◌≡◌, sym, ◌∙◌, Option, List, Text}
use torrust_tracker.TrackerCore.Whitelist.{WhitelistManager, contains}
use torrust_tracker.TrackerCore.Databases.{InfoHashText}
use torrust_tracker.TrackerCore.Databases.Rows.{has_text}
use torrust_tracker.TrackerCore.Databases.Rusqlite.{Engine}
use torrust_tracker.TrackerCore.Databases.Sqlite.Store.{sqlite_whitelist, rows_lem}
use torrust_tracker.Api.Middleware.{AccessTokens}
use torrust_tracker.Api.Whitelist.{Request}
use torrust_tracker.Api.Whitelist.Laws.{serve_each, serve_each-InSync}

module _ (H : InfoHashText) (E : Engine) where
  -- Whatever requests come, with whatever tokens: a torrent is on the whitelist in memory exactly
  -- if its text is in the table of SQLite, if this was so at the start.
  pub contains-serve_each :
      (from_str : Text → Option ℕ) (tokens : AccessTokens) (calls : List (Option Text × Request))
      (s : WhitelistManager (sqlite_whitelist H E)) (j : ℕ)
      → ((i : ℕ) → contains s.in_memory i ≡ has_text (H.to_string i) (E.whitelist s.db.0))
      → contains (serve_each (sqlite_whitelist H E) from_str tokens calls s).in_memory j
        ≡ has_text
            (H.to_string j)
            (E.whitelist (serve_each (sqlite_whitelist H E) from_str tokens calls s).db.0)
  contains-serve_each from_str tokens calls s j h =
      serve_each-InSync (sqlite_whitelist H E) from_str tokens calls s
        (λ i. h i ∙ sym (rows_lem H E s.db i)) j
      ∙ rows_lem H E (serve_each (sqlite_whitelist H E) from_str tokens calls s).db j
