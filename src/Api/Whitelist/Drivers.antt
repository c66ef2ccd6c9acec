-- ===== src/Api/Whitelist/Drivers.antt =====
-- What the requests of the API do to the whitelist does not depend on the driver of the database.
use torrust_tracker.Prelude.{
  ℕ, Bool, true, false, ◌≡◌, refl, ap, ◌||◌, ◌==◌, inl, inr, Option, none, some, List, [], ◌∷◌,
  arith, if◌then◌else◌, Result-cases, Option-cases, Bool-cases, Text,
}
use torrust_tracker.TrackerCore.Whitelist.{
  WhitelistStore, WhitelistManager, contains, has, add_torrent_to_whitelist,
  remove_torrent_from_whitelist, load_whitelist_from_database,
}
use torrust_tracker.TrackerCore.Whitelist.Laws.{
  InSync, add_torrent_ok, add_torrent_err, remove_torrent_ok, remove_torrent_err,
  load_whitelist-InSync, load_keeps_db,
}
use torrust_tracker.Api.Middleware.{Response, ok_response, AccessTokens, authenticate, auth}
use torrust_tracker.Api.Whitelist.{
  Request, post, delete, reload, route, serve, add_torrent_to_whitelist_handler,
  remove_torrent_from_whitelist_handler, reload_whitelist_handler,
}
use torrust_tracker.Api.Whitelist.Laws.{serve-InSync, serve_each, load_whitelist_err}

abbrev pub is_done : {E : Type 0} → Response E → Bool
is_done ok_response = true
is_done _ = false

-- Whether a torrent is on the whitelist after a request that was answered as done.
abbrev pub effect : (Text → Option ℕ) → Request → ℕ → Bool → Bool
effect from_str (post text) j listed = elim (from_str text) [
  | none ↦ listed
  | some k ↦ j == k || listed
]
effect from_str (delete text) j listed = elim (from_str text) [
  | none ↦ listed
  | some k ↦ if j == k then false else listed
]
effect from_str reload j listed = listed

module _ (D : WhitelistStore) (from_str : Text → Option ℕ) (s : WhitelistManager D) (j : ℕ) where
  contains-route :
      (request : Request)
      → InSync D s
      → contains (route D from_str request s).1.in_memory j ≡ (
          if is_done (route D from_str request s).0
          then effect from_str request j (contains s.in_memory j)
          else contains s.in_memory j)
  unfolding route add_torrent_to_whitelist_handler remove_torrent_from_whitelist_handler
      reload_whitelist_handler
  contains-route (post text) h = elim (Option-cases (from_str text)) [
    | inl q ↦ ground arith
    | inr (k, q) ↦ elim (Result-cases (add_torrent_to_whitelist D s k).0) [
      | inl (u, r) ↦ ground (arith, add_torrent_ok D s k j r)
      | inr (e, r) ↦ ground (arith, add_torrent_err D s k e r)
    ]
  ]
  contains-route (delete text) h = elim (Option-cases (from_str text)) [
    | inl q ↦ ground arith
    | inr (k, q) ↦ elim (Result-cases (remove_torrent_from_whitelist D s k).0) [
      | inl (u, r) ↦ ground (arith, remove_torrent_ok D s k j r)
      | inr (e, r) ↦ ground (arith, remove_torrent_err D s k e r)
    ]
  ]
  contains-route reload h = elim (Result-cases (load_whitelist_from_database D s).0) [
    | inl (u, r) ↦ ground (
      arith,
      load_whitelist-InSync D s r j,
      h j,
      ap (λ db. has j (D.rows db)) (load_keeps_db D s),
    )
    | inr (e, r) ↦ ground (arith, load_whitelist_err D from_str s e r)
  ]

  contains-serve :
      (tokens : AccessTokens) (token : Option Text) (request : Request)
      → InSync D s
      → contains (serve D from_str tokens token request s).1.in_memory j ≡ (
          if is_done (serve D from_str tokens token request s).0
          then effect from_str request j (contains s.in_memory j)
          else contains s.in_memory j)
  unfolding serve auth
  contains-serve tokens none request h = refl
  contains-serve tokens (some t) request h = elim (Bool-cases (authenticate t tokens)) [
    | inl q ↦ ground (arith, contains-route request h)
    | inr q ↦ ground arith
  ]

module _ (from_str : Text → Option ℕ) (tokens : AccessTokens) where
  -- Which requests were answered as done.
  abbrev pub done_each :
      (D : WhitelistStore) → List (Option Text × Request) → WhitelistManager D → List Bool
  done_each D [] s = []
  done_each D ((token, request) ∷ rest) s =
      is_done (serve D from_str tokens token request s).0
      ∷ done_each D rest (serve D from_str tokens token request s).1

  -- On whatever two databases the same requests come: if the whitelists have the same torrents at
  -- first and agree with their databases, and the same requests are answered as done, they have
  -- the same torrents afterwards.
  pub contains-serve_each_same :
      (V W : WhitelistStore) (calls : List (Option Text × Request)) (v : WhitelistManager V)
      (w : WhitelistManager W)
      → InSync V v
      → InSync W w
      → ((i : ℕ) → contains v.in_memory i ≡ contains w.in_memory i)
      → done_each V calls v ≡ done_each W calls w
      → (j : ℕ)
      → contains (serve_each V from_str tokens calls v).in_memory j
        ≡ contains (serve_each W from_str tokens calls w).in_memory j
  contains-serve_each_same V W [] v w hv hw same done j = same j
  contains-serve_each_same V W ((token, request) ∷ rest) v w hv hw same done j =
      contains-serve_each_same V W rest (serve V from_str tokens token request v).1
        (serve W from_str tokens token request w).1
        (serve-InSync V from_str tokens v token request hv)
        (serve-InSync W from_str tokens w token request hw)
        (λ i. ground (
          arith,
          contains-serve V from_str v i tokens token request hv,
          contains-serve W from_str w i tokens token request hw,
          same i,
        ))
        (ground arith) j
