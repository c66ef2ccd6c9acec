-- ===== src/Api/Whitelist/Laws.antt =====
-- The requests of the API on the whitelist, from the token to what the tracker authorizes.
use torrust_tracker.Prelude.{
  ℕ, true, ◌≡◌, ◌≢◌, refl, sym, ap, ◌∙◌, Option, none, some, List, [], ◌∷◌, inl, inr, arith,
  if◌then◌else◌, ◌==◌, ok, err, Result-cases, Option-cases, Bool-cases, Text,
}
use torrust_tracker.Configuration.{Core}
use torrust_tracker.TrackerCore.Whitelist.{
  WhitelistStore, WhitelistManager, authorize, add_torrent_to_whitelist,
  remove_torrent_from_whitelist, load_whitelist_from_database,
}
use torrust_tracker.TrackerCore.Whitelist.Laws.{
  InSync, add_torrent_err, remove_torrent_err, add_torrent-InSync, remove_torrent-InSync,
  load_whitelist-InSync, authorize-add_torrent,
}
use torrust_tracker.Api.Middleware.Laws.{auth_ok}
use torrust_tracker.Api.Middleware.{ok_response, AccessTokens, authenticate, auth}
use torrust_tracker.Api.Whitelist.{
  Request, post, delete, reload, serve, route, add_torrent_to_whitelist_handler,
  remove_torrent_from_whitelist_handler, reload_whitelist_handler,
}

module _ (D : WhitelistStore) (from_str : Text → Option ℕ) where
  module _ (s : WhitelistManager D) where
    post_ok :
        (text : Text)
        → (route D from_str (post text) s).0 ≡ ok_response
        → (k : ℕ) × (from_str text ≡ some k)
          × ((add_torrent_to_whitelist D s k).0 ≡ ok tt)
          × ((route D from_str (post text) s).1 ≡ (add_torrent_to_whitelist D s k).1)
    unfolding route add_torrent_to_whitelist_handler
    post_ok text h = elim (Option-cases (from_str text)) [
      | inl q ↦ ground arith
      | inr (k, q) ↦ elim (Result-cases (add_torrent_to_whitelist D s k).0) [
        | inl (u, r) ↦ (k, q, r, ground arith)
        | inr (e, r) ↦ ground arith
      ]
    ]

    -- A request that is not answered as done leaves the whitelists as they were.
    route_unless_ok :
        (request : Request)
        → (route D from_str request s).0 ≢ ok_response
        → (route D from_str request s).1 ≡ s
    unfolding route add_torrent_to_whitelist_handler remove_torrent_from_whitelist_handler
        reload_whitelist_handler load_whitelist_from_database
    route_unless_ok (post text) h = elim (Option-cases (from_str text)) [
      | inl q ↦ ground arith
      | inr (k, q) ↦ elim (Result-cases (add_torrent_to_whitelist D s k).0) [
        | inl (u, r) ↦ ground arith
        | inr (e, r) ↦ ground (arith, add_torrent_err D s k e r)
      ]
    ]
    route_unless_ok (delete text) h = elim (Option-cases (from_str text)) [
      | inl q ↦ ground arith
      | inr (k, q) ↦ elim (Result-cases (remove_torrent_from_whitelist D s k).0) [
        | inl (u, r) ↦ ground arith
        | inr (e, r) ↦ ground (arith, remove_torrent_err D s k e r)
      ]
    ]
    route_unless_ok reload h = elim (Result-cases (D.load_whitelist s.db)) [
      | inl (l, q) ↦ ground arith
      | inr (e, q) ↦ ground arith
    ]

    pub load_whitelist_err :
        (e : D.Error)
        → (load_whitelist_from_database D s).0 ≡ err e
        → (load_whitelist_from_database D s).1 ≡ s
    unfolding load_whitelist_from_database
    load_whitelist_err e h = ground arith

    route-InSync : (request : Request) → InSync D s → InSync D (route D from_str request s).1
    unfolding route add_torrent_to_whitelist_handler remove_torrent_from_whitelist_handler
        reload_whitelist_handler
    route-InSync (post text) h j = elim (Option-cases (from_str text)) [
      | inl q ↦ ground (arith, h j)
      | inr (k, q) ↦ elim (Result-cases (add_torrent_to_whitelist D s k).0) [
        | inl (u, r) ↦ ground (arith, add_torrent-InSync D s k h j)
        | inr (e, r) ↦ ground (arith, add_torrent-InSync D s k h j)
      ]
    ]
    route-InSync (delete text) h j = elim (Option-cases (from_str text)) [
      | inl q ↦ ground (arith, h j)
      | inr (k, q) ↦ elim (Result-cases (remove_torrent_from_whitelist D s k).0) [
        | inl (u, r) ↦ ground (arith, remove_torrent-InSync D s k h j)
        | inr (e, r) ↦ ground (arith, remove_torrent-InSync D s k h j)
      ]
    ]
    route-InSync reload h j = elim (Result-cases (load_whitelist_from_database D s).0) [
      | inl (u, r) ↦ ground (arith, load_whitelist-InSync D s r j)
      | inr (e, r) ↦ ground (arith, load_whitelist_err e r, h j)
    ]

  module _ (tokens : AccessTokens) where
    -- A request that is not answered as done, for a token that is missing or wrong, an info hash
    -- that cannot be read or an error of the database, leaves both whitelists as they were.
    serve_unless_ok :
        (s : WhitelistManager D) (token : Option Text) (request : Request)
        → (serve D from_str tokens token request s).0 ≢ ok_response
        → (serve D from_str tokens token request s).1 ≡ s
    unfolding serve auth
    serve_unless_ok s none request h = refl
    serve_unless_ok s (some t) request h = elim (Bool-cases (authenticate t tokens)) [
      | inl q ↦ ground (arith, route_unless_ok s request)
      | inr q ↦ ground arith
    ]

    -- On a tracker with a whitelist, a request to add a torrent that is answered as done came with
    -- one of the tokens and named a torrent, which is authorized from then on; the other torrents
    -- are authorized as before.
    pub authorize-serve_post :
        (config : Core) (s : WhitelistManager D) (token : Option Text) (text : Text)
        → config.listed ≡ true
        → (serve D from_str tokens token (post text) s).0 ≡ ok_response
        → (t : Text) × (k : ℕ) × (token ≡ some t)
          × (authenticate t tokens ≡ true)
          × (from_str text ≡ some k)
          × ((j : ℕ)
              → authorize config (serve D from_str tokens token (post text) s).1.in_memory j
                ≡ (if j == k then ok tt else authorize config s.in_memory j))
    unfolding serve
    authorize-serve_post config s token text listed h =
        let (t, given, valid, passed) =
          auth_ok tokens token (route D from_str (post text)) s ok_response (λ e. cc) h in
        let (k, read, done, after) = post_ok s text (sym (ap (λ p. p.0) passed) ∙ h) in
        (
          t,
          k,
          given,
          valid,
          read,
          λ j.
              ap (λ w. authorize config w.in_memory j) (ap (λ p. p.1) passed ∙ after)
              ∙ authorize-add_torrent D config s k j listed done,
        )

    -- The requests of several clients, one after another.
    abbrev pub serve_each : List (Option Text × Request) → WhitelistManager D → WhitelistManager D
    serve_each [] s = s
    serve_each ((token, request) ∷ rest) s =
        serve_each rest (serve D from_str tokens token request s).1

    pub serve-InSync :
        (s : WhitelistManager D) (token : Option Text) (request : Request)
        → InSync D s
        → InSync D (serve D from_str tokens token request s).1
    unfolding serve auth
    serve-InSync s none request h j = h j
    serve-InSync s (some t) request h j = elim (Bool-cases (authenticate t tokens)) [
      | inl q ↦ ground (arith, route-InSync s request h j)
      | inr q ↦ ground (arith, h j)
    ]

    -- Whatever requests come, with whatever tokens, the whitelist in memory has the torrents that
    -- the database has, if it had them at the start.
    pub serve_each-InSync :
        (calls : List (Option Text × Request)) (s : WhitelistManager D)
        → InSync D s
        → InSync D (serve_each calls s)
    serve_each-InSync [] s h = h
    serve_each-InSync ((token, request) ∷ rest) s h =
        serve_each-InSync rest (serve D from_str tokens token request s).1
          (serve-InSync s token request h)
