-- ===== src/App/Restart.antt =====
-- A tracker that was started again knows what it knew before.
use torrust_tracker.Prelude.{
  ℕ, Bool, true, ◌≡◌, sym, ap, ◌∙◌, Option, some, List, inl, inr, arith, ok, Result-cases, Text,
}
use torrust_tracker.TrackerCore.Whitelist.{
  WhitelistStore, WhitelistManager, has, contains, authorize, load_whitelist_from_database,
}
use torrust_tracker.TrackerCore.Whitelist.Laws as Lists
use torrust_tracker.TrackerCore.Whitelist.Laws.{load_whitelist-InSync, load_keeps_db}
use torrust_tracker.TrackerCore.Authentication.Key
use torrust_tracker.TrackerCore.Authentication.Handler.{
  KeyStore, KeysHandler, load_peer_keys_from_database,
}
use torrust_tracker.TrackerCore.Authentication.Handler.Laws as Keys
use torrust_tracker.TrackerCore.Authentication.Handler.Laws.{load_peer_keys-InSync, stored_expiry}
use torrust_tracker.Api.Middleware.{AccessTokens}
use torrust_tracker.Api.Whitelist.{Request}
use torrust_tracker.Api.Whitelist.Laws.{serve_each, serve_each-InSync}
use torrust_tracker.App.{Configuration, Job, AppContainer, start}

load_keys_keeps_db :
    (K : KeyStore) (s : KeysHandler K) → (load_peer_keys_from_database K s).1.db ≡ s.db
unfolding load_peer_keys_from_database
load_keys_keeps_db K s = elim (Result-cases (K.load_keys s.db)) [
  | inl (l, q) ↦ ground arith
  | inr (e, q) ↦ ground arith
]

module _ (can_start : Job → Bool) (K : KeyStore) (W : WhitelistStore) (config : Configuration)
    (app ready : AppContainer can_start K W) (jobs : List Job)
    (started : start can_start K W config app ≡ some (jobs, ready)) where
  -- A start that succeeds has loaded the keys of a private tracker, and the whitelist of a tracker
  -- that has one.
  start_lem :
      (config.core.private_tracker ≡ true
        → ((load_peer_keys_from_database K app.keys_handler).0 ≡ ok tt)
          × (ready.keys_handler ≡ (load_peer_keys_from_database K app.keys_handler).1))
      × (config.core.listed ≡ true
          → ((load_whitelist_from_database W app.whitelist_manager).0 ≡ ok tt)
            × (ready.whitelist_manager ≡ (load_whitelist_from_database W app.whitelist_manager).1))
  unfolding start
  start_lem = elim (Result-cases (load_peer_keys_from_database K app.keys_handler).0) [
    | inl (u, q) ↦ elim (Result-cases (load_whitelist_from_database W app.whitelist_manager).0) [
      | inl (u', q') ↦ ground arith
      | inr (e', q') ↦ ground arith
    ]
    | inr (e, q) ↦ elim (Result-cases (load_whitelist_from_database W app.whitelist_manager).0) [
      | inl (u', q') ↦ ground arith
      | inr (e', q') ↦ ground arith
    ]
  ]

  -- Whatever requests to the API changed the whitelist, with whatever tokens: a tracker that is
  -- started on the database that they left authorizes the same torrents, if it could be started
  -- and its whitelist and the database agreed at first.
  pub authorize-restart :
      (from_str : Text → Option ℕ) (tokens : AccessTokens) (calls : List (Option Text × Request))
      (s : WhitelistManager W) (j : ℕ)
      → config.core.listed ≡ true
      → Lists.InSync W s
      → app.whitelist_manager.db ≡ (serve_each W from_str tokens calls s).db
      → authorize config.core ready.whitelist_manager.in_memory j
        ≡ authorize config.core (serve_each W from_str tokens calls s).in_memory j
  unfolding authorize
  authorize-restart from_str tokens calls s j listed sync same =
      let (loaded, known) = start_lem.1 listed in
      let old = serve_each-InSync W from_str tokens calls s sync j in
      let new = load_whitelist-InSync W app.whitelist_manager loaded j in
      let agree = ap (λ db. has j (W.rows db)) (load_keeps_db W app.whitelist_manager ∙ same) in
      let listing = ap (λ w. contains w.in_memory j) known ∙ (new ∙ (agree ∙ sym old)) in
      ground (arith, listing)

  -- A private tracker that is started again knows the same keys, with the same expiries in whole
  -- seconds, if it could be started and its keys and the database agreed before.
  pub expiry-restart :
      (s : KeysHandler K) (k : Text)
      → config.core.private_tracker ≡ true
      → Keys.InSync K s
      → app.keys_handler.db ≡ s.db
      → stored_expiry (Key.get ready.keys_handler.in_memory (record { value = k }))
        ≡ stored_expiry (Key.get s.in_memory (record { value = k }))
  expiry-restart s k private sync same =
      let (loaded, known) = start_lem.0 private in
      let new = load_peer_keys-InSync K app.keys_handler loaded k in
      rw known (
        new
        ∙ (ap (λ db. K.stored db k) (load_keys_keeps_db K app.keys_handler ∙ same) ∙ sym (sync k)))
