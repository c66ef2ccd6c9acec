-- ===== src/Api/AuthKey/Laws.antt =====
-- The requests of the API on the keys, from the token to what the tracker accepts.
use torrust_tracker.Prelude.{
  ℕ, true, ◌≡◌, ◌≤◌, sym, ap, ◌∙◌, Option, none, some, arith, inl, inr, ok, err, Result-cases, Text,
}
use mathlib.Core.Option
use torrust_tracker.Configuration.{Core}
use torrust_tracker.TrackerCore.Authentication.Key
use torrust_tracker.TrackerCore.Authentication.Key.{
  PeerKey, as_secs, authenticate, unable_to_read_key,
}
use torrust_tracker.TrackerCore.Authentication.Key.Laws.{checks_expiration}
use torrust_tracker.TrackerCore.Authentication.Handler.{
  KeyStore, KeysHandler, AddKeyRequest, returned, add_peer_key, remove_peer_key,
}
use torrust_tracker.TrackerCore.Authentication.Handler.Laws.{
  authenticate-add_peer_key, authenticate-remove_peer_key,
}
use torrust_tracker.Api.Middleware as Api
use torrust_tracker.Api.Middleware.{
  Response, AuthKey, AccessTokens, ok_response, closed, unhandled_rejection,
}
use torrust_tracker.Api.Middleware.Laws.{auth_ok}
use torrust_tracker.Api.AuthKey.{
  Chrono, delete, serve, route, from_peer_key, add_auth_key_handler,
  convert_from_timestamp_to_datetime_utc, delete_auth_key_handler,
}

abbrev key_of : Text → Key.Key
key_of k = record { value = k }

module _ (C : Chrono) where
  module _ (D : KeyStore) where
    deleted_ok :
        (s : KeysHandler D) (text : Text)
        → (delete_auth_key_handler C D s text).0 ≡ ok_response
        → (k : Key.Key) × (Key.new text ≡ ok k)
          × ((remove_peer_key D s k).0 ≡ ok tt)
          × ((delete_auth_key_handler C D s text).1 ≡ (remove_peer_key D s k).1)
    unfolding delete_auth_key_handler
    deleted_ok s text h = elim (Result-cases (Key.new text)) [
      | inr (e, q) ↦ ground arith
      | inl (k, q) ↦ elim (Result-cases (remove_peer_key D s k).0) [
        | inl (u, r) ↦ (k, q, r, ground arith)
        | inr (e, r) ↦ ground arith
      ]
    ]

    module _ (config : Core) (tokens : AccessTokens) (token : Option Text) (random_key : Key.Key)
        (now : ℕ) (s : KeysHandler D) (private : config.private_tracker ≡ true) where
      -- After a request to delete a key that is answered as done, a private tracker refuses the
      -- key at any time.
      pub authenticate-serve_delete :
          (text : Text) (time : ℕ)
          → (serve C D tokens token random_key now (delete text) s).0 ≡ ok_response
          → (t : Text) × (k : Key.Key) × (token ≡ some t)
            × (Api.authenticate t tokens ≡ true)
            × (Key.new text ≡ ok k)
            × (authenticate config
                  (serve C D tokens token random_key now (delete text) s).1.in_memory
                  time
                  k
                ≡ err (unable_to_read_key k))
      unfolding serve route delete_auth_key_handler
      authenticate-serve_delete text time h =
          let (t, given, valid, passed) =
            auth_ok tokens token (route C D random_key now (delete text)) s ok_response (λ e. cc)
              h in
          let (k, parsed, done, after) = deleted_ok s text (sym (ap (λ a. a.0) passed) ∙ h) in
          (
            t,
            k,
            given,
            valid,
            parsed,
            rw (passed, after) (authenticate-remove_peer_key D config s k time private done),
          )

    module _ (config : Core) (random_key : Key.Key) (now : ℕ) (s : KeysHandler D) where
      -- Where the date of the expiry cannot be told, the request to add a key gets no response,
      -- but the key was added: a private tracker that checks expiries accepts it until then.
      pub add_auth_key_handler_closes :
          (form : AddKeyRequest) (p : PeerKey) (e time : ℕ)
          → config.private_tracker ≡ true
          → checks_expiration config.private_mode ≡ true
          → (add_peer_key D s random_key now form).0 ≡ returned (ok p)
          → p.valid_until ≡ some e
          → C.from_timestamp (as_secs e) ≡ none
          → time ≤ e
          → ((add_auth_key_handler C D s random_key now form).0 ≡ closed)
            × (authenticate config
                  (add_auth_key_handler C D s random_key now form).1.in_memory
                  time
                  p.key
                ≡ ok tt)
      unfolding add_auth_key_handler from_peer_key convert_from_timestamp_to_datetime_utc
      add_auth_key_handler_closes form p e time private checks added until untold early =
          let (expiry, accepted) =
            authenticate-add_peer_key D config s random_key now form p added time private checks in
          (ground arith, ground arith)
