-- ===== src/Api/AuthKey.antt =====
-- src/servers/apis/v1/context/auth_key: the handlers of the keys (handlers.rs), their routes
-- (routes.rs) and the resource of a key (resources.rs), with the time of its expiry as a date
-- (expiry_time in packages/tracker-core/src/authentication/key/peer_key.rs, conv/mod.rs in
-- packages/clock/src). The drawn key and the time are arguments.
pub mod Laws
use torrust_tracker.Prelude.{
  ℕ, ◌*◌, ◌<◌, ◌^◌, Option, none, some, Result, ok, err, Text, ltb, if◌then◌else◌,
}
use mathlib.Core.Option
use torrust_tracker.TrackerCore.Authentication.Key
use torrust_tracker.TrackerCore.Authentication.Key.{PeerKey, as_secs, nanos}
use torrust_tracker.TrackerCore.Authentication.Handler.{
  KeyStore, KeysHandler, AddKeyRequest, Outcome, PeerKeyError, returned, panicked,
  duration_overflow, invalid_key, database_error, add_peer_key, generate_expiring_peer_key,
  remove_peer_key, load_peer_keys_from_database,
}
use torrust_tracker.Api.Middleware.{
  Response, Rejection, AuthKey, ok_response, auth_key_response, invalid_auth_key_param,
  invalid_auth_key, invalid_auth_key_duration, unhandled_rejection, closed, AccessTokens, auth,
  failed_to_generate_key, failed_to_delete_key, failed_to_reload_keys,
}

-- The crate chrono: a date from the seconds since the epoch, if it can be told, and its text.
pub record Chrono : Type 1 where
  pub DateTime : Type 0
  pub from_timestamp : ℕ → Option DateTime
  pub to_string : DateTime → Text

-- The requests to the routes. A form is the request that it becomes.
pub data Request : Type 0 where
  post_form : AddKeyRequest → Request
  post : ℕ → Request
  delete : Text → Request
  reload : Request

module _ (C : Chrono) where
  -- `convert_from_timestamp_to_datetime_utc` of whole seconds; `none` where it panics.
  unfoldable pub convert_from_timestamp_to_datetime_utc : ℕ → Option C.DateTime
  convert_from_timestamp_to_datetime_utc secs =
      if ltb secs (2 ^ 63) then C.from_timestamp secs else none

  -- `AuthKey::from`, with `expiry_time`; `none` where that panics.
  unfoldable pub from_peer_key : PeerKey → Option AuthKey
  unfolding convert_from_timestamp_to_datetime_utc
  from_peer_key auth_key = elim auth_key.valid_until [
    | none ↦ some (record { key = auth_key.key.value; valid_until = none; expiry_time = none })
    | some valid_until ↦
        Option.map
          (λ date. record {
            key = auth_key.key.value;
            valid_until = some (as_secs valid_until);
            expiry_time = some (C.to_string date);
          })
          (convert_from_timestamp_to_datetime_utc (as_secs valid_until))
  ]

  module _ (D : KeyStore) where
    abbrev Answer : Type 0
    Answer = Response D.Error × KeysHandler D

    abbrev shown : Option AuthKey → Response D.Error
    shown none = closed
    shown (some auth_key) = auth_key_response auth_key

    abbrev answered_add : Outcome D × KeysHandler D → Answer
    answered_add (panicked, s) = (closed, s)
    answered_add (returned (ok auth_key), s) = (shown (from_peer_key auth_key), s)
    answered_add (returned (err (duration_overflow seconds_valid)), s) =
        (invalid_auth_key_duration seconds_valid, s)
    answered_add (returned (err (invalid_key key source)), s) = (invalid_auth_key key source, s)
    answered_add (returned (err (database_error e)), s) =
        (unhandled_rejection (failed_to_generate_key e), s)

    unfoldable pub add_auth_key_handler : KeysHandler D → Key.Key → ℕ → AddKeyRequest → Answer
    unfolding from_peer_key
    add_auth_key_handler s random_key now add_key_form =
        answered_add (add_peer_key D s random_key now add_key_form)

    abbrev answered_generate :
        KeysHandler D → Option (Result D.Error PeerKey × KeysHandler D) → Answer
    answered_generate s none = (closed, s)
    answered_generate s (some (ok auth_key, s')) = (shown (from_peer_key auth_key), s')
    answered_generate s (some (err e, s')) = (unhandled_rejection (failed_to_generate_key e), s')

    unfoldable pub generate_auth_key_handler : KeysHandler D → Key.Key → ℕ → ℕ → Answer
    unfolding from_peer_key
    generate_auth_key_handler s random_key now seconds_valid =
        answered_generate s
          (generate_expiring_peer_key D s random_key now (some (seconds_valid * nanos)))

    abbrev answered :
        (D.Error → Rejection D.Error) → Result D.Error (Unit {0}) × KeysHandler D → Answer
    answered failed (ok u, s) = (ok_response, s)
    answered failed (err e, s) = (unhandled_rejection (failed e), s)

    unfoldable pub delete_auth_key_handler : KeysHandler D → Text → Answer
    delete_auth_key_handler s key = elim (Key.new key) [
      | err e ↦ (invalid_auth_key_param key, s)
      | ok parsed ↦ answered failed_to_delete_key (remove_peer_key D s parsed)
    ]

    unfoldable pub reload_keys_handler : KeysHandler D → Answer
    reload_keys_handler s = answered failed_to_reload_keys (load_peer_keys_from_database D s)

    unfoldable pub route : Key.Key → ℕ → Request → KeysHandler D → Answer
    unfolding add_auth_key_handler generate_auth_key_handler delete_auth_key_handler
        reload_keys_handler
    route random_key now (post_form form) s = add_auth_key_handler s random_key now form
    route random_key now (post seconds_valid) s =
        generate_auth_key_handler s random_key now seconds_valid
    route random_key now (delete key) s = delete_auth_key_handler s key
    route random_key now reload s = reload_keys_handler s

    -- A request as the API takes it: behind the middleware.
    unfoldable pub serve :
        AccessTokens → Option Text → Key.Key → ℕ → Request → KeysHandler D → Answer
    unfolding auth route
    serve tokens token random_key now request s = auth tokens token (route random_key now request) s
