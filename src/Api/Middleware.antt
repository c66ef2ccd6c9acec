-- ===== src/Api/Middleware.antt =====
-- src/servers/apis/v1/middlewares/auth.rs and v1/responses.rs: the responses that the contexts share,
-- and the middleware that asks for a token. A response is its status with what its body tells;
-- writing the body is left to the framework. `E` is the type of the errors of the handlers.
pub mod Laws
use torrust_tracker.Prelude.{
  ℕ, List, Bool, false, Option, none, some, [], ◌∷◌, if◌then◌else◌, ◌||◌, Text, text_eq,
}
use torrust_tracker.HashMap.{HashMap}
use torrust_tracker.TrackerCore.Authentication.Key.{ParseKeyError}
use torrust_tracker.TrackerCore.Torrents.{Info, BasicInfo}

pub data Rejection (E : Type 0) : Type 0 where
  unauthorized : Rejection E
  token_not_valid : Rejection E
  failed_to_whitelist_torrent : E → Rejection E
  failed_to_remove_torrent_from_whitelist : E → Rejection E
  failed_to_reload_whitelist : E → Rejection E
  failed_to_generate_key : E → Rejection E
  failed_to_delete_key : E → Rejection E
  failed_to_reload_keys : E → Rejection E

-- The resource of a key: `expiry_time` is a text.
pub record AuthKey : Type 0 where
  pub key : Text
  pub valid_until : Option ℕ
  pub expiry_time : Option Text

-- `ok_response` and the answers that show something have status 200, those named invalid 400, and
-- `unhandled_rejection` 500. `closed` is what a client sees when the handler panics: no response.
pub data Response (E : Type 0) : Type 0 where
  ok_response : Response E
  auth_key_response : AuthKey → Response E
  torrent_info_response : Info → Response E
  torrent_list_response : List BasicInfo → Response E
  torrent_not_known_response : Response E
  invalid_info_hash_param : Text → Response E
  invalid_auth_key_param : Text → Response E
  invalid_auth_key : Text → ParseKeyError → Response E
  invalid_auth_key_duration : ℕ → Response E
  unhandled_rejection : Rejection E → Response E
  closed : Response E

abbrev pub AccessTokens : Type 0
AccessTokens = HashMap Text Text

unfoldable pub authenticate : Text → AccessTokens → Bool
authenticate token [] = false
authenticate token ((label, t) ∷ tokens) = text_eq t token || authenticate token tokens

-- The middleware around the rest of the request: `next` is a step on the state of the tracker.
unfoldable pub auth :
    {E S : Type 0} → AccessTokens → Option Text → (S → Response E × S) → S → Response E × S
unfolding authenticate
auth tokens none next s = (unhandled_rejection unauthorized, s)
auth tokens (some token) next s =
    if authenticate token tokens then next s else (unhandled_rejection token_not_valid, s)
