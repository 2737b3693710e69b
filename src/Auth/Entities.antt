-- ===== src/Auth/Entities.antt =====
-- crates/auth/src/domain/entities and crates/auth/src/domain/errors.rs. Where the code reads the
-- clock, the function takes the time.
use app_home_services.Base.{ℕ, Bool, false, Option, none, some, leb, Uuid}
use app_home_services.Base.Text.{Text, text, is_empty}
use app_home_services.Base.Outcome.{Result, fail_if, ◌>>◌}
use app_home_services.Values.AuthMethod.{AuthMethod}
use app_home_services.Values.AuthProvider.{AuthProvider, local, google}
use app_home_services.Values.EventType.{EventType}
use app_home_services.Values.Email.{Email}
use app_home_services.Values.HashedPassword.{HashedPassword}

pub data AuthError : Type 0 where
  invalid_credentials user_not_found token_verification_failed : AuthError
  session_not_found session_expired session_invalidated : AuthError
  invalid_refresh_token rate_limited token_generation_failed : AuthError
  internal_error : Text → AuthError

pub record Session : Type 0 where
  pub id : Uuid
  pub user_id : Uuid
  pub refresh_token_hash : HashedPassword
  pub expires_at : ℕ
  pub is_active : Bool
  pub created_at : ℕ
  pub auth_method : AuthMethod

pub record NewSession : Type 0 where
  pub id : Uuid
  pub user_id : Uuid
  pub refresh_token_hash : HashedPassword
  pub expires_at : ℕ
  pub auth_method : AuthMethod

-- `Session::is_expired`
unfoldable pub is_expired : ℕ → Session → Bool
is_expired now s = leb (s.expires_at) now

-- `Session::invalidate`
unfoldable pub invalidate : Session → Session
invalidate s = record {
  id = s.id;
  user_id = s.user_id;
  refresh_token_hash = s.refresh_token_hash;
  expires_at = s.expires_at;
  is_active = false;
  created_at = s.created_at;
  auth_method = s.auth_method;
}

-- `NewSession::validate`
unfoldable pub validate : ℕ → NewSession → Result (Unit {0}) Text
validate now s =
    fail_if (is_empty (s.refresh_token_hash.as_str)) (text "refresh_token_hash must not be empty")
    >> fail_if (leb (s.expires_at) now) (text "expires_at must be in the future")

pub record User : Type 0 where
  pub id : Uuid
  pub username : Option Text
  pub email : Email
  pub display_name : Text
  pub password_hash : Option HashedPassword
  pub auth_provider : AuthProvider
  pub created_at : ℕ
  pub updated_at : ℕ

pub record NewUser : Type 0 where
  pub username : Option Text
  pub email : Email
  pub display_name : Text
  pub password_hash : Option HashedPassword
  pub auth_provider : AuthProvider

unfoldable pub new_local : Option Text → Email → Text → HashedPassword → NewUser
new_local username email display_name hash = record {
  username = username;
  email = email;
  display_name = display_name;
  password_hash = some hash;
  auth_provider = local;
}

unfoldable pub new_google : Email → Text → NewUser
new_google email display_name = record {
  username = none;
  email = email;
  display_name = display_name;
  password_hash = none;
  auth_provider = google;
}

pub record UserAction : Type 0 where
  pub id : Uuid
  pub user_id : Uuid
  pub session_id : Option Uuid
  pub event_type : EventType
  pub auth_method : AuthMethod
  pub created_at : ℕ

pub record NewUserAction : Type 0 where
  pub user_id : Uuid
  pub session_id : Option Uuid
  pub event_type : EventType
  pub auth_method : AuthMethod
