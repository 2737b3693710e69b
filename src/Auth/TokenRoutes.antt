-- ===== src/Auth/TokenRoutes.antt =====
-- crates/auth/src/adapters/inbound/refresh_routes.rs and oauth_callback.rs: the handlers of refreshes
-- and of logins by Google. What verifies an id token is a parameter.
pub mod Effects
mod Tests
use app_home_services.Base.{ℕ, Bool, true, false, ◌||◌, Option, List, ◌++◌, if◌then◌else◌, ltb}
use app_home_services.Base.Text.{Text, text, is_empty, len}
use app_home_services.Base.Outcome.{Result, ok, err}
use app_home_services.Values.Events.{Event}
use app_home_services.Net.Addr.{IpAddr}
use app_home_services.Net.ClientIp.{HeaderMap, resolve_client_ip}
use app_home_services.RateLimiter.Memory
use app_home_services.RateLimiter.Memory.{MemoryRateLimiter, try_check_and_record}
use app_home_services.Auth.Entities.{
  AuthError, invalid_credentials, user_not_found, token_verification_failed, session_not_found,
  session_expired, session_invalidated, invalid_refresh_token, rate_limited,
  token_generation_failed, internal_error,
}
use app_home_services.Auth.Store.{Db}
use app_home_services.Auth.Tokens.{Crypto, JwtServiceImpl}
use app_home_services.Auth.UseCases.{
  Draws, AuthSettings, GoogleUserInfo, LoginWithGoogleResult, RefreshResult, login_with_google,
  refresh_token,
}
use app_home_services.Auth.Routes.{Response, refreshed, authenticated, error}

-- What a handler works on: its limiter (`refresh_rate_limiter` or `rate_limiter`), the database, and
-- what the event bus was given.
pub record RouteState : Type 0 where
  pub limiter : MemoryRateLimiter
  pub db : Db
  pub published : List Event

abbrev pub refused : ℕ → Text → Response
refused status message = record { status = status; body = error message }

abbrev pub max_refresh_token_len : ℕ
max_refresh_token_len = 8192

abbrev pub max_id_token_len : ℕ
max_id_token_len = 16384

-- The arms of the `match` on a refresh that fails.
unfoldable pub refresh_failed : AuthError → Response
refresh_failed invalid_refresh_token = refused 401 (text "Invalid or expired refresh token")
refresh_failed token_verification_failed = refused 401 (text "Invalid refresh token")
refresh_failed session_expired = refused 401 (text "Session has expired")
refresh_failed session_invalidated = refused 401 (text "Session has expired")
refresh_failed user_not_found = refused 401 (text "Invalid or expired refresh token")
refresh_failed session_not_found = refused 401 (text "Invalid or expired refresh token")
refresh_failed invalid_credentials = refused 500 (text "Internal server error")
refresh_failed rate_limited = refused 500 (text "Internal server error")
refresh_failed token_generation_failed = refused 500 (text "Internal server error")
refresh_failed (internal_error _) = refused 500 (text "Internal server error")

-- The arms of the `match` on a login by Google that fails.
unfoldable pub google_failed : AuthError → Response
google_failed token_verification_failed = refused 401 (text "Authentication failed")
google_failed invalid_refresh_token = refused 500 (text "Internal server error")
google_failed session_expired = refused 500 (text "Internal server error")
google_failed session_invalidated = refused 500 (text "Internal server error")
google_failed user_not_found = refused 500 (text "Internal server error")
google_failed session_not_found = refused 500 (text "Internal server error")
google_failed invalid_credentials = refused 500 (text "Internal server error")
google_failed rate_limited = refused 500 (text "Internal server error")
google_failed token_generation_failed = refused 500 (text "Internal server error")
google_failed (internal_error _) = refused 500 (text "Internal server error")

unfoldable pub answer_refresh :
    IpAddr
    → MemoryRateLimiter
    → List Event
    → Result RefreshResult AuthError × Db
    → Response × RouteState
answer_refresh ip limiter published (ok result, db) = (
  record { status = 200; body = refreshed result.access_token result.refresh_token },
  record { limiter = Memory.reset limiter ip; db = db; published = published ++ result.events },
)
answer_refresh ip limiter published (err e, db) =
    (refresh_failed e, record { limiter = limiter; db = db; published = published })

unfoldable pub answer_google :
    IpAddr
    → MemoryRateLimiter
    → List Event
    → Result LoginWithGoogleResult AuthError × Db
    → Response × RouteState
answer_google ip limiter published (ok result, db) = (
  record {
    status = 200;
    body = authenticated result.user.id result.access_token result.refresh_token result.is_new_user;
  },
  record { limiter = Memory.reset limiter ip; db = db; published = published ++ result.events },
)
answer_google ip limiter published (err e, db) =
    (google_failed e, record { limiter = limiter; db = db; published = published })

-- What the limiter's answer leads to.
unfoldable pub admit_token :
    {R : Type 0}
    → Text
    → (MemoryRateLimiter → List Event → Result R AuthError × Db → Response × RouteState)
    → (Db → Result R AuthError × Db)
    → MemoryRateLimiter × Bool
    → Db
    → List Event
    → Response × RouteState
admit_token message answer run (limiter, false) db published =
    (refused 429 message, record { limiter = limiter; db = db; published = published })
admit_token message answer run (limiter, true) db published = answer limiter published (run db)

unfoldable pub is_too_long : ℕ → Text → Bool
is_too_long most token = is_empty token || ltb most (len token)

module _ (crypto : Crypto) (jwt : JwtServiceImpl) (settings : AuthSettings) (draws : Draws)
    (parse : Text → Option IpAddr) (trusted_proxy_ips : List IpAddr) where
  -- The limiter reads its clock twice.
  unfoldable pub refresh_token_handler :
      ℕ → ℕ → IpAddr → HeaderMap → Text → RouteState → Response × RouteState
  refresh_token_handler swept now peer headers token state =
      let ip = resolve_client_ip parse peer headers trusted_proxy_ips in
      if is_too_long max_refresh_token_len token
      then (
        refused 422 (text "refresh_token is required and must not exceed 8192 characters"),
        state,
      )
      else admit_token (text "Too many refresh attempts. Please try again later.")
          (answer_refresh ip) (refresh_token crypto jwt settings draws token)
          (try_check_and_record state.limiter swept now ip) state.db state.published

  unfoldable pub login_google_handler :
      (Text → Result GoogleUserInfo AuthError)
      → ℕ
      → ℕ
      → IpAddr
      → HeaderMap
      → Text
      → RouteState
      → Response × RouteState
  login_google_handler verify_id_token swept now peer headers id_token state =
      let ip = resolve_client_ip parse peer headers trusted_proxy_ips in
      if is_too_long max_id_token_len id_token
      then (refused 422 (text "ID token is required and must not exceed 16384 characters"), state)
      else admit_token (text "Too many login attempts. Please try again later.") (answer_google ip)
          (login_with_google crypto jwt settings draws verify_id_token id_token)
          (try_check_and_record state.limiter swept now ip) state.db state.published
