-- ===== src/Auth/Routes.antt =====
-- crates/auth/src/adapters/inbound: the handlers of logins by password and of logouts, with the
-- limiter, the repository, the event bus and the revocation list that they use.
pub mod Effects
pub mod LogoutEffects
mod Tests
use app_home_services.Base.{
  ℕ, ◌+◌, ◌-◌, Bool, true, false, ◌||◌, List, [], ◌∷◌, ◌++◌, if◌then◌else◌, ltb, Option, Uuid,
}
use app_home_services.Base.Text.{Text, text, is_empty, len}
use app_home_services.Base.Outcome.{Result, ok, err}
use app_home_services.Values.Events.{Event}
use app_home_services.Net.Addr.{IpAddr}
use app_home_services.Net.ClientIp.{HeaderMap, resolve_client_ip}
use app_home_services.RateLimiter.Memory
use app_home_services.RateLimiter.Memory.{MemoryRateLimiter, try_check_and_record}
use app_home_services.Blacklist.Backend.{Backend}
use app_home_services.Bearer.{AuthenticatedUser}
use app_home_services.Auth.Entities.{
  AuthError, invalid_credentials, user_not_found, session_not_found, session_invalidated,
  session_expired,
}
use app_home_services.Auth.Store.{Db}
use app_home_services.Auth.Tokens.{Crypto, JwtServiceImpl}
use app_home_services.Auth.UseCases.{Draws, AuthSettings, LoginResult, login_with_password, logout}

pub data Body : Type 0 where
  tokens : Uuid → Text → Text → Body
  refreshed : Text → Text → Body
  authenticated : Uuid → Text → Text → Bool → Body
  status_text : Text → Body
  error : Text → Body

pub record Response : Type 0 where
  pub status : ℕ
  pub body : Body

-- What the handlers share: `state.rate_limiter`, the database, and what the event bus was given.
pub record AppState : Type 0 where
  pub rate_limiter : MemoryRateLimiter
  pub db : Db
  pub published : List Event

abbrev pub max_username_len : ℕ
max_username_len = 256

abbrev pub max_password_len : ℕ
max_password_len = 4096

unfoldable pub is_out_of_bounds : Text → Text → Bool
is_out_of_bounds username password =
    is_empty username
    || is_empty password
    || ltb max_username_len (len username)
    || ltb max_password_len (len password)

-- The `match` on the result of the use case, which leaves the database it gives.
unfoldable pub answer_login :
    IpAddr
    → MemoryRateLimiter
    → List Event
    → Result LoginResult AuthError × Db
    → Response × AppState
answer_login ip limiter published (ok result, db) = (
  record {
    status = 200;
    body = tokens (result.user.id) (result.access_token) (result.refresh_token);
  },
  record {
    rate_limiter = Memory.reset limiter ip;
    db = db;
    published = published ++ result.events;
  },
)
answer_login ip limiter published (err invalid_credentials, db) = (
  record { status = 401; body = error (text "Invalid username or password") },
  record { rate_limiter = limiter; db = db; published = published },
)
answer_login ip limiter published (err e, db) = (
  record { status = 500; body = error (text "Internal server error") },
  record { rate_limiter = limiter; db = db; published = published },
)

-- What the limiter's answer leads to.
unfoldable pub admit_login :
    (Db → Result LoginResult AuthError × Db)
    → IpAddr
    → MemoryRateLimiter × Bool
    → Db
    → List Event
    → Response × AppState
admit_login run ip (limiter, false) db published = (
  record { status = 429; body = error (text "Too many login attempts. Please try again later.") },
  record { rate_limiter = limiter; db = db; published = published },
)
admit_login run ip (limiter, true) db published = answer_login ip limiter published (run db)

module _ (crypto : Crypto) (jwt : JwtServiceImpl) (settings : AuthSettings) (draws : Draws)
    (parse : Text → Option IpAddr) (trusted_proxy_ips : List IpAddr) where
  -- The limiter reads its clock twice.
  unfoldable pub login_password_handler :
      ℕ → ℕ → IpAddr → HeaderMap → Text → Text → AppState → Response × AppState
  login_password_handler swept now peer headers username password state =
      let ip = resolve_client_ip parse peer headers trusted_proxy_ips in
      if is_out_of_bounds username password
      then (
        record {
          status = 422;
          body = error (
              text
                "Username and password are required and must not exceed 256 and 4096 characters respectively");
        },
        state,
      )
      else admit_login (login_with_password crypto jwt settings draws username password) ip
          (try_check_and_record (state.rate_limiter) swept now ip) (state.db) (state.published)

abbrev pub jwt_exp_leeway_secs : ℕ
jwt_exp_leeway_secs = 60

-- The subtraction stops at 0, as `.max(0)` does.
unfoldable pub revocation_ttl_secs : ℕ → ℕ → ℕ
revocation_ttl_secs exp now = (exp + jwt_exp_leeway_secs) - now

module _ (b : Backend) where
  -- The `match` on the result of the use case; a revocation that fails is only logged.
  unfoldable pub answer_logout :
      ℕ
      → ℕ
      → AuthenticatedUser
      → AppState
      → b.State
      → Result (List Event) AuthError × Db
      → Response × AppState × b.State
  answer_logout now timestamp auth_user state blacklist (ok events, db) = (
    record { status = 200; body = status_text (text "logged_out") },
    record { rate_limiter = state.rate_limiter; db = db; published = state.published ++ events },
    (b.revoke now (auth_user.jti) (revocation_ttl_secs (auth_user.exp) timestamp) blacklist).1,
  )
  answer_logout now timestamp auth_user state blacklist (err user_not_found, db) = (
    record { status = 401; body = error (text "Authentication required") },
    record { rate_limiter = state.rate_limiter; db = db; published = state.published },
    blacklist,
  )
  answer_logout now timestamp auth_user state blacklist (err session_not_found, db) = (
    record { status = 400; body = error (text "Invalid session") },
    record { rate_limiter = state.rate_limiter; db = db; published = state.published },
    blacklist,
  )
  answer_logout now timestamp auth_user state blacklist (err session_invalidated, db) = (
    record { status = 400; body = error (text "Invalid session") },
    record { rate_limiter = state.rate_limiter; db = db; published = state.published },
    blacklist,
  )
  answer_logout now timestamp auth_user state blacklist (err session_expired, db) = (
    record { status = 400; body = error (text "Invalid session") },
    record { rate_limiter = state.rate_limiter; db = db; published = state.published },
    blacklist,
  )
  answer_logout now timestamp auth_user state blacklist (err e, db) = (
    record { status = 500; body = error (text "Internal server error") },
    record { rate_limiter = state.rate_limiter; db = db; published = state.published },
    blacklist,
  )

  -- The time for the backend, the time of the day, and its seconds.
  unfoldable pub logout_handler :
      ℕ → ℕ → ℕ → AuthenticatedUser → Uuid → AppState → b.State → Response × AppState × b.State
  logout_handler now utc_now timestamp auth_user session_id state blacklist =
      answer_logout now timestamp auth_user state blacklist
        (logout utc_now (auth_user.user_id) session_id (state.db))
