-- ===== src/Config/AuthSettings.antt =====
-- crates/auth/src/config/auth_settings.rs: `AuthSettings::from_env`, and the semaphore's size of
-- `BcryptLimiter::new` (crates/auth/src/domain/services/bcrypt_task.rs).
pub mod Bounds
use app_home_services.Base.{ℕ, ◌^◌, max, ltb, nat_beq, Bool, if◌then◌else◌}
use app_home_services.Base.Text.{Text, text}
use app_home_services.Base.Outcome.{Result, ok, fail_if, ◌>>◌, ◌>>=◌}
use app_home_services.Config.Env.{
  Env, Var, or_default, ConfigError, must_be_at_least, must_be_at_most, required, number,
  unsigned_or, strict_or, ℤ, parse_i64,
}
use app_home_services.Config.Password.{validate_jwt_secret, validate_default_user_password}

abbrev pub default_bcrypt_cost : ℕ
default_bcrypt_cost = 12

abbrev pub min_bcrypt_cost : ℕ
min_bcrypt_cost = 12

abbrev pub max_bcrypt_cost : ℕ
max_bcrypt_cost = 31

abbrev pub max_bcrypt_max_concurrent : ℕ
max_bcrypt_max_concurrent = 512

abbrev pub default_bcrypt_max_concurrent : ℕ
default_bcrypt_max_concurrent = 8

unfoldable pub validate_bcrypt_cost : ℕ → Result (Unit {0}) ConfigError
validate_bcrypt_cost cost =
    fail_if (ltb cost min_bcrypt_cost) (must_be_at_least (text "BCRYPT_COST") min_bcrypt_cost cost)
    >> fail_if (ltb max_bcrypt_cost cost)
        (must_be_at_most (text "BCRYPT_COST") max_bcrypt_cost cost)

unfoldable pub validate_bcrypt_max_concurrent : ℕ → Result (Unit {0}) ConfigError
validate_bcrypt_max_concurrent value =
    fail_if (nat_beq value 0) (must_be_at_least (text "BCRYPT_MAX_CONCURRENT") 1 value)
    >> fail_if (ltb max_bcrypt_max_concurrent value)
        (must_be_at_most (text "BCRYPT_MAX_CONCURRENT") max_bcrypt_max_concurrent value)

-- `BcryptLimiter::new`: the permits of the semaphore.
unfoldable pub permits : ℕ → ℕ
permits max_concurrent = max max_concurrent 1

pub record AuthSettings : Type 0 where
  pub default_user_username : Text
  pub default_user_password : Text
  pub default_user_email : Text
  pub google_client_id : Text
  pub jwt_secret : Text
  pub jwt_issuer : Text
  pub jwt_audience : Text
  pub access_token_expiry_minutes : ℤ
  pub refresh_token_expiry_days : ℤ
  pub bcrypt_cost : ℕ
  pub bcrypt_max_concurrent : ℕ
  pub bcrypt_limiter : ℕ

module _ (to_lowercase : Text → Text) (env : Env) where
  -- The blocks of the struct's expression, in order.
  unfoldable pub default_password : Result Text ConfigError
  default_password = required env (text "DEFAULT_USER_PASSWORD") >>= λ password.
      validate_default_user_password to_lowercase password >>= λ _. ok password

  unfoldable pub secret_of_env : Result Text ConfigError
  secret_of_env =
      required env (text "JWT_SECRET") >>= λ secret. validate_jwt_secret secret >>= λ _. ok secret

  abbrev pub integer_or : Text → Text → Result ℤ ConfigError
  integer_or name d = number name (parse_i64 (or_default (env name) d))

  unfoldable pub bcrypt_cost_of_env : Result ℕ ConfigError
  bcrypt_cost_of_env =
      strict_or (text "BCRYPT_COST") (2 ^ 32) default_bcrypt_cost (env (text "BCRYPT_COST"))
      >>= λ cost. validate_bcrypt_cost cost >>= λ _. ok cost

  unfoldable pub max_concurrent_of_env : Result ℕ ConfigError
  max_concurrent_of_env =
      strict_or (text "BCRYPT_MAX_CONCURRENT") (2 ^ 64) default_bcrypt_max_concurrent
        (env (text "BCRYPT_MAX_CONCURRENT"))
      >>= λ value. validate_bcrypt_max_concurrent value >>= λ _. ok value

  -- The struct, once every variable has been read.
  abbrev pub settings_of : ℕ → Text → Text → ℤ → ℤ → ℕ → AuthSettings
  settings_of max_concurrent password secret minutes days cost = record {
    default_user_username = or_default (env (text "DEFAULT_USER_USERNAME")) (text "admin");
    default_user_password = password;
    default_user_email = or_default (env (text "DEFAULT_USER_EMAIL")) (text "admin@example.com");
    google_client_id = or_default (env (text "GOOGLE_CLIENT_ID")) (text "");
    jwt_secret = secret;
    jwt_issuer = or_default (env (text "JWT_ISSUER")) (text "app-home-services");
    jwt_audience = or_default (env (text "JWT_AUDIENCE")) (text "app-home-services");
    access_token_expiry_minutes = minutes;
    refresh_token_expiry_days = days;
    bcrypt_cost = cost;
    bcrypt_max_concurrent = max_concurrent;
    bcrypt_limiter = permits max_concurrent;
  }

  unfoldable pub from_env : Result AuthSettings ConfigError
  from_env = max_concurrent_of_env >>= λ max_concurrent. default_password >>= λ password.
      secret_of_env >>= λ secret.
      integer_or (text "ACCESS_TOKEN_EXPIRY_MINUTES") (text "15") >>= λ minutes.
      integer_or (text "REFRESH_TOKEN_EXPIRY_DAYS") (text "7") >>= λ days.
      bcrypt_cost_of_env >>= λ cost.
      ok (settings_of max_concurrent password secret minutes days cost)
