-- ===== src/Config/Tests.antt =====
-- Settings from small environments, and their theorems at concrete inputs.
use app_home_services.Base.{◌≡◌, refl, true, false, none, some, [], ◌∷◌, if◌then◌else◌}
use app_home_services.Base.Text.{Text, text, text_beq, parse_unsigned, parse_digits}
use app_home_services.Base.Outcome.{ok, err}
use app_home_services.Config.Env.{Env, set, not_present, parse_i64, pos, plaintext_database}
use app_home_services.Config.Password.{
  unique_chars, validate_jwt_secret, class_count, is_known_weak, validate_default_user_password,
}
use app_home_services.Config.AuthSettings
use app_home_services.Config.AuthSettings.{
  AuthSettings, validate_bcrypt_cost, validate_bcrypt_max_concurrent, permits, default_password,
  secret_of_env, bcrypt_cost_of_env, max_concurrent_of_env,
}
use app_home_services.Config.AuthSettings.Bounds.{AreBounded, from_env-AreBounded}
use app_home_services.Config.DatabaseUrl.{
  to_ascii_lowercase, extract_sslmode, db_host_is_loopback, validate_database_ssl, forced_pairs,
  force_sslmode_verify_full,
}
use app_home_services.Config.DatabaseUrl.Ssl.{IsForced, force_sslmode_verify_full_lem}
use app_home_services.Config.Settings
use app_home_services.Config.Settings.{Settings, parse_required_ssl_flag, parse_tls_paths}
use app_home_services.Config.Sample.{Pairs, print, query_urls, ascii}

abbrev plain_url : Text
plain_url = print ((text "app", text "home") ∷ (text "sslmode", text "disable") ∷ [])

abbrev forced_url : Text
forced_url = print ((text "app", text "home") ∷ (text "sslmode", text "verify-full") ∷ [])

abbrev service_env : Env
service_env name =
    if text_beq name (text "DATABASE_URL")
    then set plain_url
    else if text_beq name (text "DB_REQUIRE_SSL")
    then set (text " True")
    else if text_beq name (text "DEFAULT_USER_PASSWORD")
    then set (text "correct-Horse-7")
    else if text_beq name (text "JWT_SECRET")
    then set (text "0123456789abcdef0123456789abcdef")
    else not_present

-- Without DB_REQUIRE_SSL the same URL is refused.
abbrev plain_env : Env
plain_env name = if text_beq name (text "DATABASE_URL") then set plain_url else not_present

abbrev auth_settings : AuthSettings
auth_settings = record {
  default_user_username = text "admin";
  default_user_password = text "correct-Horse-7";
  default_user_email = text "admin@example.com";
  google_client_id = [];
  jwt_secret = text "0123456789abcdef0123456789abcdef";
  jwt_issuer = text "app-home-services";
  jwt_audience = text "app-home-services";
  access_token_expiry_minutes = pos 15;
  refresh_token_expiry_days = pos 7;
  bcrypt_cost = 12;
  bcrypt_max_concurrent = 8;
  bcrypt_limiter = 8;
}

abbrev settings : Settings
settings = record {
  database_url = forced_url;
  server_host = text "127.0.0.1";
  server_port = 3000;
  tls_cert_path = none;
  tls_key_path = none;
  rate_limit_max_attempts = 10;
  rate_limit_window_seconds = 300;
  cors_allowed_origins = [];
  trusted_proxy_ips = [];
  redis_url = none;
  db_max_connections = 10;
  db_min_connections = 0;
  db_acquire_timeout_seconds = 30;
  db_idle_timeout_seconds = 600;
  db_max_lifetime_seconds = 1800;
  db_require_ssl = true;
  metrics_allowed_ips = [];
  enable_swagger = false;
  revocation_flush_interval_seconds = 5;
}

auth_settings_run : AuthSettings.from_env to_ascii_lowercase service_env ≡ ok auth_settings
unfolding AuthSettings.from_env default_password secret_of_env bcrypt_cost_of_env
    max_concurrent_of_env validate_default_user_password validate_jwt_secret unique_chars
    class_count is_known_weak validate_bcrypt_cost validate_bcrypt_max_concurrent permits parse_i64
    parse_unsigned parse_digits
auth_settings_run = refl

from_env-AreBounded_example : AreBounded to_ascii_lowercase auth_settings
from_env-AreBounded_example =
    from_env-AreBounded to_ascii_lowercase service_env auth_settings auth_settings_run

plain_run : Settings.from_env query_urls ascii plain_env ≡ err plaintext_database
unfolding Settings.from_env parse_required_ssl_flag parse_tls_paths validate_database_ssl
    extract_sslmode db_host_is_loopback
plain_run = refl

forced_run : force_sslmode_verify_full query_urls ascii plain_url ≡ ok forced_url
unfolding force_sslmode_verify_full forced_pairs
forced_run = refl

force_sslmode_verify_full_lem_example :
    (original u : Pairs) × (query_urls.parse plain_url ≡ some original)
    × (query_urls.parse forced_url ≡ some u)
    × IsForced query_urls ascii original u
force_sslmode_verify_full_lem_example =
    force_sslmode_verify_full_lem query_urls ascii plain_url forced_url refl forced_run
