-- ===== src/Config/Settings.antt =====
-- crates/shared/src/config/settings.rs: `Settings::from_env`.
pub mod Safety
use app_home_services.Base.{
  ℕ, ◌^◌, Bool, true, false, not, ◌||◌, Option, none, some, List, [], ◌∷◌, map, if◌then◌else◌,
  filter_by,
}
use app_home_services.Base.Text.{Text, text, text_beq, trim, is_empty, split}
use app_home_services.Base.Outcome.{Result, ok, err, ◌>>=◌}
use app_home_services.Net.Addr.{IpAddr}
use app_home_services.Config.Env.{
  Env, Var, present, or_default, ConfigError, required, unsigned_or, not_a_flag,
  half_configured_tls,
}
use app_home_services.Config.DatabaseUrl.{
  Urls, Strings, validate_database_ssl, force_sslmode_verify_full,
}

pub record Settings : Type 0 where
  pub database_url : Text
  pub server_host : Text
  pub server_port : ℕ
  pub tls_cert_path : Option Text
  pub tls_key_path : Option Text
  pub rate_limit_max_attempts : ℕ
  pub rate_limit_window_seconds : ℕ
  pub cors_allowed_origins : Text
  pub trusted_proxy_ips : List IpAddr
  pub redis_url : Option Text
  pub db_max_connections : ℕ
  pub db_min_connections : ℕ
  pub db_acquire_timeout_seconds : ℕ
  pub db_idle_timeout_seconds : ℕ
  pub db_max_lifetime_seconds : ℕ
  pub db_require_ssl : Bool
  pub metrics_allowed_ips : List IpAddr
  pub enable_swagger : Bool
  pub revocation_flush_interval_seconds : ℕ

-- `filter_map(|s| s.parse().ok())`
abbrev pub parsed_ips : (Text → Option IpAddr) → List Text → List IpAddr
parsed_ips parse [] = []
parsed_ips parse (s ∷ rest) = elim (parse s) [
  | none ↦ parsed_ips parse rest
  | some ip ↦ ip ∷ parsed_ips parse rest
]

-- The lists of addresses: `split(',')`, trimmed, without the empty and the unreadable ones.
unfoldable pub ip_list : (Text → Option IpAddr) → Text → List IpAddr
ip_list parse value =
    parsed_ips parse (filter_by (λ s. not (is_empty s)) (map trim (split 0x2C value)))

abbrev pub is_yes : Text → Bool
is_yes value =
    text_beq value (text "1") || text_beq value (text "true") || text_beq value (text "yes")

abbrev pub is_no : Text → Bool
is_no value =
    text_beq value (text "0") || text_beq value (text "false") || text_beq value (text "no")

-- The arms of the `match` on the trimmed and lowered value.
abbrev pub flag_of : Text → Result Bool ConfigError
flag_of value =
    if is_empty value
    then ok false
    else if is_yes value
    then ok true
    else if is_no value
    then ok false
    else err (not_a_flag value)

unfoldable pub parse_required_ssl_flag : (Text → Text) → Option Text → Result Bool ConfigError
parse_required_ssl_flag to_lowercase none = ok false
parse_required_ssl_flag to_lowercase (some value) = flag_of (to_lowercase (trim value))

unfoldable pub parse_bool_env : (Text → Text) → Env → Text → Bool
parse_bool_env to_lowercase env name = elim (present (env name)) [
  | none ↦ false
  | some value ↦ is_yes (to_lowercase (trim value))
]

-- The trimmed value, if it is not empty.
abbrev pub non_empty : Option Text → Option Text
non_empty none = none
non_empty (some value) = if is_empty (trim value) then none else some (trim value)

abbrev pub tls_pair : Option Text → Option Text → Result (Option Text × Option Text) ConfigError
tls_pair (some cert) none = err (half_configured_tls (text "TLS_CERT_PATH") (text "TLS_KEY_PATH"))
tls_pair none (some key) = err (half_configured_tls (text "TLS_KEY_PATH") (text "TLS_CERT_PATH"))
tls_pair (some cert) (some key) = ok (some cert, some key)
tls_pair none none = ok (none, none)

unfoldable pub parse_tls_paths :
    Option Text → Option Text → Result (Option Text × Option Text) ConfigError
parse_tls_paths raw_cert raw_key = tls_pair (non_empty raw_cert) (non_empty raw_key)

-- `.ok().filter(|s| !s.trim().is_empty())`
abbrev pub non_blank : Option Text → Option Text
non_blank none = none
non_blank (some value) = if is_empty (trim value) then none else some value

-- The settings that are numbers, in the order in which they are read.
pub record Numbers : Type 0 where
  pub server_port : ℕ
  pub rate_limit_max_attempts : ℕ
  pub rate_limit_window_seconds : ℕ
  pub db_max_connections : ℕ
  pub db_min_connections : ℕ
  pub db_acquire_timeout_seconds : ℕ
  pub db_idle_timeout_seconds : ℕ
  pub db_max_lifetime_seconds : ℕ
  pub revocation_flush_interval_seconds : ℕ

unfoldable pub numbers_of_env : Env → Result Numbers ConfigError
numbers_of_env env = unsigned_or env (text "SERVER_PORT") (2 ^ 16) (text "3000") >>= λ port.
    unsigned_or env (text "RATE_LIMIT_MAX_ATTEMPTS") (2 ^ 32) (text "10") >>= λ attempts.
    unsigned_or env (text "RATE_LIMIT_WINDOW_SECONDS") (2 ^ 64) (text "300") >>= λ window.
    unsigned_or env (text "DB_MAX_CONNECTIONS") (2 ^ 32) (text "10") >>= λ most.
    unsigned_or env (text "DB_MIN_CONNECTIONS") (2 ^ 32) (text "0") >>= λ least.
    unsigned_or env (text "DB_ACQUIRE_TIMEOUT_SECONDS") (2 ^ 64) (text "30") >>= λ acquire.
    unsigned_or env (text "DB_IDLE_TIMEOUT_SECONDS") (2 ^ 64) (text "600") >>= λ idle.
    unsigned_or env (text "DB_MAX_LIFETIME_SECONDS") (2 ^ 64) (text "1800") >>= λ lifetime.
    unsigned_or env (text "REVOCATION_FLUSH_INTERVAL_SECONDS") (2 ^ 64) (text "5") >>= λ flush.
    ok record {
      server_port = port;
      rate_limit_max_attempts = attempts;
      rate_limit_window_seconds = window;
      db_max_connections = most;
      db_min_connections = least;
      db_acquire_timeout_seconds = acquire;
      db_idle_timeout_seconds = idle;
      db_max_lifetime_seconds = lifetime;
      revocation_flush_interval_seconds = flush;
    }

module _ (urls : Urls) (strings : Strings) (env : Env) where
  abbrev pub database_url_of : Bool → Result Text ConfigError
  database_url_of db_require_ssl = required env (text "DATABASE_URL") >>= λ raw.
      if db_require_ssl then force_sslmode_verify_full urls strings raw else ok raw

  -- The struct, once what can fail has been read.
  abbrev pub settings_of : Bool → Option Text × Option Text → Text → Numbers → Settings
  settings_of db_require_ssl tls database_url numbers = record {
    database_url = database_url;
    server_host = or_default (env (text "SERVER_HOST")) (text "127.0.0.1");
    server_port = numbers.server_port;
    tls_cert_path = tls.0;
    tls_key_path = tls.1;
    rate_limit_max_attempts = numbers.rate_limit_max_attempts;
    rate_limit_window_seconds = numbers.rate_limit_window_seconds;
    cors_allowed_origins = or_default (env (text "CORS_ALLOWED_ORIGINS")) (text "");
    trusted_proxy_ips =
        ip_list strings.parse_ip (or_default (env (text "TRUSTED_PROXY_IPS")) (text ""));
    redis_url = non_blank (present (env (text "REDIS_URL")));
    db_max_connections = numbers.db_max_connections;
    db_min_connections = numbers.db_min_connections;
    db_acquire_timeout_seconds = numbers.db_acquire_timeout_seconds;
    db_idle_timeout_seconds = numbers.db_idle_timeout_seconds;
    db_max_lifetime_seconds = numbers.db_max_lifetime_seconds;
    db_require_ssl = db_require_ssl;
    metrics_allowed_ips =
        ip_list strings.parse_ip (or_default (env (text "METRICS_ALLOWED_IPS")) (text ""));
    enable_swagger = parse_bool_env strings.to_lowercase env (text "ENABLE_SWAGGER");
    revocation_flush_interval_seconds = numbers.revocation_flush_interval_seconds;
  }

  unfoldable pub from_env : Result Settings ConfigError
  from_env =
      parse_required_ssl_flag strings.to_lowercase (present (env (text "DB_REQUIRE_SSL")))
      >>= λ db_require_ssl.
          parse_tls_paths (present (env (text "TLS_CERT_PATH")))
            (present (env (text "TLS_KEY_PATH")))
          >>= λ tls. database_url_of db_require_ssl >>= λ database_url.
              validate_database_ssl urls strings database_url >>= λ _.
              numbers_of_env env >>= λ numbers.
              ok (settings_of db_require_ssl tls database_url numbers)
