-- ===== src/Config/Settings/Safety.antt =====
-- What holds of the settings of a service that starts.
use app_home_services.Base.{◌^◌, ◌<◌, not, ◌||◌, ◌≡◌, true, Option, none, some}
use app_home_services.Base.Text.{Text, text}
use app_home_services.Config.Env.{Env}
use app_home_services.Config.DatabaseUrl.{mode_is, Urls, Strings, extract_sslmode}
use app_home_services.Config.DatabaseUrl.Ssl.{IsProtected}
use app_home_services.Config.Settings.{Settings, Numbers}

-- Both paths are there, or none.
abbrev pub IsPaired : Option Text → Option Text → Type 0
IsPaired none none = Unit
IsPaired none (some _) = ⊥
IsPaired (some _) none = ⊥
IsPaired (some _) (some _) = Unit

-- The machine's width of each number.
pub record Fit (n : Numbers) : Type 0 where
  pub port : n.server_port < 2 ^ 16
  pub attempts : n.rate_limit_max_attempts < 2 ^ 32
  pub window : n.rate_limit_window_seconds < 2 ^ 64
  pub most : n.db_max_connections < 2 ^ 32
  pub least : n.db_min_connections < 2 ^ 32

module _ (urls : Urls) (strings : Strings) where
  -- The URL parses and does not ask for `sslmode=disable` on a remote host; where `db_require_ssl` is
  -- set, it asks for `verify-full`. The paths of the certificate and of its key are both there or both
  -- missing, the port fits 16 bits, and the attempts fit 32.
  pub record AreSafe (s : Settings) : Type 0 where
    pub url : urls.Url
    pub url_parses : urls.parse s.database_url ≡ some url
    pub protected : IsProtected urls strings url
    pub forced :
        (not s.db_require_ssl
          || mode_is urls strings (text "verify-full") (extract_sslmode urls strings url))
        ≡ true
    pub paired : IsPaired s.tls_cert_path s.tls_key_path
    pub port : s.server_port < 2 ^ 16
    pub attempts : s.rate_limit_max_attempts < 2 ^ 32
