-- ===== src/Config/DatabaseUrl.antt =====
-- crates/shared/src/config/settings.rs: the database's URL and its sslmode. The `url` crate,
-- `str::to_lowercase` and the parser of addresses are parameters.
pub mod Ssl
use app_home_services.Base.{
  ℕ, ◌+◌, ◌≡◌, Bool, true, false, not, ◌&&◌, ◌||◌, Option, none, some, List, [], ◌∷◌, ◌++◌, map,
  leb, filter_by, if◌then◌else◌,
}
use app_home_services.Base.Text.{Text, text, text_beq}
use app_home_services.Base.Outcome.{Result, ok, err, ok_or, fail_if, ◌>>=◌}
use app_home_services.Net.Addr.{IpAddr, is_loopback}
use app_home_services.Config.Env.{ConfigError, not_a_valid_url, plaintext_database}

-- `url::Host`
pub data Host : Type 0 where
  ipv4 ipv6 : IpAddr → Host
  domain : Text → Host

-- `url::Url`, with what its documentation says: setting the query changes nothing else, and a URL
-- that is printed parses to itself.
pub record Urls : Type 1 where
  pub Url : Type 0
  pub parse : Text → Option Url
  pub query_pairs : Url → List (Text × Text)
  pub set_query_pairs : List (Text × Text) → Url → Url
  pub host : Url → Option Host
  pub to_string : Url → Text
  pub parse-to_string : (u : Url) → parse (to_string u) ≡ some u
  pub query_pairs-set_query_pairs :
      (ps : List (Text × Text)) (u : Url) → query_pairs (set_query_pairs ps u) ≡ ps
  pub host-set_query_pairs :
      (ps : List (Text × Text)) (u : Url) → host (set_query_pairs ps u) ≡ host u

-- The standard library's functions on text that are used here.
pub record Strings : Type 0 where
  pub to_lowercase : Text → Text
  pub parse_ip : Text → Option IpAddr

-- `Iterator::last`
abbrev pub last_of {ℓ} : {A : Type ℓ} → List A → Option A
last_of [] = none
last_of (x ∷ xs) = elim (last_of xs) [ none ↦ some x | some y ↦ some y ]

-- `eq_ignore_ascii_case`
abbrev pub to_ascii_lowercase : Text → Text
to_ascii_lowercase = map (λ c. if leb 65 c && leb c 90 then c + 32 else c)

abbrev pub eq_ignore_ascii_case : Text → Text → Bool
eq_ignore_ascii_case s t = text_beq (to_ascii_lowercase s) (to_ascii_lowercase t)

abbrev pub is_sslmode_key : Text × Text → Bool
is_sslmode_key (k, _) = text_beq k (text "sslmode") || text_beq k (text "ssl-mode")

module _ (urls : Urls) (strings : Strings) where
  abbrev pub lowered : Option (Text × Text) → Option Text
  lowered none = none
  lowered (some (_, value)) = some (strings.to_lowercase value)

  unfoldable pub extract_sslmode : urls.Url → Option Text
  extract_sslmode url = lowered (last_of (filter_by is_sslmode_key (urls.query_pairs url)))

  abbrev pub ip_is_loopback : Option IpAddr → Bool
  ip_is_loopback none = false
  ip_is_loopback (some ip) = is_loopback ip

  abbrev pub host_is_loopback : Option Host → Bool
  host_is_loopback none = false
  host_is_loopback (some (ipv4 ip)) = is_loopback ip
  host_is_loopback (some (ipv6 ip)) = is_loopback ip
  host_is_loopback (some (domain d)) =
      eq_ignore_ascii_case d (text "localhost") || ip_is_loopback (strings.parse_ip d)

  unfoldable pub db_host_is_loopback : urls.Url → Bool
  db_host_is_loopback url = host_is_loopback (urls.host url)

  -- `as_deref() == Some(…)`
  abbrev pub mode_is : Text → Option Text → Bool
  mode_is mode none = false
  mode_is mode (some m) = text_beq m mode

  unfoldable pub validate_database_ssl : Text → Result (Unit {0}) ConfigError
  validate_database_ssl url = ok_or (urls.parse url) not_a_valid_url >>= λ parsed.
      fail_if
        (mode_is (text "disable") (extract_sslmode parsed) && not (db_host_is_loopback parsed))
        plaintext_database

  abbrev pub may_be_plaintext : Option Text → Bool
  may_be_plaintext none = true
  may_be_plaintext (some m) = text_beq m (text "prefer") || text_beq m (text "allow")

  -- Whether a warning is logged.
  abbrev pub warns : Option urls.Url → Bool
  warns none = false
  warns (some parsed) =
      if db_host_is_loopback parsed then false else may_be_plaintext (extract_sslmode parsed)

  unfoldable pub database_ssl_warning : Text → Bool
  database_ssl_warning url = warns (urls.parse url)

  -- The pairs of the query that stay, and the one that is added.
  unfoldable pub forced_pairs : List (Text × Text) → List (Text × Text)
  forced_pairs pairs =
      filter_by (λ p. not (is_sslmode_key p)) pairs ++ ((text "sslmode", text "verify-full") ∷ [])

  unfoldable pub force_sslmode_verify_full : Text → Result Text ConfigError
  force_sslmode_verify_full url = ok_or (urls.parse url) not_a_valid_url >>= λ parsed.
      ok (urls.to_string (urls.set_query_pairs (forced_pairs (urls.query_pairs parsed)) parsed))
