-- ===== src/Net/ClientIp.antt =====
-- crates/shared/src/net.rs and crates/infrastructure/src/metrics_guard.rs: the address that a
-- request counts under, and who may read the metrics. `IpAddr`'s parser is the standard library's,
-- an argument.
pub mod Trust
use app_home_services.Base.{
  ℕ, Bool, true, false, not, ◌||◌, ◌&&◌, Option, none, some, List, [], ◌∷◌, reverse, any_by,
  if◌then◌else◌,
}
use app_home_services.Base.Text.{Text, trim, split}
use app_home_services.Net.Addr.{IpAddr, ip_beq, is_loopback}

-- A header's value: bytes that `to_str` reads as text, visible ASCII, or others, which it refuses.
pub data HeaderValue : Type 0 where
  readable : Text → HeaderValue
  unreadable : List ℕ → HeaderValue

-- `HeaderValue::to_str`, then `ok`
abbrev pub to_str : HeaderValue → Option Text
to_str (readable value) = some value
to_str (unreadable _) = none

-- The two headers that are read: the first value of each.
pub record HeaderMap : Type 0 where
  pub x_forwarded_for : Option HeaderValue
  pub x_real_ip : Option HeaderValue

-- `get(…).and_then(|v| v.to_str().ok())`
abbrev pub header_text : Option HeaderValue → Option Text
header_text none = none
header_text (some v) = to_str v

-- `contains`
unfoldable pub contains : IpAddr → List IpAddr → Bool
contains ip ips = any_by (λ other. ip_beq other ip) ips

module _ (parse : Text → Option IpAddr) where
  -- An entry of the header that is an address, but not a trusted proxy's.
  unfoldable pub untrusted : List IpAddr → Text → Option IpAddr
  untrusted trusted_proxies candidate = elim (parse (trim candidate)) [
    | none ↦ none
    | some ip ↦ if contains ip trusted_proxies then none else some ip
  ]

  -- The loop over the entries, from the right.
  unfoldable pub first_untrusted : List IpAddr → List Text → Option IpAddr
  first_untrusted trusted_proxies [] = none
  first_untrusted trusted_proxies (candidate ∷ rest) = elim (untrusted trusted_proxies candidate) [
    | some ip ↦ some ip
    | none ↦ first_untrusted trusted_proxies rest
  ]

  -- `value.split(',').rev()`; 0x2C is the comma.
  unfoldable pub forwarded_for : List IpAddr → Option Text → Option IpAddr
  forwarded_for trusted_proxies none = none
  forwarded_for trusted_proxies (some value) =
      first_untrusted trusted_proxies (reverse (split 0x2C value))

  unfoldable pub real_ip : IpAddr → Option Text → IpAddr
  real_ip peer_ip none = peer_ip
  real_ip peer_ip (some value) = elim (parse value) [ none ↦ peer_ip | some ip ↦ ip ]

  unfoldable pub resolve_client_ip : IpAddr → HeaderMap → List IpAddr → IpAddr
  resolve_client_ip peer_ip headers trusted_proxies =
      if not (contains peer_ip trusted_proxies)
      then peer_ip
      else elim (forwarded_for trusted_proxies (header_text headers.x_forwarded_for)) [
        | some ip ↦ ip
        | none ↦ real_ip peer_ip (header_text headers.x_real_ip)
      ]

-- `is_empty`
unfoldable pub no_ips : List IpAddr → Bool
no_ips [] = true
no_ips (_ ∷ _) = false

unfoldable pub is_metrics_access_allowed : IpAddr → List IpAddr → Bool
is_metrics_access_allowed ip allowed_ips =
    no_ips allowed_ips || is_loopback ip || contains ip allowed_ips
