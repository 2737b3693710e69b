-- ===== src/Net/Tests.antt =====
-- Requests through a proxy, and their theorems at concrete inputs.
use app_home_services.Base.{◌≡◌, refl, true, false, Option, none, some, [], ◌∷◌, ◌++◌, reverse}
use app_home_services.Base.Text.{Text, text, is_whitespace, trim, trim_start, split}
use app_home_services.Net.Addr.{IpAddr, v4, ip_beq}
use app_home_services.Net.ClientIp.{
  HeaderMap, readable, contains, untrusted, first_untrusted, resolve_client_ip,
}
use app_home_services.Net.ClientIp.Trust.{resolve_client_ip_unforged}

-- A one-digit address is its digit.
abbrev parse : Text → Option IpAddr
parse (c ∷ []) = some (v4 c)
parse _ = none

abbrev headers : HeaderMap
headers = record { x_forwarded_for = some (readable (text "1,2")); x_real_ip = none }

trusting_none : contains (v4 9) [] ≡ false
unfolding contains
trusting_none = refl

trusting : contains (v4 9) (v4 9 ∷ v4 50 ∷ []) ≡ true
unfolding contains ip_beq
trusting = refl

-- The last entry is a trusted proxy, `2`; the one before it, `3`, is not.
appended_run :
    first_untrusted parse (v4 9 ∷ v4 50 ∷ []) (reverse (split 0x2C (text "3,2"))) ≡ some (v4 51)
unfolding first_untrusted untrusted contains ip_beq trim trim_start is_whitespace
appended_run = refl

resolve_client_ip_unforged_example :
    (resolve_client_ip parse
        (v4 9)
        (record {
          x_forwarded_for = some (readable (text "1" ++ 0x2C ∷ text "3,2"));
          x_real_ip = none;
        })
        (v4 9 ∷ v4 50 ∷ [])
      ≡ v4 51)
    × (contains (v4 51) (v4 9 ∷ v4 50 ∷ []) ≡ false)
resolve_client_ip_unforged_example =
    resolve_client_ip_unforged parse (v4 9) (v4 9 ∷ v4 50 ∷ []) (text "1") (text "3,2") none (v4 51)
      trusting appended_run
