-- ===== src/Net/ClientIp/Trust.antt =====
-- crates/shared/src/net.rs: what the address of a request can be.
use app_home_services.Base.{
  ℕ, ◌≡◌, refl, ◌∙◌, ap, inl, inr, true, false, Option, some, List, [], ◌∷◌, ◌++◌, reverse,
  Option-cases, Bool-cases, arith,
}
use mathlib.Core.List.{reverse-append}
use app_home_services.Base.Text.{Text, trim, split}
use app_home_services.Base.Split.{split-append}
use app_home_services.Net.Addr.{IpAddr}
use app_home_services.Net.ClientIp.{
  HeaderValue, readable, unreadable, HeaderMap, real_ip, header_text, contains, untrusted,
  first_untrusted, forwarded_for, resolve_client_ip,
}

module _ (parse : Text → Option IpAddr) (peer_ip : IpAddr) (trusted_proxies : List IpAddr) where
  -- A peer that is not a trusted proxy counts under its own address, whatever headers it sends.
  pub resolve_client_ip_direct :
      (headers : HeaderMap)
      → contains peer_ip trusted_proxies ≡ false
      → resolve_client_ip parse peer_ip headers trusted_proxies ≡ peer_ip
  unfolding resolve_client_ip
  resolve_client_ip_direct headers h = rw (h, resolve_client_ip) refl

  -- The entries that the proxies have appended decide.
  pub first_untrusted-append :
      (near far : List Text) (ip : IpAddr)
      → first_untrusted parse trusted_proxies near ≡ some ip
      → first_untrusted parse trusted_proxies (near ++ far) ≡ some ip
  unfolding first_untrusted
  first_untrusted-append [] far ip h = cc
  first_untrusted-append (c ∷ near) far ip h =
      elim (Option-cases (untrusted parse trusted_proxies c)) [
        | inl e ↦ ground (arith, first_untrusted-append near far ip)
        | inr (found, e) ↦ ground arith
      ]

  -- An address taken from `X-Forwarded-For` is not a trusted proxy's.
  pub first_untrusted_lem :
      (entries : List Text) (ip : IpAddr)
      → first_untrusted parse trusted_proxies entries ≡ some ip
      → contains ip trusted_proxies ≡ false
  unfolding first_untrusted untrusted
  first_untrusted_lem [] ip h = cc
  first_untrusted_lem (c ∷ rest) ip h = elim (Option-cases (parse (trim c))) [
    | inl e ↦ ground (arith, first_untrusted_lem rest ip)
    | inr (found, e) ↦ elim (Bool-cases (contains found trusted_proxies)) [
      | inl t ↦ ground (arith, first_untrusted_lem rest ip)
      | inr t ↦ ground arith
    ]
  ]

  -- Behind a trusted proxy, let the value of `X-Forwarded-For` read as text, with an address that is
  -- not a trusted proxy's among the entries that the proxies have appended. Then the last such entry
  -- is the address of the client, whatever text stands before what they appended and whatever
  -- `X-Real-IP` says.
  pub resolve_client_ip_unforged :
      (forged appended : Text) (x_real_ip : Option HeaderValue) (ip : IpAddr)
      → contains peer_ip trusted_proxies ≡ true
      → first_untrusted parse trusted_proxies (reverse (split 0x2C appended)) ≡ some ip
      → (resolve_client_ip parse peer_ip
            (record {
              x_forwarded_for = some (readable (forged ++ 0x2C ∷ appended));
              x_real_ip = x_real_ip;
            })
            trusted_proxies
          ≡ ip)
        × (contains ip trusted_proxies ≡ false)
  unfolding resolve_client_ip forwarded_for
  resolve_client_ip_unforged forged appended x_real_ip ip trusted found =
      let entries : reverse (split 0x2C (forged ++ 0x2C ∷ appended))
          ≡ reverse (split 0x2C appended) ++ reverse (split 0x2C forged) =
        ap reverse (split-append 0x2C forged appended)
        ∙ reverse-append (split 0x2C forged) (split 0x2C appended) in
      let taken =
        ap (first_untrusted parse trusted_proxies) entries
        ∙ first_untrusted-append (reverse (split 0x2C appended)) (reverse (split 0x2C forged)) ip
            found in
      (
        rw (trusted, resolve_client_ip, taken) refl,
        first_untrusted_lem (reverse (split 0x2C appended)) ip found,
      )

  -- A value of `X-Forwarded-For` that does not read as text leaves the choice to `X-Real-IP`.
  resolve_client_ip-unreadable :
      (bytes : List ℕ) (x_real_ip : Option HeaderValue)
      → contains peer_ip trusted_proxies ≡ true
      → resolve_client_ip parse peer_ip
          (record { x_forwarded_for = some (unreadable bytes); x_real_ip = x_real_ip })
          trusted_proxies
        ≡ real_ip parse peer_ip (header_text x_real_ip)
  unfolding resolve_client_ip forwarded_for
  resolve_client_ip-unreadable bytes x_real_ip trusted = rw (trusted, resolve_client_ip) refl
