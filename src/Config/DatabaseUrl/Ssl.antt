-- ===== src/Config/DatabaseUrl/Ssl.antt =====
-- A URL that is forced connects encrypted and verified, to the same host, with the rest of its query.
use app_home_services.Base.{
  ◌&&◌, not, ◌≡◌, refl, ap, Bool, false, not, some, List, [], ◌∷◌, ◌++◌, filter_by, arith,
  Bool-cases, Option-cases, inl, inr,
}
use app_home_services.Base.Text.{Text, text}
use app_home_services.Base.Outcome.{ok}
use app_home_services.Config.DatabaseUrl.{
  Urls, Strings, last_of, is_sslmode_key, extract_sslmode, db_host_is_loopback, mode_is,
  validate_database_ssl, database_ssl_warning, forced_pairs, force_sslmode_verify_full,
}

last_of-append : {A : Type 0} (xs : List A) (y : A) → last_of (xs ++ (y ∷ [])) ≡ some y
last_of-append [] y = refl
last_of-append (x ∷ xs) y = ground (arith, last_of-append xs y)

filter_by-append :
    {A : Type 0} (p : A → Bool) (xs ys : List A)
    → filter_by p (xs ++ ys) ≡ filter_by p xs ++ filter_by p ys
filter_by-append p [] ys = refl
filter_by-append p (x ∷ xs) ys = ground (arith, filter_by-append p xs ys)

filter_by-not :
    {A : Type 0} (p : A → Bool) (xs : List A) → filter_by p (filter_by (λ x. not (p x)) xs) ≡ []
filter_by-not p [] = refl
filter_by-not p (x ∷ xs) = ground (arith, filter_by-not p xs)

filter_by_twice :
    {A : Type 0} (p : A → Bool) (xs : List A) → filter_by p (filter_by p xs) ≡ filter_by p xs
filter_by_twice p [] = refl
filter_by_twice p (x ∷ xs) = ground (arith, filter_by_twice p xs)

append_nil : {A : Type 0} (xs : List A) → xs ++ [] ≡ xs
append_nil [] = refl
append_nil (x ∷ xs) = ap (λ r. x ∷ r) (append_nil xs)

module _ (urls : Urls) (strings : Strings) where
  -- The URL `u` is encrypted and verified, and says for the rest what `original` says.
  pub record IsForced (original u : urls.Url) : Type 0 where
    pub mode : extract_sslmode urls strings u ≡ some (text "verify-full")
    pub same_host : urls.host u ≡ urls.host original
    pub same_pairs :
        filter_by (λ p. not (is_sslmode_key p)) (urls.query_pairs u)
        ≡ filter_by (λ p. not (is_sslmode_key p)) (urls.query_pairs original)

  set_query_pairs-IsForced :
      (original : urls.Url)
      → strings.to_lowercase (text "verify-full") ≡ text "verify-full"
      → IsForced original
          (urls.set_query_pairs (forced_pairs urls strings (urls.query_pairs original)) original)
  unfolding extract_sslmode forced_pairs
  set_query_pairs-IsForced original low =
      let pairs = urls.query_pairs original in
      let e = urls.query_pairs-set_query_pairs (forced_pairs urls strings pairs) original in
      record {
        mode =
            rw
              (
                e,
                filter_by-append is_sslmode_key (filter_by (λ p. not (is_sslmode_key p)) pairs)
                    ((text "sslmode", text "verify-full") ∷ []),
                filter_by-not is_sslmode_key pairs,
              )
              (ap some low);
        same_host = urls.host-set_query_pairs (forced_pairs urls strings pairs) original;
        same_pairs =
            rw
              (
                e,
                filter_by-append (λ p. not (is_sslmode_key p))
                    (filter_by (λ p. not (is_sslmode_key p)) pairs)
                    ((text "sslmode", text "verify-full") ∷ []),
                filter_by_twice (λ p. not (is_sslmode_key p)) pairs,
              )
              (append_nil (filter_by (λ p. not (is_sslmode_key p)) pairs));
      }

  -- The forced URL parses, and connects with verify-full to the host of the original, with the other
  -- pairs of its query in their order. The lowercase of "verify-full" is itself.
  pub force_sslmode_verify_full_lem :
      (url forced : Text)
      → strings.to_lowercase (text "verify-full") ≡ text "verify-full"
      → force_sslmode_verify_full urls strings url ≡ ok forced
      → (original u : urls.Url) × (urls.parse url ≡ some original)
        × (urls.parse forced ≡ some u)
        × IsForced original u
  unfolding force_sslmode_verify_full
  force_sslmode_verify_full_lem url forced low h = elim (Option-cases (urls.parse url)) [
    | inl bad ↦ absurd (ground (arith, bad))
    | inr (original, parsed) ↦
        let u =
          urls.set_query_pairs (forced_pairs urls strings (urls.query_pairs original)) original in
        let e : urls.to_string u ≡ forced = ground (arith, parsed) in
        (
          original,
          u,
          parsed,
          rw (← e) (urls.parse-to_string u),
          set_query_pairs-IsForced original low,
        )
  ]

  -- sslmode=disable stands for a local host only.
  abbrev pub IsProtected : urls.Url → Type 0
  IsProtected u =
      (mode_is urls strings (text "disable") (extract_sslmode urls strings u)
        && not (db_host_is_loopback urls strings u))
      ≡ false

  pub validate_database_ssl_lem :
      (url : Text)
      → validate_database_ssl urls strings url ≡ ok tt
      → (u : urls.Url) × (urls.parse url ≡ some u) × IsProtected u
  unfolding validate_database_ssl
  validate_database_ssl_lem url h = elim (Option-cases (urls.parse url)) [
    | inl bad ↦ absurd (ground (arith, bad))
    | inr (u, parsed) ↦ (u, parsed, ground (arith, parsed))
  ]

  -- A forced URL gives no warning.
  pub database_ssl_warning_forced :
      (url : Text) (original u : urls.Url)
      → urls.parse url ≡ some u
      → IsForced original u
      → database_ssl_warning urls strings url ≡ false
  unfolding database_ssl_warning
  database_ssl_warning_forced url original u parsed f =
      rw (parsed, f.mode)
        (elim (Bool-cases (db_host_is_loopback urls strings u)) [
          | inl local ↦ rw local refl
          | inr remote ↦ rw remote refl
        ])
