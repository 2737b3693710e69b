-- ===== src/Bearer/Admission.antt =====
-- crates/shared/src/auth.rs: which requests get through.
use app_home_services.Base.{
  ℕ, ◌<◌, ◌≡◌, ◌≢◌, ◌↔◌, ◌⊎◌, refl, sym, subst, ◌∙◌, ap, inl, inr, Bool, true, false, Option, none,
  some, ◌++◌, Option-cases, arith,
}
use app_home_services.Base.Text.{Text, text, strip_prefix, strip_prefix_iff}
use app_home_services.Base.Outcome.{Result, ok, err}
use app_home_services.Blacklist.Backend.{Backend, BlacklistError}
use app_home_services.Bearer.{
  AuthenticatedUser, auth_rejection, Claims, user_of, admit, from_request_parts,
}

module _ (b : Backend) where
  admit_iff :
      (claims : Claims) (r : Result Bool BlacklistError) (s : b.State) (u : AuthenticatedUser)
      → ((admit b claims (r, s)).0 ≡ ok u) ↔ ((r ≢ ok true) × (u ≡ user_of claims))
  unfolding admit
  admit_iff claims (ok true) s u = (λ h. absurd (ground arith), λ h. absurd (h.0 refl))
  admit_iff claims (ok false) s u = (λ h. (λ e. ground arith, ground arith), λ h. ground arith)
  admit_iff claims (err e) s u = (λ h. (λ e'. ground arith, ground arith), λ h. ground arith)

  admitted :
      {now : ℕ} (claims other : Claims) (s : b.State) (u : AuthenticatedUser)
      → some claims ≡ some other
      → (b.is_revoked now (other.jti) s).0 ≢ ok true
      → u ≡ user_of other
      → ((b.is_revoked now (claims.jti) s).0 ≢ ok true) × (u ≡ user_of claims)
  admitted {now} claims other s u e valid acts =
      let same : other ≡ claims = ground arith in
      (subst (λ c. (b.is_revoked now (c.jti) s).0 ≢ ok true) same valid, acts ∙ ap user_of same)

  refused :
      (claims : Claims) (r : Result Bool BlacklistError) (s : b.State) (answer : Bool)
      → r ≡ ok answer
      → r ≢ ok false
      → (admit b claims (r, s)).0 ≡ err auth_rejection
  unfolding admit
  refused claims (ok true) s answer e h = refl
  refused claims (ok false) s answer e h = absurd (h refl)
  refused claims (err x) s answer e h = absurd (ground arith)

  unreadable :
      (now : ℕ) (header token : Text) (decode : Text → Option Claims) (s : b.State)
      → header ≡ text "Bearer " ++ token
      → decode token ≡ none
      → (from_request_parts b now (some header) (some decode) (some s)).0 ≡ err auth_rejection
  unfolding from_request_parts
  unreadable now header token decode s h e =
      rw ((strip_prefix_iff (text "Bearer ") header token).1 h, from_request_parts, e) refl

  readable :
      (now : ℕ) (header token : Text) (decode : Text → Option Claims) (s : b.State)
      (claims : Claims)
      → header ≡ text "Bearer " ++ token
      → decode token ≡ some claims
      → (from_request_parts b now (some header) (some decode) (some s)).0
        ≡ (admit b claims (b.is_revoked now (claims.jti) s)).0
  unfolding from_request_parts
  readable now header token decode s claims h e =
      rw ((strip_prefix_iff (text "Bearer ") header token).1 h, from_request_parts, e) refl

  bearer_iff :
      (now : ℕ) (header token : Text) (decode : Text → Option Claims) (s : b.State)
      (u : AuthenticatedUser)
      → header ≡ text "Bearer " ++ token
      → ((from_request_parts b now (some header) (some decode) (some s)).0 ≡ ok u) ↔ (
          (claims : Claims) × (decode token ≡ some claims)
          × ((b.is_revoked now (claims.jti) s).0 ≢ ok true)
          × (u ≡ user_of claims))
  bearer_iff now header token decode s u is_bearer = elim (Option-cases (decode token)) [
    | inl e ↦ (
      λ h. absurd (ground (arith, unreadable now header token decode s is_bearer e)),
      λ (claims, d, _, _). absurd (ground arith),
    )
    | inr (claims, e) ↦
        let entered = readable now header token decode s claims is_bearer e in
        let iff =
          admit_iff claims (b.is_revoked now (claims.jti) s).0 (b.is_revoked now (claims.jti) s).1
            u in
        (
          λ h. (claims, e, (iff.0 (sym entered ∙ h)).0, (iff.0 (sym entered ∙ h)).1),
          λ (other, d, valid, acts).
              entered ∙ iff.1 (admitted claims other s u (sym e ∙ d) valid acts),
        )
  ]

  -- What a request has to bring along: the header, the verification and the revocation list of its
  -- route, with what they say of the token.
  abbrev pub Accepts :
      ℕ → Option Text → Option (Text → Option Claims) → Option b.State → AuthenticatedUser → Type 0
  Accepts now header verification blacklist u =
      (token : Text) × (decode : Text → Option Claims) × (s : b.State) × (claims : Claims) × (header
        ≡ some (text "Bearer " ++ token))
      × (verification ≡ some decode)
      × (blacklist ≡ some s)
      × (decode token ≡ some claims)
      × ((b.is_revoked now (claims.jti) s).0 ≢ ok true)
      × (u ≡ record { user_id = claims.sub; jti = claims.jti; exp = claims.exp })

  -- Without any of the three nobody gets through.
  lacking :
      (now : ℕ) (header : Option Text) (verification : Option (Text → Option Claims))
      (blacklist : Option b.State) (u : AuthenticatedUser)
      → (header ≡ none) ⊎ (verification ≡ none) ⊎ (blacklist ≡ none)
      → (from_request_parts b now header verification blacklist).0 ≢ ok u
  unfolding from_request_parts
  lacking now none verification blacklist u h e = ground arith
  lacking now (some header) none blacklist u h e =
      elim (Option-cases (strip_prefix (text "Bearer ") header)) [
        | inl n ↦ ground arith
        | inr (t, n) ↦ ground arith
      ]
  lacking now (some header) (some decode) none u h e =
      elim (Option-cases (strip_prefix (text "Bearer ") header)) [
        | inl n ↦ ground arith
        | inr (t, n) ↦ ground arith
      ]
  lacking now (some header) (some decode) (some s) u h e = ground arith

  not_bearer :
      (now : ℕ) (header : Text) (decode : Text → Option Claims) (s : b.State)
      → strip_prefix (text "Bearer ") header ≡ none
      → (from_request_parts b now (some header) (some decode) (some s)).0 ≡ err auth_rejection
  unfolding from_request_parts
  not_bearer now header decode s h = rw (h, from_request_parts) refl

  gets_in :
      (now : ℕ) (header : Option Text) (verification : Option (Text → Option Claims))
      (blacklist : Option b.State) (u : AuthenticatedUser)
      → (from_request_parts b now header verification blacklist).0 ≡ ok u
      → Accepts now header verification blacklist u
  unfolding user_of
  gets_in now none verification blacklist u h =
      absurd (lacking now none verification blacklist u (inl refl) h)
  gets_in now (some header) none blacklist u h =
      absurd (lacking now (some header) none blacklist u (inr (inl refl)) h)
  gets_in now (some header) (some decode) none u h =
      absurd (lacking now (some header) (some decode) none u (inr (inr refl)) h)
  gets_in now (some header) (some decode) (some s) u h =
      elim (Option-cases (strip_prefix (text "Bearer ") header)) [
        | inl n ↦ absurd (ground (arith, not_bearer now header decode s n))
        | inr (token, e) ↦
            let whole : header ≡ text "Bearer " ++ token =
              (strip_prefix_iff (text "Bearer ") header token).0 e in
            let (claims, decoded, valid, acts) =
              (bearer_iff now header token decode s u whole).0 h in
            (token, decode, s, claims, ap some whole, refl, refl, decoded, valid, acts)
      ]

  accepted :
      (now : ℕ) (header : Option Text) (verification : Option (Text → Option Claims))
      (blacklist : Option b.State) (u : AuthenticatedUser)
      → Accepts now header verification blacklist u
      → (from_request_parts b now header verification blacklist).0 ≡ ok u
  unfolding user_of
  accepted now header verification blacklist u
        (token, decode, s, claims, h, v, l, decoded, valid, acts) =
      rw (h, v, l)
        ((bearer_iff now (text "Bearer " ++ token) token decode s u refl).1
          (claims, decoded, valid, acts))

  -- A request gets through exactly if it presents a bearer token, its route is set up with a
  -- verification and a revocation list, the token decodes, and the list does not answer that the token
  -- is revoked. It then acts for the user, and has the id and the expiry, that the token names.
  pub from_request_parts_iff :
      (now : ℕ) (header : Option Text) (verification : Option (Text → Option Claims))
      (blacklist : Option b.State) (u : AuthenticatedUser)
      → ((from_request_parts b now header verification blacklist).0 ≡ ok u)
        ↔ Accepts now header verification blacklist u
  from_request_parts_iff now header verification blacklist u =
      (gets_in now header verification blacklist u, accepted now header verification blacklist u)

  -- A request whose token the revocation list holds is refused, if the list answers at all.
  pub from_request_parts_revoked :
      (now deadline : ℕ) (header token : Text) (decode : Text → Option Claims) (s : b.State)
      (claims : Claims) {answer : Bool}
      → header ≡ text "Bearer " ++ token
      → decode token ≡ some claims
      → b.Holds (claims.jti) deadline s
      → now < deadline
      → (b.is_revoked now (claims.jti) s).0 ≡ ok answer
      → (from_request_parts b now (some header) (some decode) (some s)).0 ≡ err auth_rejection
  from_request_parts_revoked now deadline header token decode s claims {answer} is_bearer d held
        soon answered =
      readable now header token decode s claims is_bearer d
      ∙ refused claims _ _ answer answered
          (b.is_revoked_reports now s (claims.jti) deadline soon held)
