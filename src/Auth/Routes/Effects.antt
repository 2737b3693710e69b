-- ===== src/Auth/Routes/Effects.antt =====
-- crates/auth/src/adapters/inbound: what the handlers change, by the status that they answer.
use app_home_services.Base.{
  ℕ, ◌≡◌, ◌≢◌, refl, sym, subst, ◌∙◌, ap, inl, inr, Bool, true, false, Option, none, some, List,
  find_by, arith, Bool-cases,
}
use app_home_services.Base.Text.{Text}
use app_home_services.Base.HashMap.{get, get-remove}
use app_home_services.Base.Outcome.{Result, ok, err}
use app_home_services.Values.Events.{Event}
use app_home_services.Net.Addr.{IpAddr, ip_eq, ip_beq_iff}
use app_home_services.Net.ClientIp.{HeaderMap, resolve_client_ip}
use app_home_services.RateLimiter.Memory.{MemoryRateLimiter, try_check_and_record}
use app_home_services.RateLimiter.Memory
use app_home_services.Auth.Entities.{
  AuthError, invalid_credentials, user_not_found, token_verification_failed, session_not_found,
  session_expired, session_invalidated, invalid_refresh_token, rate_limited,
  token_generation_failed, internal_error,
}
use app_home_services.Auth.Store.{Db, UserRow}
use app_home_services.Auth.Store.UserRepo.{has_username}
use app_home_services.Auth.Store.Frames.{IsAtomic}
use app_home_services.Auth.Tokens.{Crypto, JwtServiceImpl}
use app_home_services.Auth.UseCases.{Draws, AuthSettings, LoginResult, login_with_password}
use app_home_services.Auth.UseCases.Login.{login_with_password-IsAtomic}
use app_home_services.Auth.UseCases.Verified.{login_with_password_verified}
use app_home_services.Auth.Routes.{
  AppState, is_out_of_bounds, answer_login, admit_login, login_password_handler,
}

-- An answer other than 200 comes from a failure, and publishes nothing.
login_refused :
    (ip : IpAddr) (limiter : MemoryRateLimiter) (published : List Event)
    (r : Result LoginResult AuthError) (db : Db)
    → (answer_login ip limiter published (r, db)).0.status ≢ 200
    → ((e : AuthError) × (r ≡ err e))
      × ((answer_login ip limiter published (r, db)).1.db ≡ db)
      × ((answer_login ip limiter published (r, db)).1.published ≡ published)
unfolding answer_login
login_refused ip limiter published (ok a) db h = absurd (h refl)
login_refused ip limiter published (err invalid_credentials) db h = ((_, refl), refl, refl)
login_refused ip limiter published (err user_not_found) db h = ((_, refl), refl, refl)
login_refused ip limiter published (err token_verification_failed) db h = ((_, refl), refl, refl)
login_refused ip limiter published (err session_not_found) db h = ((_, refl), refl, refl)
login_refused ip limiter published (err session_expired) db h = ((_, refl), refl, refl)
login_refused ip limiter published (err session_invalidated) db h = ((_, refl), refl, refl)
login_refused ip limiter published (err invalid_refresh_token) db h = ((_, refl), refl, refl)
login_refused ip limiter published (err rate_limited) db h = ((_, refl), refl, refl)
login_refused ip limiter published (err token_generation_failed) db h = ((_, refl), refl, refl)
login_refused ip limiter published (err (internal_error t)) db h = ((_, refl), refl, refl)

welcomed_by :
    (ip : IpAddr) (limiter : MemoryRateLimiter) (published : List Event)
    (r : Result LoginResult AuthError) (db : Db)
    → (answer_login ip limiter published (r, db)).0.status ≡ 200
    → ((a : LoginResult) × (r ≡ ok a))
      × ((answer_login ip limiter published (r, db)).1.rate_limiter ≡ Memory.reset limiter ip)
unfolding answer_login
welcomed_by ip limiter published (ok a) db h = ((a, refl), refl)
welcomed_by ip limiter published (err invalid_credentials) db h = absurd (ground arith)
welcomed_by ip limiter published (err user_not_found) db h = absurd (ground arith)
welcomed_by ip limiter published (err token_verification_failed) db h = absurd (ground arith)
welcomed_by ip limiter published (err session_not_found) db h = absurd (ground arith)
welcomed_by ip limiter published (err session_expired) db h = absurd (ground arith)
welcomed_by ip limiter published (err session_invalidated) db h = absurd (ground arith)
welcomed_by ip limiter published (err invalid_refresh_token) db h = absurd (ground arith)
welcomed_by ip limiter published (err rate_limited) db h = absurd (ground arith)
welcomed_by ip limiter published (err token_generation_failed) db h = absurd (ground arith)
welcomed_by ip limiter published (err (internal_error t)) db h = absurd (ground arith)

admission_refused :
    (m : Db → Result LoginResult AuthError × Db) (ip : IpAddr) (limiter : MemoryRateLimiter)
    (through : Bool) (db : Db) (published : List Event)
    → IsAtomic m
    → (admit_login m ip (limiter, through) db published).0.status ≢ 200
    → ((admit_login m ip (limiter, through) db published).1.db.tables ≡ db.tables)
      × ((admit_login m ip (limiter, through) db published).1.published ≡ published)
unfolding admit_login
admission_refused m ip limiter false db published atomic h = (refl, refl)
admission_refused m ip limiter true db published atomic h =
    let ((e, failed), same, quiet) = login_refused ip limiter published (m db).0 (m db).1 h in
    (ap (λ d. d.tables) same ∙ atomic.undoes db e failed, quiet)

-- An answer 200 comes from a success, and gives the address its budget back.
login_welcomed :
    (m : Db → Result LoginResult AuthError × Db) (ip : IpAddr) (limiter : MemoryRateLimiter)
    (through : Bool) (db : Db) (published : List Event)
    → (admit_login m ip (limiter, through) db published).0.status ≡ 200
    → (through ≡ true)
      × ((r : LoginResult) × ((m db).0 ≡ ok r))
      × ((admit_login m ip (limiter, through) db published).1.rate_limiter
          ≡ Memory.reset limiter ip)
unfolding admit_login
login_welcomed m ip limiter false db published h = absurd (ground arith)
login_welcomed m ip limiter true db published h =
    let (made, back) = welcomed_by ip limiter published (m db).0 (m db).1 h in (refl, made, back)

module _ (crypto : Crypto) (jwt : JwtServiceImpl) (settings : AuthSettings) (draws : Draws)
    (parse : Text → Option IpAddr) (trusted_proxy_ips : List IpAddr) where
  opened :
      (swept now : ℕ) (peer : IpAddr) (headers : HeaderMap) (username password : Text)
      (state : AppState)
      → is_out_of_bounds username password ≡ false
      → login_password_handler crypto jwt settings draws parse trusted_proxy_ips swept now peer
          headers username password state
        ≡ admit_login
            (login_with_password crypto jwt settings draws username password)
            (resolve_client_ip parse peer headers trusted_proxy_ips)
            (try_check_and_record
              (state.rate_limiter)
              swept
              now
              (resolve_client_ip parse peer headers trusted_proxy_ips))
            (state.db)
            (state.published)
  unfolding login_password_handler
  opened swept now peer headers username password state e = rw (e, login_password_handler) refl

  -- A login by password that is not answered 200 (input out of bounds, too many tries, wrong
  -- credentials, any error inside) changes no table and publishes no event.
  pub login_password_handler_refused :
      (swept now : ℕ) (peer : IpAddr) (headers : HeaderMap) (username password : Text)
      (state : AppState)
      → let out =
          login_password_handler crypto jwt settings draws parse trusted_proxy_ips swept now peer
            headers username password state in
        out.0.status ≢ 200
        → (out.1.db.tables ≡ state.db.tables) × (out.1.published ≡ state.published)
  unfolding login_password_handler
  login_password_handler_refused swept now peer headers username password state h =
      elim (Bool-cases (is_out_of_bounds username password)) [
        | inl e ↦ rw (e, login_password_handler) (refl, refl)
        | inr e ↦
            let same = opened swept now peer headers username password state e in
            subst (λ o. (o.1.db.tables ≡ state.db.tables) × (o.1.published ≡ state.published))
              (sym same)
              (admission_refused _ _ _ _ _ _
                (login_with_password-IsAtomic crypto jwt settings draws username password)
                (λ s. h (ap (λ o. o.0.status) same ∙ s)))
      ]

  -- A login by password that is answered 200 was let through by the limiter, named a stored user
  -- and gave a password that bcrypt verified against the user's hash; it leaves no tries on record
  -- for the address.
  pub login_password_handler_welcomed :
      (swept now : ℕ) (peer : IpAddr) (headers : HeaderMap) (username password : Text)
      (state : AppState)
      → let out =
          login_password_handler crypto jwt settings draws parse trusted_proxy_ips swept now peer
            headers username password state in
        let ip = resolve_client_ip parse peer headers trusted_proxy_ips in
        out.0.status ≡ 200
        → ((try_check_and_record (state.rate_limiter) swept now ip).1 ≡ true)
          × ((row : UserRow) × (hash : Text) × (find_by
                  (has_username username)
                  (state.db.tables.users)
                ≡ some row)
              × (row.password_hash ≡ some hash)
              × (crypto.verify password hash ≡ ok true))
          × (get ip (out.1.rate_limiter.entries) ≡ none)
  unfolding login_password_handler Memory.reset
  login_password_handler_welcomed swept now peer headers username password state h =
      elim (Bool-cases (is_out_of_bounds username password)) [
        | inl e ↦ absurd (ground arith)
        | inr e ↦
            let same = opened swept now peer headers username password state e in
            let ip = resolve_client_ip parse peer headers trusted_proxy_ips in
            let (let_in, (r, run), limiter) =
              login_welcomed _ _ _ _ _ _ (sym (ap (λ o. o.0.status) same) ∙ h) in
            (
              let_in,
              login_with_password_verified crypto jwt settings draws username password (state.db)
                  run,
              ap (λ o. get ip (o.1.rate_limiter.entries)) same
                  ∙ ap (λ l. get ip (l.entries)) limiter
                  ∙ get-remove ip ip _
                  ∙ (rw ((ip_beq_iff ip ip).1 refl) refl),
            )
      ]
