-- ===== src/Auth/Routes/LogoutEffects.antt =====
-- crates/auth/src/adapters/inbound/logout_routes.rs: what a logout changes.
use app_home_services.Base.{
  ℕ, ◌+◌, ◌-◌, ◌<◌, ◌≡◌, ◌≢◌, refl, sym, ◌∙◌, ap, false, List, arith, from_secs, Uuid,
}
use app_home_services.Base.Outcome.{Result, ok, err}
use app_home_services.Values.Events.{Event}
use app_home_services.Blacklist.Backend.{Backend}
use app_home_services.Auth.Entities.{
  AuthError, invalid_credentials, user_not_found, token_verification_failed, session_not_found,
  session_expired, session_invalidated, invalid_refresh_token, rate_limited,
  token_generation_failed, internal_error,
}
use app_home_services.Auth.Store.{Db}
use app_home_services.Auth.UseCases.{logout}
use app_home_services.Auth.UseCases.Login.{logout-IsAtomic}
use app_home_services.Bearer.{AuthenticatedUser}
use app_home_services.Auth.Routes.{AppState, revocation_ttl_secs, answer_logout, logout_handler}

module _ (b : Backend) (now utc_now timestamp : ℕ) (auth_user : AuthenticatedUser)
    (state : AppState) (blacklist : b.State) where
  logout_refused :
      (r : Result (List Event) AuthError) (db : Db)
      → let out = answer_logout b now timestamp auth_user state blacklist (r, db) in
        out.0.status ≢ 200
        → ((e : AuthError) × (r ≡ err e))
          × (out.1.db ≡ db)
          × (out.1.published ≡ state.published)
          × (out.2 ≡ blacklist)
  unfolding answer_logout
  logout_refused (ok events) db h = absurd (h refl)
  logout_refused (err user_not_found) db h = ((_, refl), refl, refl, refl)
  logout_refused (err session_not_found) db h = ((_, refl), refl, refl, refl)
  logout_refused (err session_invalidated) db h = ((_, refl), refl, refl, refl)
  logout_refused (err session_expired) db h = ((_, refl), refl, refl, refl)
  logout_refused (err invalid_credentials) db h = ((_, refl), refl, refl, refl)
  logout_refused (err token_verification_failed) db h = ((_, refl), refl, refl, refl)
  logout_refused (err invalid_refresh_token) db h = ((_, refl), refl, refl, refl)
  logout_refused (err rate_limited) db h = ((_, refl), refl, refl, refl)
  logout_refused (err token_generation_failed) db h = ((_, refl), refl, refl, refl)
  logout_refused (err (internal_error t)) db h = ((_, refl), refl, refl, refl)

  logged_out :
      (r : Result (List Event) AuthError) (db : Db)
      → let out = answer_logout b now timestamp auth_user state blacklist (r, db) in
        out.0.status ≡ 200
        → out.2
          ≡ (b.revoke now
              (auth_user.jti)
              (revocation_ttl_secs (auth_user.exp) timestamp)
              blacklist).1
  unfolding answer_logout
  logged_out (ok events) db h = refl
  logged_out (err user_not_found) db h = absurd (ground arith)
  logged_out (err session_not_found) db h = absurd (ground arith)
  logged_out (err session_invalidated) db h = absurd (ground arith)
  logged_out (err session_expired) db h = absurd (ground arith)
  logged_out (err invalid_credentials) db h = absurd (ground arith)
  logged_out (err token_verification_failed) db h = absurd (ground arith)
  logged_out (err invalid_refresh_token) db h = absurd (ground arith)
  logged_out (err rate_limited) db h = absurd (ground arith)
  logged_out (err token_generation_failed) db h = absurd (ground arith)
  logged_out (err (internal_error t)) db h = absurd (ground arith)

  -- A logout that is not answered 200 changes no table, publishes no event, and leaves the
  -- revocation list alone.
  pub logout_handler_refused :
      (session_id : Uuid)
      → let out = logout_handler b now utc_now timestamp auth_user session_id state blacklist in
        out.0.status ≢ 200
        → (out.1.db.tables ≡ state.db.tables)
          × (out.1.published ≡ state.published)
          × (out.2 ≡ blacklist)
  unfolding logout_handler
  logout_handler_refused session_id h =
      let run = logout utc_now (auth_user.user_id) session_id (state.db) in
      let ((e, failed), same, quiet, untouched) = logout_refused run.0 run.1 h in
      (
        ap (λ d. d.tables) same
            ∙ (logout-IsAtomic utc_now (auth_user.user_id) session_id).undoes (state.db) e failed,
        quiet,
        untouched,
      )

  -- After a logout that is answered 200, and whose revocation the list has accepted, the list does
  -- not report the presented token as valid for as long as a verifier with a leeway of 60 seconds
  -- would still accept it: until 60 seconds after its `exp`, which are not over yet.
  pub logout_handler_revokes :
      (session_id : Uuid) (later : ℕ)
      → let ttl_secs = auth_user.exp + 60 - timestamp in
        let out = logout_handler b now utc_now timestamp auth_user session_id state blacklist in
        out.0.status ≡ 200
        → 0 < ttl_secs
        → (b.revoke now (auth_user.jti) ttl_secs blacklist).0 ≡ ok tt
        → later < now + from_secs ttl_secs
        → (b.is_revoked later (auth_user.jti) out.2).0 ≢ ok false
  unfolding logout_handler revocation_ttl_secs
  logout_handler_revokes session_id later h pos accepted soon valid =
      let run = logout utc_now (auth_user.user_id) session_id (state.db) in
      b.is_revoked_reports later
        (b.revoke now (auth_user.jti) (revocation_ttl_secs (auth_user.exp) timestamp) blacklist).1
        (auth_user.jti) (now + from_secs (revocation_ttl_secs (auth_user.exp) timestamp)) soon
        (b.revoke_holds now (auth_user.jti) (revocation_ttl_secs (auth_user.exp) timestamp)
          blacklist pos accepted)
        (sym (ap (λ s. (b.is_revoked later (auth_user.jti) s).0) (logged_out run.0 run.1 h))
          ∙ valid)
