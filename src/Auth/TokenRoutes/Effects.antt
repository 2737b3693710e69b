-- ===== src/Auth/TokenRoutes/Effects.antt =====
-- What the handlers change, by the status that they answer.
use app_home_services.Base.{
  ℕ, ◌∙◌, ◌≡◌, ◌≢◌, ◌⊎◌, inl, inr, refl, Bool, true, false, Option, none, List, ◌++◌, arith,
  Bool-cases,
}
use app_home_services.Base.Text.{Text}
use app_home_services.Base.HashMap.{get, get-remove}
use app_home_services.Base.Outcome.{Result, ok, err}
use app_home_services.Net.Addr.{IpAddr, ip_eq, ip_beq_iff}
use app_home_services.Net.ClientIp.{HeaderMap, resolve_client_ip}
use app_home_services.RateLimiter.Memory
use app_home_services.RateLimiter.Memory.{MemoryRateLimiter, try_check_and_record}
use app_home_services.Auth.Entities.{
  AuthError, invalid_credentials, user_not_found, token_verification_failed, session_not_found,
  session_expired, session_invalidated, invalid_refresh_token, rate_limited,
  token_generation_failed, internal_error,
}
use app_home_services.Auth.Store.{Db}
use app_home_services.Auth.Tokens.{Crypto, JwtServiceImpl}
use app_home_services.Auth.UseCases.{Draws, AuthSettings, RefreshResult, refresh_token}
use app_home_services.Auth.Routes.{Response}
use app_home_services.Auth.TokenRoutes.{
  RouteState, refresh_failed, answer_refresh, admit_token, is_too_long, refresh_token_handler,
  max_refresh_token_len,
}

refresh_failed-ne-200 : (e : AuthError) → (refresh_failed e).status ≢ 200
unfolding refresh_failed
refresh_failed-ne-200 invalid_refresh_token = λ h. absurd (ground arith)
refresh_failed-ne-200 token_verification_failed = λ h. absurd (ground arith)
refresh_failed-ne-200 session_expired = λ h. absurd (ground arith)
refresh_failed-ne-200 session_invalidated = λ h. absurd (ground arith)
refresh_failed-ne-200 user_not_found = λ h. absurd (ground arith)
refresh_failed-ne-200 session_not_found = λ h. absurd (ground arith)
refresh_failed-ne-200 invalid_credentials = λ h. absurd (ground arith)
refresh_failed-ne-200 rate_limited = λ h. absurd (ground arith)
refresh_failed-ne-200 token_generation_failed = λ h. absurd (ground arith)
refresh_failed-ne-200 (internal_error _) = λ h. absurd (ground arith)

-- The outcomes of a refresh: it was let through, its use case succeeded on the database, its events are
-- published after those before, and the address has no tries on record; or nothing is published, and
-- the answer is another than 200.
abbrev pub IsRefreshed :
    (Db → Result RefreshResult AuthError × Db)
    → IpAddr
    → Bool
    → RouteState
    → Response × RouteState
    → Type 0
IsRefreshed run ip let_in before (response, after) =
    (let_in ≡ true)
    × ((result : RefreshResult) × (run before.db ≡ (ok result, after.db))
        × (after.published ≡ before.published ++ result.events))
    × (get ip after.limiter.entries ≡ none)
    × (response.status ≡ 200)

abbrev pub IsRefused : RouteState → Response × RouteState → Type 0
IsRefused before (response, after) = (response.status ≢ 200) × (after.published ≡ before.published)

answered_or :
    (run : Db → Result RefreshResult AuthError × Db) (ip : IpAddr) (limiter : MemoryRateLimiter)
    (before : RouteState) (r : Result RefreshResult AuthError × Db)
    → run before.db ≡ r
    → IsRefreshed run ip true before (answer_refresh ip limiter before.published r)
      ⊎ IsRefused before (answer_refresh ip limiter before.published r)
unfolding answer_refresh Memory.reset
answered_or run ip limiter before (ok result, db) e = inl (
  refl,
  (result, e, refl),
  get-remove ip ip limiter.entries ∙ rw ((ip_beq_iff ip ip).1 refl) refl,
  refl,
)
answered_or run ip limiter before (err e, db) h = inr (refresh_failed-ne-200 e, refl)

admitted_or :
    (message : Text) (run : Db → Result RefreshResult AuthError × Db) (ip : IpAddr)
    (limiter : MemoryRateLimiter) (let_in : Bool) (before : RouteState)
    → IsRefreshed run ip let_in before
        (admit_token message (answer_refresh ip) run (limiter, let_in) before.db before.published)
      ⊎ IsRefused before
          (admit_token message (answer_refresh ip) run (limiter, let_in) before.db before.published)
unfolding admit_token
admitted_or message run ip limiter true before =
    answered_or run ip limiter before (run before.db) refl
admitted_or message run ip limiter false before = inr (λ h. absurd (ground arith), refl)

module _ (crypto : Crypto) (jwt : JwtServiceImpl) (settings : AuthSettings) (draws : Draws)
    (parse : Text → Option IpAddr) (trusted_proxy_ips : List IpAddr) where
  -- Either a refresh is answered 200: the limiter let it through, the use case succeeded on the
  -- database and left the one after, its events are published after those before, and the address has
  -- no tries on record. Or the answer is another than 200, and nothing is published.
  pub refresh_token_handler_outcome :
      (swept now : ℕ) (peer : IpAddr) (headers : HeaderMap) (token : Text) (state : RouteState)
      → let ip = resolve_client_ip parse peer headers trusted_proxy_ips in
        let out =
          refresh_token_handler crypto jwt settings draws parse trusted_proxy_ips swept now peer
            headers token state in
        IsRefreshed
          (refresh_token crypto jwt settings draws token)
          ip
          (try_check_and_record state.limiter swept now ip).1
          state
          out
        ⊎ IsRefused state out
  unfolding refresh_token_handler
  refresh_token_handler_outcome swept now peer headers token state =
      elim (Bool-cases (is_too_long max_refresh_token_len token)) [
        | inl long ↦ inr (rw (long, refresh_token_handler) (λ h. absurd (ground arith), refl))
        | inr fine ↦
            rw (fine, refresh_token_handler)
              (admitted_or _ (refresh_token crypto jwt settings draws token)
                (resolve_client_ip parse peer headers trusted_proxy_ips)
                (try_check_and_record state.limiter swept now
                  (resolve_client_ip parse peer headers trusted_proxy_ips)).0
                (try_check_and_record state.limiter swept now
                  (resolve_client_ip parse peer headers trusted_proxy_ips)).1
                state)
      ]
