-- ===== src/Blacklist/Backend.antt =====
-- The port `AccessTokenBlacklist` of crates/shared/src/ports.rs, with what a caller relies on: a
-- backend may fail, and a failed `revoke` promises nothing, but a token that is on record until a
-- deadline is not reported as valid before.
use app_home_services.Base.{ℕ, ◌+◌, ◌≤◌, ◌<◌, ◌≡◌, ◌≢◌, Bool, false, Uuid, from_secs}
use app_home_services.Base.Outcome.{Result, ok}

pub data BlacklistError : Type 0 where
  unavailable : BlacklistError

pub record Backend : Type 1 where
  pub State : Type 0
  pub revoke : ℕ → Uuid → ℕ → State → Result (Unit {0}) BlacklistError × State
  pub is_revoked : ℕ → Uuid → State → Result Bool BlacklistError × State
  -- the token is on record until the deadline
  pub Holds : Uuid → ℕ → State → Type 0
  pub revoke_holds :
      (now : ℕ) (jti : Uuid) (ttl_secs : ℕ) (s : State)
      → 0 < ttl_secs
      → (revoke now jti ttl_secs s).0 ≡ ok tt
      → Holds jti (now + from_secs ttl_secs) (revoke now jti ttl_secs s).1
  pub revoke_keeps :
      (now : ℕ) (j : Uuid) (ttl_secs : ℕ) (s : State) (jti : Uuid) (deadline : ℕ)
      → now < deadline
      → (j ≡ jti → (0 < ttl_secs) × (deadline ≤ now + from_secs ttl_secs))
      → Holds jti deadline s
      → Holds jti deadline (revoke now j ttl_secs s).1
  pub holds_less :
      (s : State) (jti : Uuid) (earlier later : ℕ)
      → earlier ≤ later
      → Holds jti later s
      → Holds jti earlier s
  pub is_revoked_keeps :
      (now : ℕ) (j : Uuid) (s : State) (jti : Uuid) (deadline : ℕ)
      → now < deadline
      → Holds jti deadline s
      → Holds jti deadline (is_revoked now j s).1
  pub is_revoked_reports :
      (now : ℕ) (s : State) (jti : Uuid) (deadline : ℕ)
      → now < deadline
      → Holds jti deadline s
      → (is_revoked now jti s).0 ≢ ok false
