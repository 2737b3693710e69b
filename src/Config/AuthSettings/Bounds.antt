-- ===== src/Config/AuthSettings/Bounds.antt =====
-- What holds of the settings of a service that starts.
use app_home_services.Base.{ℕ, subst, ◌≤◌, ◌≡◌, refl, arith}
use app_home_services.Base.Text.{Text, text}
use app_home_services.Base.Outcome.{Result, ok, err, >>=-ok, ◌>>=◌}
use app_home_services.Config.Env.{Env, ConfigError}
use app_home_services.Config.Password.{
  IsStrongSecret, IsStrongPassword, validate_jwt_secret, validate_default_user_password,
  validate_jwt_secret_strong, validate_default_user_password_strong,
}
use app_home_services.Config.AuthSettings.{
  AuthSettings, from_env, max_concurrent_of_env, default_password, secret_of_env, integer_or,
  bcrypt_cost_of_env, validate_bcrypt_cost, validate_bcrypt_max_concurrent, permits,
}

pub record AreBounded (to_lowercase : Text → Text) (s : AuthSettings) : Type 0 where
  pub password : IsStrongPassword to_lowercase s.default_user_password
  pub secret : IsStrongSecret s.jwt_secret
  pub cost_least : 12 ≤ s.bcrypt_cost
  pub cost_most : s.bcrypt_cost ≤ 31
  pub limiter_least : 1 ≤ s.bcrypt_limiter
  pub limiter_most : s.bcrypt_limiter ≤ 512
  pub limiter_eq : s.bcrypt_limiter ≡ s.bcrypt_max_concurrent

-- A check that keeps what it looks at.
checked_value :
    {A : Type 0} (P : A → Type 0) (a : A) (c : Result (Unit {0}) ConfigError)
    → (c ≡ ok tt → P a)
    → {b : A} → ◌≡◌ {A = Result A ConfigError} (c >>= λ _. ok a) (ok b)
    → P b
checked_value P a (ok tt) holds {b} h = let e : a ≡ b = cc in subst P e (holds refl)
checked_value P a (err e) holds {b} h = cc

checked :
    {A : Type 0} (P : A → Type 0) (r : Result A ConfigError)
    (check : A → Result (Unit {0}) ConfigError)
    → ((a : A) → check a ≡ ok tt → P a)
    → {b : A} → (r >>= λ a. check a >>= λ _. ok a) ≡ ok b
    → P b
checked P (ok a) check holds {b} h = checked_value P a (check a) (holds a) h
checked P (err e) check holds {b} h = cc

ok_holds :
    {A : Type 0} (P : A → Type 0) (a b : A)
    → P a
    → ◌≡◌ {A = Result A ConfigError} (ok a) (ok b)
    → P b
ok_holds P a b held h = let e : a ≡ b = cc in subst P e held

cost_bounded : (cost : ℕ) → validate_bcrypt_cost cost ≡ ok tt → (12 ≤ cost) × (cost ≤ 31)
unfolding validate_bcrypt_cost
cost_bounded cost h = (ground arith, ground arith)

limit_bounded :
    (value : ℕ) → validate_bcrypt_max_concurrent value ≡ ok tt → (1 ≤ value) × (value ≤ 512)
unfolding validate_bcrypt_max_concurrent
limit_bounded value h = (ground arith, ground arith)

-- Settings that the environment gives are bounded: the password of the default user and the secret are
-- strong, bcrypt's cost is between 12 and 31, and the limiter has between 1 and 512 permits, as many
-- as the settings say.
pub from_env-AreBounded :
    (to_lowercase : Text → Text) (env : Env) (s : AuthSettings)
    → from_env to_lowercase env ≡ ok s
    → AreBounded to_lowercase s
unfolding from_env max_concurrent_of_env default_password secret_of_env bcrypt_cost_of_env permits
from_env-AreBounded to_lowercase env s h =
    let (value, e₁, h₁) = >>=-ok (max_concurrent_of_env to_lowercase env) _ h in
    let (password, e₂, h₂) = >>=-ok (default_password to_lowercase env) _ h₁ in
    let (secret, e₃, h₃) = >>=-ok (secret_of_env to_lowercase env) _ h₂ in
    let (minutes, e₄, h₄) =
      >>=-ok (integer_or to_lowercase env (text "ACCESS_TOKEN_EXPIRY_MINUTES") (text "15")) _ h₃ in
    let (days, e₅, h₅) =
      >>=-ok (integer_or to_lowercase env (text "REFRESH_TOKEN_EXPIRY_DAYS") (text "7")) _ h₄ in
    let (cost, e₆, h₆) = >>=-ok (bcrypt_cost_of_env to_lowercase env) _ h₅ in
    let limits =
      checked (λ v. (1 ≤ v) × (v ≤ 512)) _ validate_bcrypt_max_concurrent limit_bounded e₁ in
    let costs = checked (λ v. (12 ≤ v) × (v ≤ 31)) _ validate_bcrypt_cost cost_bounded e₆ in
    ok_holds (AreBounded to_lowercase) _ s
      record {
        password =
            checked (IsStrongPassword to_lowercase) _ (validate_default_user_password to_lowercase)
              (validate_default_user_password_strong to_lowercase) e₂;
        secret = checked IsStrongSecret _ validate_jwt_secret validate_jwt_secret_strong e₃;
        cost_least = costs.0;
        cost_most = costs.1;
        limiter_least = ground (arith, limits.0);
        limiter_most = ground (arith, limits.0, limits.1);
        limiter_eq = ground (arith, limits.0);
      }
      h₆
