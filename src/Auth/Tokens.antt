-- ===== src/Auth/Tokens.antt =====
-- crates/auth/src/adapters/jwt_service.rs, crates/auth/src/application/ports/jwt_service.rs and
-- `decode` of crates/shared/src/auth.rs. Signing, and the check of a signature with its claims, are
-- those of `jsonwebtoken`, under the service's key; hashing is that of `bcrypt`.
use app_home_services.Base.{ℕ, ◌+◌, ◌*◌, Bool, Uuid}
use app_home_services.Base.Text.{Text}
use app_home_services.Base.Outcome.{Result, ok, ok_or, to_option, map_err, ◌>>=◌}
use app_home_services.Auth.Entities.{AuthError, token_verification_failed, token_generation_failed}

-- Times are in seconds.
pub record AccessTokenClaims : Type 0 where
  pub sub : Uuid
  pub jti : Uuid
  pub iss : Text
  pub aud : Text
  pub exp : ℕ
  pub iat : ℕ

pub record RefreshTokenClaims : Type 0 where
  pub sub : Uuid
  pub session_id : Uuid
  pub iss : Text
  pub aud : Text
  pub exp : ℕ
  pub iat : ℕ

pub record TokenPair : Type 0 where
  pub access_token : Text
  pub refresh_token : Text

-- `jsonwebtoken::encode` and `decode`, with the validation that is set up: the time, the issuer and
-- the audience come first. `bcrypt::hash`, with the salt it draws, and `bcrypt::verify`.
pub record Crypto : Type 0 where
  pub encode_access : AccessTokenClaims → Result Text Text
  pub encode_refresh : RefreshTokenClaims → Result Text Text
  pub decode_access : ℕ → Text → Text → Text → Result AccessTokenClaims Text
  pub decode_refresh : ℕ → Text → Text → Text → Result RefreshTokenClaims Text
  pub hash : ℕ → Text → ℕ → Result Text Text
  pub verify : Text → Text → Result Bool Text

pub record JwtServiceImpl : Type 0 where
  pub issuer : Text
  pub audience : Text
  pub access_expiry_minutes : ℕ
  pub refresh_expiry_days : ℕ

module _ (crypto : Crypto) (self : JwtServiceImpl) where
  unfoldable pub generate_token_pair : ℕ → Uuid → Uuid → Uuid → Result TokenPair AuthError
  generate_token_pair now jti user_id session_id =
      map_err (λ _. token_generation_failed)
        (crypto.encode_access (record {
          sub = user_id;
          jti = jti;
          iss = self.issuer;
          aud = self.audience;
          exp = now + self.access_expiry_minutes * 60;
          iat = now;
        }))
      >>= λ access_token.
          map_err (λ _. token_generation_failed)
            (crypto.encode_refresh (record {
              sub = user_id;
              session_id = session_id;
              iss = self.issuer;
              aud = self.audience;
              exp = now + self.refresh_expiry_days * 86400;
              iat = now;
            }))
          >>= λ refresh_token.
              ok (record { access_token = access_token; refresh_token = refresh_token })

  unfoldable pub validate_access_token : ℕ → Text → Result AccessTokenClaims AuthError
  validate_access_token now token =
      ok_or (to_option (crypto.decode_access now (self.issuer) (self.audience) token))
        token_verification_failed

  unfoldable pub validate_refresh_token : ℕ → Text → Result RefreshTokenClaims AuthError
  validate_refresh_token now token =
      ok_or (to_option (crypto.decode_refresh now (self.issuer) (self.audience) token))
        token_verification_failed
