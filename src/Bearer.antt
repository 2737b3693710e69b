-- ===== src/Bearer.antt =====
-- crates/shared/src/auth.rs: the extractor of the user whose access token a request presents.
-- `decode` of the verification set-up is `jsonwebtoken`'s, an argument, and so is each of the two
-- extensions that a route may lack.
pub mod Admission
mod Tests
use app_home_services.Base.{ℕ, Bool, true, false, Option, none, some, Uuid}
use app_home_services.Base.Text.{Text, text, strip_prefix}
use app_home_services.Base.Outcome.{Result, ok, err}
use app_home_services.Blacklist.Backend.{Backend, BlacklistError}

pub record AuthenticatedUser : Type 0 where
  pub user_id : Uuid
  pub jti : Uuid
  pub exp : ℕ

pub data AuthRejection : Type 0 where
  auth_rejection : AuthRejection

pub record Claims : Type 0 where
  pub sub : Uuid
  pub jti : Uuid
  pub exp : ℕ

unfoldable pub user_of : Claims → AuthenticatedUser
user_of claims = record { user_id = claims.sub; jti = claims.jti; exp = claims.exp }

module _ (b : Backend) where
  -- The `match` on the revocation list's answer: it fails open.
  unfoldable pub admit :
      Claims
      → Result Bool BlacklistError × b.State
      → Result AuthenticatedUser AuthRejection × Option b.State
  admit claims (ok true, s) = (err auth_rejection, some s)
  admit claims (ok false, s) = (ok (user_of claims), some s)
  admit claims (err _, s) = (ok (user_of claims), some s)

  -- The header as text, the verification's `decode` and the revocation list, each if it is there.
  unfoldable pub from_request_parts :
      ℕ
      → Option Text
      → Option (Text → Option Claims)
      → Option b.State
      → Result AuthenticatedUser AuthRejection × Option b.State
  from_request_parts now none verification blacklist = (err auth_rejection, blacklist)
  from_request_parts now (some auth_header) verification blacklist =
      elim (strip_prefix (text "Bearer ") auth_header) [
        | none ↦ (err auth_rejection, blacklist)
        | some token ↦ elim verification [
          | none ↦ (err auth_rejection, blacklist)
          | some decode ↦ elim blacklist [
            | none ↦ (err auth_rejection, none)
            | some s ↦ elim (decode token) [
              | none ↦ (err auth_rejection, some s)
              | some claims ↦ admit claims (b.is_revoked now (claims.jti) s)
            ]
          ]
        ]
      ]
