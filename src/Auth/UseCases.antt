-- ===== src/Auth/UseCases.antt =====
-- crates/auth/src/application/use_cases, over `PostgresUserRepo` and `JwtServiceImpl`. What a call
-- draws (ids, salts, the time) and how `run_bounded` ends is an argument.
pub mod Login
pub mod Verified
pub mod Quiet
pub mod Found
pub mod Refresh
use app_home_services.Base.{
  ℕ, ◌+◌, ◌*◌, ◌/◌, Bool, true, false, not, Option, none, some, List, [], ◌∷◌, ◌++◌, Uuid,
}
use app_home_services.Base.Text.{Text, text}
use app_home_services.Base.Outcome.{Result, ok, err, ok_or, map_err, fail_if}
use app_home_services.Values.AuthMethod
use app_home_services.Values.AuthMethod.{AuthMethod}
use app_home_services.Values.AuthProvider
use app_home_services.Values.EventType.{EventType}
use app_home_services.Values.Email
use app_home_services.Values.HashedPassword
use app_home_services.Values.HashedPassword.{HashedPassword}
use app_home_services.Values.Events
use app_home_services.Values.Events.{Event}
use app_home_services.Auth.Entities.{
  AuthError, invalid_credentials, user_not_found, session_invalidated, token_generation_failed,
  internal_error, Session, NewSession, User, UserAction, NewUserAction, new_google,
}
use app_home_services.Auth.Aggregate.{
  UserAggregate, find_session, add_session, take_events, invalidate_session, rotate_session,
  invalidate_all_active_sessions,
}
use app_home_services.Auth.Store.{Query, lift, ◌>>=◌, ◌>>◌}
use app_home_services.Auth.Store.Rows.{map_option}
use app_home_services.Auth.Store.UserRepo.{
  create, create_user_action, find_aggregate_by_id, find_aggregate_by_username,
  find_aggregate_by_email, save_aggregate,
}
use app_home_services.Auth.Tokens.{
  Crypto, JwtServiceImpl, TokenPair, generate_token_pair, validate_refresh_token,
}
use app_home_services.Auth.Password.{Cache, or_false, verify_password_timing_safe}

-- The time in nanoseconds; the ids and salts that are drawn; how the pool for blocking work ends
-- the first task and the second: with the task's value, or with the text of an error.
pub record Draws : Type 0 where
  pub now : ℕ
  pub session_id : Uuid
  pub jti : Uuid
  pub user_id : Uuid
  pub salt : ℕ
  pub dummy_salt : ℕ
  pub cache : Cache
  pub first_task : Option Text
  pub second_task : Option Text

pub record AuthSettings : Type 0 where
  pub refresh_token_expiry_days : ℕ
  pub bcrypt_cost : ℕ

-- `run_bounded`
unfoldable pub run_bounded {ℓ} : {A : Type ℓ} → Option Text → A → Result A AuthError
run_bounded none a = ok a
run_bounded (some e) a = err (internal_error e)

pub record LoginResult : Type 0 where
  pub user : User
  pub session_id : Uuid
  pub access_token : Text
  pub refresh_token : Text
  pub events : List Event

pub record LoginWithGoogleResult : Type 0 where
  pub user : User
  pub session_id : Uuid
  pub access_token : Text
  pub refresh_token : Text
  pub is_new_user : Bool
  pub events : List Event

-- What the port `AuthProvider` gives of an id token.
pub record GoogleUserInfo : Type 0 where
  pub email : Text
  pub name : Text

pub record RefreshResult : Type 0 where
  pub user_id : Uuid
  pub session_id : Uuid
  pub access_token : Text
  pub refresh_token : Text
  pub auth_method : AuthMethod
  pub events : List Event

-- The code's `unwrap_or(AuthMethod::Password)`
abbrev pub method_of : List Event → AuthMethod
method_of [] = AuthMethod.password
method_of (e ∷ _) = elim (Events.auth_method e) [ none ↦ AuthMethod.password | some m ↦ m ]

module _ (crypto : Crypto) (jwt : JwtServiceImpl) (settings : AuthSettings) (draws : Draws) where
  -- The time in seconds.
  unfoldable pub timestamp : ℕ
  timestamp = draws.now / 1_000_000_000

  unfoldable pub expires_at : ℕ
  expires_at = draws.now + settings.refresh_token_expiry_days * 86400 * 1_000_000_000

  -- The hash of the new refresh token.
  unfoldable pub hash_refresh_token : Option Text → Text → Query HashedPassword
  hash_refresh_token task token =
      lift (run_bounded task (crypto.hash (draws.salt) token (settings.bcrypt_cost))) >>= λ hashed.
      lift (map_err (λ _. token_generation_failed) hashed) >>= λ hash.
      lift (map_err (λ _. token_generation_failed) (HashedPassword.new hash))

  -- `create_session_tokens`; `login_with_google` has the same statements in line.
  unfoldable pub create_session_tokens :
      Option Text → AuthMethod → UserAggregate → Query LoginResult
  create_session_tokens task method loaded =
      lift
        (generate_token_pair crypto jwt timestamp (draws.jti) (loaded.user.id) (draws.session_id))
      >>= λ token_pair. hash_refresh_token task (token_pair.refresh_token) >>= λ refresh_hash.
          lift (add_session (draws.now) loaded (draws.session_id) refresh_hash expires_at method)
          >>= λ (new_session, aggregate).
              save_aggregate (draws.now) aggregate (new_session ∷ []) >>= λ _. lift (
                ok (record {
                  user = aggregate.user;
                  session_id = draws.session_id;
                  access_token = token_pair.access_token;
                  refresh_token = token_pair.refresh_token;
                  events = (take_events aggregate).0;
                }))

  -- The work on the pool's threads, its result alone.
  unfoldable pub password_ok : Option UserAggregate → Text → Bool
  password_ok found password =
      (verify_password_timing_safe crypto (draws.dummy_salt) (draws.cache)
        (map_option (λ a. a.user) found) password (settings.bcrypt_cost)).0

  unfoldable pub login_with_password : Text → Text → Query LoginResult
  login_with_password username password = find_aggregate_by_username username >>= λ found.
      lift (run_bounded (draws.first_task) (password_ok found password)) >>= λ valid.
      lift (fail_if (not valid) invalid_credentials) >>= λ _.
      lift (ok_or found invalid_credentials) >>= λ aggregate.
      create_session_tokens (draws.second_task) AuthMethod.password aggregate

  -- The user of the address, made if there is none, and whether it was.
  unfoldable pub user_for : GoogleUserInfo → Option UserAggregate → Query (UserAggregate × Bool)
  user_for user_info (some agg) = lift (ok (agg, false))
  user_for user_info none =
      lift (map_err (λ e. internal_error (Email.to_string e)) (Email.new (user_info.email)))
      >>= λ email.
          create (draws.now) (draws.user_id) (new_google email (user_info.name)) >>= λ user.
          find_aggregate_by_id (user.id) >>= λ found.
          lift (ok_or found (internal_error (text "created user not found"))) >>= λ agg.
          lift (ok (agg, true))

  unfoldable pub created_first : Bool → Uuid → List Event → List Event
  created_first false user_id events = events
  created_first true user_id events =
      Events.user_created
        (record { user_id = user_id; provider = AuthProvider.google; occurred_at = draws.now })
      ∷ events

  -- The first argument is `verify_id_token` of the provider.
  unfoldable pub login_with_google :
      (Text → Result GoogleUserInfo AuthError) → Text → Query LoginWithGoogleResult
  login_with_google verify_id_token id_token = lift (verify_id_token id_token) >>= λ user_info.
      find_aggregate_by_email (user_info.email) >>= λ existing.
      user_for user_info existing >>= λ (aggregate, is_new_user).
      create_session_tokens (draws.first_task) AuthMethod.google_oauth aggregate >>= λ made. lift (
        ok (record {
          user = made.user;
          session_id = made.session_id;
          access_token = made.access_token;
          refresh_token = made.refresh_token;
          is_new_user = is_new_user;
          events = created_first is_new_user (made.user.id) (made.events);
        }))

  -- `token_matches`
  unfoldable pub compare_token : Text → Option Session → Query Bool
  compare_token token none = lift (ok false)
  compare_token token (some session) =
      lift
        (run_bounded (draws.second_task) (crypto.verify token (session.refresh_token_hash.as_str)))
      >>= λ result. lift (ok (or_false result))

  -- The `match` on the rotation: reuse ends every session of the user, in the tables too.
  unfoldable pub on_rotation :
      UserAggregate
      → Result (NewSession × UserAggregate) AuthError
      → Query (NewSession × UserAggregate)
  on_rotation aggregate (ok rotated) = lift (ok rotated)
  on_rotation aggregate (err session_invalidated) =
      save_aggregate (draws.now) (invalidate_all_active_sessions (draws.now) aggregate) [] >>= λ _.
      lift (err session_invalidated)
  on_rotation aggregate (err e) = lift (err e)

  unfoldable pub refresh_token : Text → Query RefreshResult
  refresh_token token = lift (validate_refresh_token crypto jwt timestamp token) >>= λ claims.
      find_aggregate_by_id (claims.sub) >>= λ found. lift (ok_or found user_not_found) >>= λ loaded.
      lift (generate_token_pair crypto jwt timestamp (draws.jti) (claims.sub) (draws.session_id))
      >>= λ token_pair.
          hash_refresh_token (draws.first_task) (token_pair.refresh_token) >>= λ refresh_hash.
          compare_token token (find_session (claims.session_id) (loaded.sessions))
          >>= λ token_matches.
              on_rotation loaded (
                rotate_session (draws.now) loaded (claims.session_id) token_matches
                  (draws.session_id) refresh_hash expires_at)
              >>= λ (new_session, aggregate).
                  save_aggregate (draws.now) aggregate (new_session ∷ []) >>= λ _. lift (
                    ok (record {
                      user_id = claims.sub;
                      session_id = draws.session_id;
                      access_token = token_pair.access_token;
                      refresh_token = token_pair.refresh_token;
                      auth_method = method_of ((take_events aggregate).0);
                      events = (take_events aggregate).0;
                    }))

unfoldable pub logout : ℕ → Uuid → Uuid → Query (List Event)
logout now user_id session_id = find_aggregate_by_id user_id >>= λ found.
    lift (ok_or found user_not_found) >>= λ loaded.
    lift (invalidate_session now loaded session_id) >>= λ (_, aggregate).
    save_aggregate now aggregate [] >>= λ _. lift (ok (take_events aggregate).0)

unfoldable pub record_audit_entry :
    ℕ → Uuid → Uuid → Option Uuid → EventType → AuthMethod → Query UserAction
record_audit_entry now id user_id session_id event_type auth_method =
    create_user_action now id (record {
      user_id = user_id;
      session_id = session_id;
      event_type = event_type;
      auth_method = auth_method;
    })
