-- ===== src/Auth/Sample.antt =====
-- A user with two sessions, and a `bcrypt` and a `jsonwebtoken` that stand in.
use app_home_services.Base.{Bool, true, false, none, some, [], ◌∷◌, ◌++◌, Uuid, ◌==◌, nat_eq}
use app_home_services.Base.Text.{text, text_eq}
use app_home_services.Base.Outcome.{ok, err}
use app_home_services.Values.AuthMethod.{AuthMethod}
use app_home_services.Values.AuthProvider
use app_home_services.Auth.Entities.{Session, NewSession, User}
use app_home_services.Auth.Aggregate.{UserAggregate}
use app_home_services.Auth.Store.{UserRow, SessionRow, Db}
use app_home_services.Auth.Tokens.{Crypto, JwtServiceImpl, RefreshTokenClaims}
use app_home_services.Auth.Password.{Cache}
use app_home_services.Auth.UseCases.{Draws, AuthSettings}

abbrev pub claims : RefreshTokenClaims
claims = record { sub = 1; session_id = 7; iss = []; aud = []; exp = 9; iat = 0 }

-- A hash is the password behind its cost, and every refresh token is that of session 7.
abbrev pub crypto : Crypto
crypto = record {
  encode_access = λ _. ok (text "access");
  encode_refresh = λ _. ok (text "refresh");
  decode_access = λ _ _ _ _. err [];
  decode_refresh = λ _ _ _ _. ok claims;
  hash = λ _ password cost. ok (text "$2b$12$" ++ password);
  verify = λ password hash. ok (hash == (text "$2b$12$" ++ password));
}

abbrev pub jwt : JwtServiceImpl
jwt = record { issuer = []; audience = []; access_expiry_minutes = 15; refresh_expiry_days = 7 }

abbrev pub settings : AuthSettings
settings = record { refresh_token_expiry_days = 7; bcrypt_cost = 12 }

abbrev pub cache : Cache
cache = (12, some (text "$2b$12$x")) ∷ (10, some (text "$2b$10$x")) ∷ []

abbrev pub draws : Draws
draws = record {
  now = 5;
  session_id = 9;
  jti = 3;
  user_id = 2;
  salt = 0;
  dummy_salt = 0;
  cache = cache;
  first_task = none;
  second_task = none;
}

abbrev pub ann : UserRow
ann = record {
  id = 1;
  username = some (text "ann");
  email = text "ann@example.com";
  display_name = text "Ann";
  password_hash = some (text "$2b$12$secret");
  auth_provider = text "local";
  created_at = 0;
  updated_at = 0;
}

abbrev pub row : Uuid → Bool → SessionRow
row id is_active = record {
  id = id;
  user_id = 1;
  refresh_token_hash = text "$2b$12$refresh";
  expires_at = 100;
  is_active = is_active;
  created_at = 1;
  auth_method = text "password";
}

abbrev pub db : Db
db = record {
  tables = record { users = ann ∷ []; user_actions = []; sessions = row 7 false ∷ row 8 true ∷ [] };
  faults = [];
  violation = text "duplicate key";
}

abbrev pub session : Uuid → Bool → Session
session id is_active = record {
  id = id;
  user_id = 1;
  refresh_token_hash = record { as_str = text "$2b$12$refresh" };
  expires_at = 100;
  is_active = is_active;
  created_at = 1;
  auth_method = AuthMethod.password;
}

abbrev pub user : User
user = record {
  id = 1;
  username = some (text "ann");
  email = record { as_str = text "ann@example.com" };
  display_name = text "Ann";
  password_hash = some (record { as_str = text "$2b$10$secret" });
  auth_provider = AuthProvider.local;
  created_at = 0;
  updated_at = 0;
}

abbrev pub aggregate : UserAggregate
aggregate = record {
  user = user;
  sessions = session 7 false ∷ session 8 true ∷ [];
  pending_events = [];
}

abbrev pub fresh : NewSession
fresh = record {
  id = 9;
  user_id = 1;
  refresh_token_hash = record { as_str = text "$2b$12$refresh" };
  expires_at = 100;
  auth_method = AuthMethod.google_oauth;
}
