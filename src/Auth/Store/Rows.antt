-- ===== src/Auth/Store/Rows.antt =====
-- crates/auth/src/adapters/postgres_user_repo.rs and postgres_session_repo.rs: rows as entities.
use app_home_services.Base.{Option, none, some, List, [], ◌∷◌}
use app_home_services.Base.Outcome.{Result, ok, err, map_err, ◌>>=◌}
use app_home_services.Values.AuthMethod
use app_home_services.Values.AuthProvider
use app_home_services.Values.EventType
use app_home_services.Values.Email
use app_home_services.Values.HashedPassword
use app_home_services.Auth.Entities.{AuthError, internal_error, Session, User, UserAction}
use app_home_services.Auth.Store.{UserRow, UserActionRow, SessionRow}

-- `Option::transpose`
abbrev pub transpose {ℓ κ} : {A : Type ℓ} {E : Type κ} → Option (Result A E) → Result (Option A) E
transpose none = ok none
transpose (some (ok a)) = ok (some a)
transpose (some (err e)) = err e

-- `map(f).collect::<Result<Vec<_>, _>>()`
abbrev pub collect {ℓ κ μ} :
    {A : Type ℓ} {B : Type κ} {E : Type μ} → (A → Result B E) → List A → Result (List B) E
collect f [] = ok []
collect f (x ∷ xs) = f x >>= λ y. collect f xs >>= λ ys. ok (y ∷ ys)

abbrev pub map_option {ℓ κ} : {A : Type ℓ} {B : Type κ} → (A → B) → Option A → Option B
map_option f none = none
map_option f (some a) = some (f a)

unfoldable pub into_user : UserRow → Result User AuthError
into_user self =
    map_err (λ e. internal_error (Email.to_string e)) (Email.new (self.email)) >>= λ email.
    map_err internal_error (AuthProvider.try_from (self.auth_provider)) >>= λ auth_provider.
    map_err internal_error (transpose (map_option HashedPassword.new (self.password_hash)))
    >>= λ password_hash. ok (record {
      id = self.id;
      username = self.username;
      email = email;
      display_name = self.display_name;
      password_hash = password_hash;
      auth_provider = auth_provider;
      created_at = self.created_at;
      updated_at = self.updated_at;
    })

unfoldable pub into_user_action : UserActionRow → Result UserAction AuthError
into_user_action self =
    map_err internal_error (EventType.try_from (self.event_type)) >>= λ event_type.
    map_err internal_error (AuthMethod.try_from (self.auth_method)) >>= λ auth_method. ok (record {
      id = self.id;
      user_id = self.user_id;
      session_id = self.session_id;
      event_type = event_type;
      auth_method = auth_method;
      created_at = self.created_at;
    })

unfoldable pub into_session : SessionRow → Result Session AuthError
into_session self =
    map_err internal_error (HashedPassword.new (self.refresh_token_hash)) >>= λ refresh_token_hash.
    map_err internal_error (AuthMethod.try_from (self.auth_method)) >>= λ auth_method. ok (record {
      id = self.id;
      user_id = self.user_id;
      refresh_token_hash = refresh_token_hash;
      expires_at = self.expires_at;
      is_active = self.is_active;
      created_at = self.created_at;
      auth_method = auth_method;
    })
