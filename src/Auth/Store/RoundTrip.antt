-- ===== src/Auth/Store/RoundTrip.antt =====
-- crates/auth/src/adapters/postgres_user_repo.rs: what is written is read back.
use app_home_services.Base.{ℕ, ◌+◌, ◌≤◌, ◌<◌, timestamptz, timestamptz_near, ◌≡◌, refl, true, false}
use app_home_services.Base.Text.{is_empty}
use app_home_services.Base.Outcome.{ok}
use app_home_services.Values.AuthMethod
use app_home_services.Values.HashedPassword
use app_home_services.Auth.Entities.{NewSession}
use app_home_services.Auth.Store.Rows.{into_session}
use app_home_services.Auth.Store.UserRepo.{new_row}

-- The row that is written for a new session, if its hash is not empty, is read back as an active
-- session with the same fields, its expiry and the time of writing cut down to whole microseconds,
-- which is less than a microsecond off.
pub into_session-new_row :
    (now : ℕ) (n : NewSession)
    → is_empty (n.refresh_token_hash.as_str) ≡ false
    → (into_session (new_row now n)
        ≡ ok (record {
          id = n.id;
          user_id = n.user_id;
          refresh_token_hash = n.refresh_token_hash;
          expires_at = timestamptz (n.expires_at);
          is_active = true;
          created_at = timestamptz now;
          auth_method = n.auth_method;
        }))
      × (timestamptz (n.expires_at) ≤ n.expires_at)
      × (n.expires_at < timestamptz (n.expires_at) + 1000)
unfolding into_session new_row HashedPassword.new
into_session-new_row now n h = (
  rw (h, AuthMethod.try_from-as_str (n.auth_method)) refl,
  (timestamptz_near (n.expires_at)).0,
  (timestamptz_near (n.expires_at)).1,
)
