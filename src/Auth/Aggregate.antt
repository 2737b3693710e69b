-- ===== src/Auth/Aggregate.antt =====
-- crates/auth/src/domain/aggregate.rs: a user with the sessions that were loaded, and the events
-- that wait to be published. `&mut self` is an aggregate in and an aggregate out; each operation
-- takes the time that its reads of the clock give.
pub mod Rotation
pub mod Logout
use app_home_services.Base.{
  ℕ, ◌≡◌, Bool, true, false, not, ◌&&◌, Option, none, some, List, [], ◌∷◌, ◌++◌, length, filter_by,
  find_by, if◌then◌else◌, leb, nat_beq, Uuid,
}
use app_home_services.Base.Text.{text}
use app_home_services.Base.Outcome.{Result, ok, err, ok_or, fail_if, ◌>>=◌, ◌>>◌}
use app_home_services.Values.AuthMethod.{AuthMethod}
use app_home_services.Values.HashedPassword.{HashedPassword}
use app_home_services.Values.Events.{Event, user_logged_in, user_logged_out, session_refreshed}
use app_home_services.Auth.Entities.{
  AuthError, session_not_found, session_invalidated, session_expired, invalid_refresh_token,
  internal_error, Session, NewSession, User, is_expired, invalidate,
}

abbrev pub max_active_sessions : ℕ
max_active_sessions = 25

pub record UserAggregate : Type 0 where
  pub user : User
  pub sessions : List Session
  pub pending_events : List Event

-- `UserAggregate::new`
unfoldable pub new : User → List Session → UserAggregate
new user sessions = record { user = user; sessions = sessions; pending_events = [] }

-- The sessions that count against the maximum.
unfoldable pub is_current : ℕ → Session → Bool
is_current now s = s.is_active && not (is_expired now s)

-- `pending_events.push`
unfoldable pub push_event : UserAggregate → Event → UserAggregate
push_event self e = record {
  user = self.user;
  sessions = self.sessions;
  pending_events = self.pending_events ++ e ∷ [];
}

unfoldable pub add_session :
    ℕ
    → UserAggregate
    → Uuid
    → HashedPassword
    → ℕ
    → AuthMethod
    → Result (NewSession × UserAggregate) AuthError
add_session now self session_id refresh_token_hash expires_at auth_method =
    fail_if (leb max_active_sessions (length (filter_by (is_current now) (self.sessions))))
      (internal_error (text "maximum active sessions reached"))
    >> ok (
      record {
        id = session_id;
        user_id = self.user.id;
        refresh_token_hash = refresh_token_hash;
        expires_at = expires_at;
        auth_method = auth_method;
      },
      push_event self (
          user_logged_in (record {
            user_id = self.user.id;
            session_id = session_id;
            method = auth_method;
            occurred_at = now;
          })),
    )

-- `iter().find(|s| s.id() == session_id)`
unfoldable pub find_session : Uuid → List Session → Option Session
find_session session_id = find_by (λ s. nat_beq (s.id) session_id)

-- `session.invalidate()` through the borrow of the first session with the id.
unfoldable pub invalidate_first : Uuid → List Session → List Session
invalidate_first session_id [] = []
invalidate_first session_id (s ∷ rest) =
    if nat_beq (s.id) session_id then invalidate s ∷ rest else s ∷ invalidate_first session_id rest

unfoldable pub with_sessions : UserAggregate → List Session → UserAggregate
with_sessions self sessions = record {
  user = self.user;
  sessions = sessions;
  pending_events = self.pending_events;
}

unfoldable pub invalidate_session :
    ℕ → UserAggregate → Uuid → Result (AuthMethod × UserAggregate) AuthError
invalidate_session now self session_id =
    ok_or (find_session session_id (self.sessions)) session_not_found >>= λ session.
    fail_if (not (nat_beq (session.user_id) (self.user.id))) session_not_found
    >> fail_if (not (session.is_active)) session_invalidated
    >> fail_if (is_expired now session) session_expired
    >> ok (
      session.auth_method,
      push_event (with_sessions self (invalidate_first session_id (self.sessions))) (
          user_logged_out (record {
            user_id = self.user.id;
            session_id = session_id;
            method = session.auth_method;
            occurred_at = now;
          })),
    )

unfoldable pub rotate_session :
    ℕ
    → UserAggregate
    → Uuid
    → Bool
    → Uuid
    → HashedPassword
    → ℕ
    → Result (NewSession × UserAggregate) AuthError
rotate_session now self session_id token_matches new_session_id new_refresh_hash expires_at =
    ok_or (find_session session_id (self.sessions)) session_not_found >>= λ session.
    fail_if (not (session.is_active)) session_invalidated
    >> fail_if (is_expired now session) session_expired
    >> fail_if (not token_matches) invalid_refresh_token
    >> ok (
      record {
        id = new_session_id;
        user_id = self.user.id;
        refresh_token_hash = new_refresh_hash;
        expires_at = expires_at;
        auth_method = session.auth_method;
      },
      push_event (with_sessions self (invalidate_first session_id (self.sessions))) (
          session_refreshed (record {
            user_id = self.user.id;
            session_id = new_session_id;
            method = session.auth_method;
            occurred_at = now;
          })),
    )

-- The body of the loop.
unfoldable pub end_session : ℕ → UserAggregate → Session → List Event → Session × List Event
end_session now self s events =
    if s.is_active
    then (
      invalidate s,
      events
          ++ user_logged_out (record {
            user_id = self.user.id;
            session_id = s.id;
            method = s.auth_method;
            occurred_at = now;
          })
            ∷ [],
    )
    else (s, events)

-- The loop, over the sessions that are left.
unfoldable pub end_sessions :
    ℕ → UserAggregate → List Session → List Event → List Session × List Event
end_sessions now self [] events = ([], events)
end_sessions now self (s ∷ rest) events =
    let (ended, logged) = end_session now self s events in
    let (others, all) = end_sessions now self rest logged in (ended ∷ others, all)

unfoldable pub invalidate_all_active_sessions : ℕ → UserAggregate → UserAggregate
invalidate_all_active_sessions now self =
    let (sessions, events) = end_sessions now self (self.sessions) (self.pending_events) in
    record { user = self.user; sessions = sessions; pending_events = events }

-- The events, and the aggregate with none.
unfoldable pub take_events : UserAggregate → List Event × UserAggregate
take_events self = (
  self.pending_events,
  record { user = self.user; sessions = self.sessions; pending_events = [] },
)
