-- ===== src/Values/Events.antt =====
-- crates/shared/src/domain/events: what the contexts publish. The time of an event is read when it
-- is made, so a constructor takes it.
use app_home_services.Base.{ℕ, Option, none, some, Uuid}
use app_home_services.Base.Text.{Text, text}
use app_home_services.Values.AuthMethod.{AuthMethod}
use app_home_services.Values.AuthProvider.{AuthProvider}

-- `UserLoggedIn`, `UserLoggedOut` and `SessionRefreshed` have the same fields.
pub record SessionEvent : Type 0 where
  pub user_id : Uuid
  pub session_id : Uuid
  pub method : AuthMethod
  pub occurred_at : ℕ

pub record UserCreated : Type 0 where
  pub user_id : Uuid
  pub provider : AuthProvider
  pub occurred_at : ℕ

pub data Event : Type 0 where
  user_logged_in : SessionEvent → Event
  user_logged_out : SessionEvent → Event
  session_refreshed : SessionEvent → Event
  user_created : UserCreated → Event

unfoldable pub event_type : Event → Text
event_type (user_logged_in _) = text "user_logged_in"
event_type (user_logged_out _) = text "user_logged_out"
event_type (session_refreshed _) = text "session_refreshed"
event_type (user_created _) = text "user_created"

unfoldable pub occurred_at : Event → ℕ
occurred_at (user_logged_in e) = e.occurred_at
occurred_at (user_logged_out e) = e.occurred_at
occurred_at (session_refreshed e) = e.occurred_at
occurred_at (user_created e) = e.occurred_at

unfoldable pub aggregate_id : Event → Uuid
aggregate_id (user_logged_in e) = e.user_id
aggregate_id (user_logged_out e) = e.user_id
aggregate_id (session_refreshed e) = e.user_id
aggregate_id (user_created e) = e.user_id

unfoldable pub auth_method : Event → Option AuthMethod
auth_method (user_logged_in e) = some (e.method)
auth_method (user_logged_out e) = some (e.method)
auth_method (session_refreshed e) = some (e.method)
auth_method (user_created _) = none

unfoldable pub session_id : Event → Option Uuid
session_id (user_logged_in e) = some (e.session_id)
session_id (user_logged_out e) = some (e.session_id)
session_id (session_refreshed e) = some (e.session_id)
session_id (user_created _) = none
