-- ===== src/Auth/Audit.antt =====
-- `AuditEventHandler` (crates/auth/src/adapters/audit_event_handler.rs): which events become rows of
-- `user_actions`. A failed insert is logged and the event is gone.
use app_home_services.Base.{
  timestamptz, ℕ, ◌≡◌, refl, Option, none, some, List, [], ◌∷◌, ◌++◌, Uuid,
}
use app_home_services.Base.Text.{Text}
use app_home_services.Auth.Store.{UserActionRow}
use app_home_services.Values.AuthMethod
use app_home_services.Values.AuthMethod.{AuthMethod}
use app_home_services.Values.EventType
use app_home_services.Values.EventType.{EventType, login, logout, refresh}
use app_home_services.Values.Events.{
  Event, user_logged_in, user_logged_out, session_refreshed, user_created, SessionEvent,
  aggregate_id, session_id, auth_method,
}

-- The rows, and the insert's own error, if it fails.
abbrev pub unless_failed : Option Text → UserActionRow → List UserActionRow → List UserActionRow
unless_failed none row rows = rows ++ (row ∷ [])
unless_failed (some _) row rows = rows

unfoldable pub insert_action :
    Uuid
    → ℕ
    → Option Text
    → Uuid
    → Option Uuid
    → EventType
    → AuthMethod
    → List UserActionRow
    → List UserActionRow
insert_action id now fault user_id session_id event_type auth_method = unless_failed fault (record {
  id = id;
  user_id = user_id;
  session_id = session_id;
  event_type = EventType.as_str event_type;
  auth_method = AuthMethod.as_str auth_method;
  created_at = timestamptz now;
})

abbrev insert_event :
    Uuid → ℕ → Option Text → SessionEvent → EventType → List UserActionRow → List UserActionRow
insert_event id now fault e event_type =
    insert_action id now fault e.user_id (some e.session_id) event_type e.method

unfoldable pub handle : Uuid → ℕ → Option Text → Event → List UserActionRow → List UserActionRow
handle id now fault (user_logged_in e) rows = insert_event id now fault e login rows
handle id now fault (user_logged_out e) rows = insert_event id now fault e logout rows
handle id now fault (session_refreshed e) rows = insert_event id now fault e refresh rows
handle id now fault (user_created _) rows = rows

-- What a row says of its event.
IsOf : Event → UserActionRow → Type 0
IsOf event row =
    (row.user_id ≡ aggregate_id event)
    × (row.session_id ≡ session_id event)
    × ((method : AuthMethod) × (auth_method event ≡ some method)
        × (row.auth_method ≡ AuthMethod.as_str method))

-- An event with a session, unless_failed without a fault, adds one row at the end, with the user, the
-- session and the method of the event.
handle_recorded :
    (id : Uuid) (now : ℕ) (event : Event) (s : Uuid) (rows : List UserActionRow)
    → session_id event ≡ some s
    → (row : UserActionRow) × IsOf event row × (handle id now none event rows ≡ rows ++ (row ∷ []))
unfolding handle insert_action IsOf aggregate_id session_id auth_method
handle_recorded id now (user_logged_in e) s rows h = (_, (refl, refl, (e.method, refl, refl)), refl)
handle_recorded id now (user_logged_out e) s rows h =
    (_, (refl, refl, (e.method, refl, refl)), refl)
handle_recorded id now (session_refreshed e) s rows h =
    (_, (refl, refl, (e.method, refl, refl)), refl)
handle_recorded id now (user_created _) s rows h = cc
