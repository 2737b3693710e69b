-- ===== src/Auth/Store/UserRepo.antt =====
-- crates/auth/src/adapters/postgres_user_repo.rs: `PostgresUserRepo`. The ids and times that the
-- code makes for a row are arguments.
use app_home_services.Base.{
  ℕ, Bool, true, false, not, ◌||◌, Option, none, some, List, [], ◌∷◌, map, find_by, filter_by,
  any_by, if◌then◌else◌, leb, nat_beq, timestamptz, Uuid, ◌==◌,
}
use app_home_services.Base.Text.{Text, text_eq}
use app_home_services.Base.Outcome.{ok}
use app_home_services.Values.AuthMethod
use app_home_services.Values.AuthProvider
use app_home_services.Values.EventType
use app_home_services.Auth.Entities.{NewSession, User, NewUser, UserAction, NewUserAction}
use app_home_services.Auth.Aggregate
use app_home_services.Auth.Aggregate.{UserAggregate}
use app_home_services.Auth.Store.{
  UserRow, UserActionRow, SessionRow, Tables, Query, lift, statement, select, transaction, ◌>>=◌,
  ◌>>◌,
}
use app_home_services.Auth.Store.Rows.{
  transpose, collect, map_option, into_user, into_user_action, into_session,
}

-- `ORDER BY created_at DESC`: a row goes before the rows that are not newer.
abbrev pub insert_by_age : SessionRow → List SessionRow → List SessionRow
insert_by_age r [] = r ∷ []
insert_by_age r (s ∷ rest) =
    if leb (s.created_at) (r.created_at) then r ∷ s ∷ rest else s ∷ insert_by_age r rest

unfoldable pub order_by_newest : List SessionRow → List SessionRow
order_by_newest [] = []
order_by_newest (r ∷ rest) = insert_by_age r (order_by_newest rest)

-- `SELECT … FROM sessions WHERE user_id = $1 ORDER BY created_at DESC`
unfoldable pub rows_of : Uuid → Tables → List SessionRow
rows_of user_id t = order_by_newest (filter_by (λ r. nat_beq (r.user_id) user_id) (t.sessions))

unfoldable pub load_aggregate : User → Query UserAggregate
load_aggregate user = select (rows_of (user.id)) >>= λ rows.
    lift (collect into_session rows) >>= λ sessions. lift (ok (Aggregate.new user sessions))

-- `username = $1`, which `NULL` is not
unfoldable pub has_username : Text → UserRow → Bool
has_username username r = elim (r.username) [ none ↦ false | some n ↦ n == username ]

unfoldable pub find_by_username : Text → Query (Option User)
find_by_username username = select (λ t. find_by (has_username username) (t.users)) >>= λ row.
    lift (transpose (map_option into_user row))

unfoldable pub find_by_email : Text → Query (Option User)
find_by_email email = select (λ t. find_by (λ r. r.email == email) (t.users)) >>= λ row.
    lift (transpose (map_option into_user row))

unfoldable pub find_by_id : Uuid → Query (Option User)
find_by_id id = select (λ t. find_by (λ r. nat_beq (r.id) id) (t.users)) >>= λ row.
    lift (transpose (map_option into_user row))

-- A row that has the id, the username or the address of the new one.
unfoldable pub clashes : UserRow → UserRow → Bool
clashes new r =
    nat_beq (r.id) (new.id)
    || r.email == new.email
    || (elim (new.username) [ none ↦ false | some n ↦ has_username n r ])

-- `INSERT INTO users … RETURNING …`
unfoldable pub insert_user : UserRow → Tables → Option (UserRow × Tables)
insert_user row t =
    if any_by (clashes row) (t.users)
    then none
    else some (
      row,
      record { users = row ∷ t.users; user_actions = t.user_actions; sessions = t.sessions },
    )

unfoldable pub create : ℕ → Uuid → NewUser → Query User
create now id user =
    statement (
      insert_user (record {
        id = id;
        username = user.username;
        email = user.email.as_str;
        display_name = user.display_name;
        password_hash = map_option (λ h. h.as_str) (user.password_hash);
        auth_provider = AuthProvider.as_str (user.auth_provider);
        created_at = timestamptz now;
        updated_at = timestamptz now;
      }))
    >>= λ row. lift (into_user row)

-- `INSERT INTO user_actions … RETURNING …`; the user and the session have to be there.
unfoldable pub insert_user_action : UserActionRow → Tables → Option (UserActionRow × Tables)
insert_user_action row t =
    if any_by (λ r. nat_beq (r.id) (row.id)) (t.user_actions)
      || not (any_by (λ r. nat_beq (r.id) (row.user_id)) (t.users))
      || (elim (row.session_id) [
        | none ↦ false
        | some s ↦ not (any_by (λ r. nat_beq (r.id) s) (t.sessions))
      ])
    then none
    else some (
      row,
      record { users = t.users; user_actions = row ∷ t.user_actions; sessions = t.sessions },
    )

unfoldable pub create_user_action : ℕ → Uuid → NewUserAction → Query UserAction
create_user_action now id action =
    statement (
      insert_user_action (record {
        id = id;
        user_id = action.user_id;
        session_id = action.session_id;
        event_type = EventType.as_str (action.event_type);
        auth_method = AuthMethod.as_str (action.auth_method);
        created_at = timestamptz now;
      }))
    >>= λ row. lift (into_user_action row)

-- `match user_opt`
unfoldable pub with_sessions_of : Option User → Query (Option UserAggregate)
with_sessions_of (some user) = load_aggregate user >>= λ a. lift (ok (some a))
with_sessions_of none = lift (ok none)

unfoldable pub find_aggregate_by_id : Uuid → Query (Option UserAggregate)
find_aggregate_by_id id = find_by_id id >>= with_sessions_of

unfoldable pub find_aggregate_by_username : Text → Query (Option UserAggregate)
find_aggregate_by_username username = find_by_username username >>= with_sessions_of

unfoldable pub find_aggregate_by_email : Text → Query (Option UserAggregate)
find_aggregate_by_email email = find_by_email email >>= with_sessions_of

-- `INSERT INTO sessions …`; the user has to be there.
unfoldable pub insert_row : SessionRow → Tables → Option (Unit {0} × Tables)
insert_row row t =
    if any_by (λ r. nat_beq (r.id) (row.id)) (t.sessions)
      || not (any_by (λ r. nat_beq (r.id) (row.user_id)) (t.users))
    then none
    else some
        (tt, record { users = t.users; user_actions = t.user_actions; sessions = row ∷ t.sessions })

unfoldable pub new_row : ℕ → NewSession → SessionRow
new_row now session = record {
  id = session.id;
  user_id = session.user_id;
  refresh_token_hash = session.refresh_token_hash.as_str;
  expires_at = timestamptz session.expires_at;
  is_active = true;
  created_at = timestamptz now;
  auth_method = AuthMethod.as_str (session.auth_method);
}

unfoldable pub insert_session : ℕ → NewSession → Query (Unit {0})
insert_session now session = statement (insert_row (new_row now session))

-- `is_active = FALSE`
abbrev pub deactivated : SessionRow → SessionRow
deactivated r = record {
  id = r.id;
  user_id = r.user_id;
  refresh_token_hash = r.refresh_token_hash;
  expires_at = r.expires_at;
  is_active = false;
  created_at = r.created_at;
  auth_method = r.auth_method;
}

-- `UPDATE sessions SET is_active = FALSE WHERE …`
unfoldable pub deactivate_where : (SessionRow → Bool) → Tables → Option (Unit {0} × Tables)
deactivate_where p t = some (
  tt,
  record {
    users = t.users;
    user_actions = t.user_actions;
    sessions = map (λ r. if p r then deactivated r else r) (t.sessions);
  },
)

unfoldable pub insert_sessions : ℕ → List NewSession → Query (Unit {0})
insert_sessions now [] = lift (ok tt)
insert_sessions now (s ∷ rest) = insert_session now s >> insert_sessions now rest

unfoldable pub deactivate_ids : List Uuid → Query (Unit {0})
deactivate_ids [] = lift (ok tt)
deactivate_ids (id ∷ rest) =
    statement (deactivate_where (λ r. nat_beq (r.id) id)) >> deactivate_ids rest

-- `begin` and `commit`
unfoldable pub marker : Query (Unit {0})
marker = select (λ _. tt)

unfoldable pub invalidated_ids : UserAggregate → List Uuid
invalidated_ids aggregate =
    map (λ s. s.id) (filter_by (λ s. not (s.is_active)) (aggregate.sessions))

unfoldable pub save_aggregate : ℕ → UserAggregate → List NewSession → Query (Unit {0})
save_aggregate now aggregate new_sessions = transaction (
    marker
    >> insert_sessions now new_sessions
    >> deactivate_ids (invalidated_ids aggregate)
    >> marker)
