-- ===== src/Auth/Store/SessionRepo.antt =====
-- crates/auth/src/adapters/postgres_session_repo.rs: `PostgresSessionRepo`.
use app_home_services.Base.{
  ℕ, Bool, ◌&&◌, Option, none, some, List, find_by, filter_by, ltb, nat_beq, Uuid,
}
use app_home_services.Auth.Entities.{Session, NewSession}
use app_home_services.Auth.Store.{SessionRow, Tables, Query, lift, statement, select, ◌>>=◌}
use app_home_services.Auth.Store.Rows.{transpose, collect, map_option, into_session}
use app_home_services.Auth.Store.UserRepo.{
  insert_row, new_row, deactivate_where, rows_of, order_by_newest,
}

-- `INSERT INTO sessions … RETURNING …`
unfoldable pub insert_returning : SessionRow → Tables → Option (SessionRow × Tables)
insert_returning row t = elim (insert_row row t) [ none ↦ none | some r ↦ some (row, r.1) ]

unfoldable pub create : ℕ → NewSession → Query Session
create now session =
    statement (insert_returning (new_row now session)) >>= λ row. lift (into_session row)

unfoldable pub find_by_id : Uuid → Query (Option Session)
find_by_id id = select (λ t. find_by (λ r. nat_beq (r.id) id) (t.sessions)) >>= λ row.
    lift (transpose (map_option into_session row))

-- `WHERE user_id = $1 AND is_active = TRUE AND expires_at > NOW()`, at the time of Postgres
unfoldable pub is_listed : ℕ → Uuid → SessionRow → Bool
is_listed db_now user_id r = nat_beq (r.user_id) user_id && r.is_active && ltb db_now (r.expires_at)

unfoldable pub find_active_by_user_id : ℕ → Uuid → Query (List Session)
find_active_by_user_id db_now user_id =
    select (λ t. order_by_newest (filter_by (is_listed db_now user_id) (t.sessions))) >>= λ rows.
    lift (collect into_session rows)

unfoldable pub invalidate : Uuid → Query (Unit {0})
invalidate id = statement (deactivate_where (λ r. nat_beq (r.id) id))

unfoldable pub sessions_for_user : Uuid → Query (List Session)
sessions_for_user user_id = select (rows_of user_id) >>= λ rows. lift (collect into_session rows)

unfoldable pub invalidate_all_for_user : Uuid → Query (Unit {0})
invalidate_all_for_user user_id =
    statement (deactivate_where (λ r. nat_beq (r.user_id) user_id && r.is_active))
