-- ===== src/Admin/Repo.antt =====
-- crates/admin/src/adapters/outbound/postgres_admin_repo.rs and the use cases of
-- crates/admin/src/application.
use app_home_services.Base.{
  ℕ, ◌-◌, ◌*◌, Bool, Option, none, some, List, [], ◌∷◌, map, Uuid, nat_beq, nat_eq, if◌then◌else◌,
  any_by,
}
use app_home_services.Base.Text.{Text, text}
use app_home_services.Base.HashMap.{HashMap, get, insert, retain}
use app_home_services.Base.Outcome.{Result, ok, err, ok_or, map_err, fail_if}
use app_home_services.Base.Fallible.{lift, ◌>>=◌}
use app_home_services.Admin.Role
use app_home_services.Admin.Role.{
  Role, user, is_admin_role, as_str, AdminError, not_found, cannot_change_own_role, invalid_value,
  internal_error,
}
use app_home_services.Admin.Store.{UserSummary, AdminDb, Query, select, execute}
use app_home_services.Admin.Directory.{get_user_summary, list_user_summaries, count_users}

pub record AdminUser : Type 0 where
  pub summary : UserSummary
  pub role : Role

pub record ListUsersResult : Type 0 where
  pub users : List AdminUser
  pub total : ℕ

abbrev pub role_of_row : Option Text → Result Role AdminError
role_of_row none = ok user
role_of_row (some s) = map_err internal_error (Role.try_from s)

unfoldable pub role_for : Uuid → Query Role
role_for user_id =
    select (λ db. get user_id db.user_roles) >>= λ role_str. lift (role_of_row role_str)

-- `collect` into a result: the first row that is no role ends it.
abbrev pub parsed_row :
    Uuid
    → Result Role Text
    → Result (HashMap Uuid Role) AdminError
    → Result (HashMap Uuid Role) AdminError
parsed_row user_id (err e) rest = err (internal_error e)
parsed_row user_id (ok role) (err e) = err e
parsed_row user_id (ok role) (ok roles) = ok (insert user_id role roles)

unfoldable pub parse_roles : HashMap Uuid Text → Result (HashMap Uuid Role) AdminError
parse_roles [] = ok []
parse_roles ((user_id, role_str) ∷ rest) =
    parsed_row user_id (Role.try_from role_str) (parse_roles rest)

-- `WHERE user_id = ANY($1)`
abbrev pub assigned : List Uuid → HashMap Uuid Text → HashMap Uuid Text
assigned user_ids = retain λ user_id _. any_by (λ i. nat_beq i user_id) user_ids

unfoldable pub assigned_roles_for : List Uuid → Query (HashMap Uuid Role)
assigned_roles_for [] = lift (ok [])
assigned_roles_for (i ∷ is) =
    select (λ db. assigned (i ∷ is) db.user_roles) >>= λ rows. lift (parse_roles rows)

-- The role that the page shows for a user.
abbrev pub shown_role : HashMap Uuid Role → UserSummary → AdminUser
shown_role roles s = record {
  summary = s;
  role = elim (get s.id roles) [ none ↦ user | some role ↦ role ];
}

-- Both futures of the `join!` run, the first error counts.
abbrev pub paired :
    {A B : Type 0} → Result A AdminError → Result B AdminError → Result (A × B) AdminError
paired (err e) b = err e
paired (ok a) (err e) = err e
paired (ok a) (ok b) = ok (a, b)

unfoldable pub both : {A B : Type 0} → Query A → Query B → Query (A × B)
both m k db = (paired (m db).0 (k (m db).1).0, (k (m db).1).1)

unfoldable pub list_users : ℕ → ℕ → Query ListUsersResult
list_users page per_page =
    both (list_user_summaries per_page ((page - 1) * per_page)) count_users >>= λ found.
    assigned_roles_for (map (λ s. s.id) found.0) >>= λ roles.
    lift (ok (record { users = map (shown_role roles) found.0; total = found.1 }))

unfoldable pub get_user : Uuid → Query AdminUser
get_user user_id = get_user_summary user_id >>= λ found.
    lift (ok_or found (not_found user_id)) >>= λ summary.
    role_for user_id >>= λ role. lift (ok (record { summary = summary; role = role }))

unfoldable pub is_admin : Uuid → Query Bool
is_admin user_id = get_user_summary user_id >>= λ found.
    lift (ok_or found (not_found user_id)) >>= λ _.
    role_for user_id >>= λ role. lift (ok (is_admin_role role))

-- `INSERT … ON CONFLICT (user_id) DO UPDATE`; the user must be there.
abbrev pub upsert_role : Uuid → Role → AdminDb → Option (HashMap Uuid Text)
upsert_role user_id role db =
    if any_by (λ u. nat_beq u.id user_id) db.users
    then some (insert user_id (as_str role) db.user_roles)
    else none

unfoldable pub update_role : Uuid → Role → Query AdminUser
update_role user_id role = execute (upsert_role user_id role) >>= λ _. get_user user_id

unfoldable pub update_user_role : Uuid → Uuid → Text → Query AdminUser
update_user_role actor_id user_id new_role =
    lift (fail_if (nat_beq actor_id user_id) cannot_change_own_role) >>= λ _.
    lift (
      map_err (λ _. invalid_value (text "role must be 'user' or 'admin'")) (Role.try_from new_role))
    >>= λ role. get_user user_id >>= λ _. update_role user_id role
