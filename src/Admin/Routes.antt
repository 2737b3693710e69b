-- ===== src/Admin/Routes.antt =====
-- crates/admin/src/adapters/inbound/admin_routes.rs. A response shows ids and times as text; here
-- they stay numbers.
pub mod Guarding
pub mod Paging
use app_home_services.Base.{
  ℕ, zero, suc, Bool, true, false, Option, none, some, List, map, Uuid, min, max,
}
use app_home_services.Base.Text.{Text, text}
use app_home_services.Base.Outcome.{Result, ok, err}
use app_home_services.Admin.Role.{
  as_str, AdminError, not_found, unauthorized, cannot_change_own_role, invalid_value,
  internal_error,
}
use app_home_services.Admin.Store.{UserSummary, AdminDb}
use app_home_services.Admin.Repo.{
  AdminUser, ListUsersResult, is_admin, list_users, get_user, update_user_role,
}

pub record UserResponse : Type 0 where
  pub summary : UserSummary
  pub role : Text

pub data Body : Type 0 where
  one : UserResponse → Body
  page_of : List UserResponse → ℕ → ℕ → ℕ → Body
  error : Text → Body

pub record Response : Type 0 where
  pub status : ℕ
  pub body : Body

abbrev pub user_to_response : AdminUser → UserResponse
user_to_response u = record { summary = u.summary; role = as_str u.role }

abbrev pub respond : ℕ → Text → Response
respond status message = record { status = status; body = error message }

abbrev pub forbidden : Response
forbidden = respond 403 (text "Forbidden: admin access required")

abbrev pub internal_server_error : Response
internal_server_error = respond 500 (text "Internal server error")

-- `DEFAULT_PAGE_SIZE` and `MAX_PAGE_SIZE` of use_cases/list_users.rs
abbrev pub default_page_size : ℕ
default_page_size = 100

abbrev pub max_page_size : ℕ
max_page_size = 500

abbrev pub unwrap_or : Option ℕ → ℕ → ℕ
unwrap_or none d = d
unwrap_or (some n) d = n

unfoldable pub normalize_per_page : Option ℕ → ℕ
normalize_per_page raw = min (max (unwrap_or raw default_page_size) 1) max_page_size

abbrev pub page_or_err : ℕ → Option ℕ
page_or_err zero = none
page_or_err (suc p) = some (suc p)

unfoldable pub normalize_page : Option ℕ → Option ℕ
normalize_page raw = page_or_err (unwrap_or raw 1)

-- The `match` on `is_admin` that every handler starts with.
abbrev pub guarded :
    Result Bool AdminError × AdminDb → (AdminDb → Response × AdminDb) → Response × AdminDb
guarded (ok true, db) handle = handle db
guarded (ok false, db) handle = (forbidden, db)
guarded (err _, db) handle = (internal_server_error, db)

abbrev pub answer_page : ℕ → ℕ → Result ListUsersResult AdminError × AdminDb → Response × AdminDb
answer_page page per_page (ok found, db) = (
  record {
    status = 200;
    body = page_of (map user_to_response found.users) page per_page found.total;
  },
  db,
)
answer_page page per_page (err _, db) = (internal_server_error, db)

abbrev pub list_page : Option ℕ → ℕ → AdminDb → Response × AdminDb
list_page none per_page db = (respond 400 (text "page must be >= 1"), db)
list_page (some page) per_page db = answer_page page per_page (list_users page per_page db)

unfoldable pub list_users_handler : Uuid → Option ℕ → Option ℕ → AdminDb → Response × AdminDb
list_users_handler actor page per_page db =
    guarded (is_admin actor db) (list_page (normalize_page page) (normalize_per_page per_page))

abbrev pub answer_user : Result AdminUser AdminError × AdminDb → Response × AdminDb
answer_user (ok user, db) = (record { status = 200; body = one (user_to_response user) }, db)
answer_user (err (not_found _), db) = (respond 404 (text "User not found"), db)
answer_user (err unauthorized, db) = (internal_server_error, db)
answer_user (err cannot_change_own_role, db) = (internal_server_error, db)
answer_user (err (invalid_value _), db) = (internal_server_error, db)
answer_user (err (internal_error _), db) = (internal_server_error, db)

unfoldable pub get_user_handler : Uuid → Uuid → AdminDb → Response × AdminDb
get_user_handler actor user_id db =
    guarded (is_admin actor db) (λ db'. answer_user (get_user user_id db'))

abbrev pub answer_update : Result AdminUser AdminError × AdminDb → Response × AdminDb
answer_update (ok user, db) = (record { status = 200; body = one (user_to_response user) }, db)
answer_update (err (not_found _), db) = (respond 404 (text "User not found"), db)
answer_update (err cannot_change_own_role, db) =
    (respond 403 (text "Cannot change your own role"), db)
answer_update (err (invalid_value message), db) = (respond 400 message, db)
answer_update (err unauthorized, db) = (internal_server_error, db)
answer_update (err (internal_error _), db) = (internal_server_error, db)

unfoldable pub update_user_role_handler : Uuid → Uuid → Text → AdminDb → Response × AdminDb
update_user_role_handler actor user_id new_role db =
    guarded (is_admin actor db) (λ db'. answer_update (update_user_role actor user_id new_role db'))
