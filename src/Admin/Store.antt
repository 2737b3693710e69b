-- ===== src/Admin/Store.antt =====
-- What the administration asks of Postgres: the users, read only, their roles (the table `user_roles`
-- of migrations/008_create_admin_user_roles.sql), and a list that says which of the next statements fail and
-- with what text; past its end they are executed.
-- The column updated_at of `user_roles`, which no query reads, is left out.
use app_home_services.Base.{ℕ, Option, none, some, List, [], ◌∷◌, Uuid}
use app_home_services.Base.Text.{Text}
use app_home_services.Base.HashMap.{HashMap}
use app_home_services.Base.Outcome.{Result, ok, err}
use app_home_services.Base.Fallible.{Fallible}
use app_home_services.Admin.Role.{AdminError, internal_error}

-- `UserSummary` of crates/shared/src/user_directory.rs, and a row of `users` without the password.
pub record UserSummary : Type 0 where
  pub id : Uuid
  pub username : Option Text
  pub email : Text
  pub display_name : Text
  pub auth_provider : Text
  pub created_at : ℕ
  pub updated_at : ℕ

pub record AdminDb : Type 0 where
  pub users : List UserSummary
  pub user_roles : HashMap Uuid Text
  pub faults : List (Option Text)
  pub violation : Text

abbrev pub Query : Type 0 → Type 0
Query A = Fallible AdminDb AdminError A

abbrev pub next_fault : List (Option Text) → Option Text
next_fault [] = none
next_fault (f ∷ _) = f

abbrev pub later_faults : List (Option Text) → List (Option Text)
later_faults [] = []
later_faults (_ ∷ rest) = rest

abbrev pub spent : AdminDb → AdminDb
spent db = record {
  users = db.users;
  user_roles = db.user_roles;
  faults = later_faults db.faults;
  violation = db.violation;
}

-- A statement that reads.
unfoldable pub select : {A : Type 0} → (AdminDb → A) → Query A
select read db = elim (next_fault db.faults) [
  | some e ↦ (err (internal_error e), spent db)
  | none ↦ (ok (read db), spent db)
]

abbrev pub written : Option (HashMap Uuid Text) → AdminDb → Result (Unit {0}) AdminError × AdminDb
written none db = (err (internal_error db.violation), spent db)
written (some roles) db = (
  ok tt,
  record {
    users = db.users;
    user_roles = roles;
    faults = later_faults db.faults;
    violation = db.violation;
  },
)

-- A statement that writes roles, unless it breaks a constraint.
unfoldable pub execute : (AdminDb → Option (HashMap Uuid Text)) → Query (Unit {0})
execute write db = elim (next_fault db.faults) [
  | some e ↦ (err (internal_error e), spent db)
  | none ↦ written (write db) db
]
