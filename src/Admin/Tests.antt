-- ===== src/Admin/Tests.antt =====
-- The administration on two users, and its theorems at concrete inputs.
use mathlib.Core.List.{Perm}
use app_home_services.Admin.Directory.Order.{IsNewestFirst}
use app_home_services.Base.{List, take}
use app_home_services.Base.{ℕ, ◌≡◌, ◌⊎◌, refl, none, some, [], ◌∷◌, Uuid, nat_eq, arith}
use app_home_services.Base.Text.{text}
use app_home_services.Base.HashMap.{get}
use app_home_services.Admin.Role.{admin, try_from}
use app_home_services.Admin.Store.{UserSummary, AdminDb, select, execute}
use app_home_services.Admin.Directory.{get_user_summary}
use app_home_services.Admin.Repo.{role_for, is_admin, get_user, update_role, update_user_role}
use app_home_services.Admin.Routes.{update_user_role_handler}
use app_home_services.Admin.Frames.{IsSame}
use app_home_services.Admin.Routes.Guarding.{Changes, update_user_role_handler-Changes}
use app_home_services.Admin.Routes.Paging.{pages, pages-take}

abbrev person : Uuid → ℕ → UserSummary
person id created_at = record {
  id = id;
  username = none;
  email = text "a@b.c";
  display_name = text "A";
  auth_provider = text "local";
  created_at = created_at;
  updated_at = created_at;
}

abbrev two_users : AdminDb
two_users = record {
  users = person 1 10 ∷ person 2 20 ∷ [];
  user_roles = (1, text "admin") ∷ [];
  faults = [];
  violation = text "violates a constraint";
}

promoted-run :
    let r = update_user_role_handler 1 2 (text "admin") two_users in
    (r.0.status ≡ 200) × (get 2 r.1.user_roles ≡ some (text "admin"))
unfolding update_user_role_handler is_admin get_user_summary role_for get_user update_role
    update_user_role select execute try_from
promoted-run = (refl, refl)

own_role-run : (update_user_role_handler 1 1 (text "user") two_users).0.status ≡ 403
unfolding update_user_role_handler is_admin get_user_summary role_for update_user_role select
    try_from
own_role-run = refl

no_admin-run : (update_user_role_handler 2 1 (text "user") two_users).0.status ≡ 403
unfolding update_user_role_handler is_admin get_user_summary role_for select
no_admin-run = refl

update_user_role_handler-Changes_example :
    let after = (update_user_role_handler 1 2 (text "admin") two_users).1 in
    IsSame two_users after
    ⊎ ((get 1 two_users.user_roles ≡ some (text "admin"))
        × Changes 1 2 (text "admin") two_users after)
update_user_role_handler-Changes_example =
    update_user_role_handler-Changes 1 2 (text "admin") two_users

pages-take_example :
    (ordered : List UserSummary) × Perm ordered two_users.users
    × IsNewestFirst ordered
    × (pages 2 1 two_users ≡ take 2 ordered)
pages-take_example = pages-take 2 1 two_users refl ((admin, refl), tt) (omega arith)
