-- ===== src/Admin/Frames.antt =====
-- What the statements of the administration leave as it is, and what their answers say.
use app_home_services.Base.{
  ◌≡◌, inl, inr, refl, sym, ap, ◌∙◌, true, Option, none, some, Uuid, nat_eq, arith, Option-cases,
}
use app_home_services.Base.Text.{Text, text}
use app_home_services.Base.HashMap.{get}
use app_home_services.Base.Outcome.{Result, ok, err, ok_or, map_err_ok}
use app_home_services.Base.Fallible.{lift, proceed, ◌>>=◌}
use app_home_services.Admin.Role
use app_home_services.Admin.Role.{Role, admin, as_str, is_admin_role, as_str-try_from, AdminError}
use app_home_services.Admin.Store.{AdminDb, Query, select, next_fault}
use app_home_services.Admin.Directory.{get_user_summary}
use app_home_services.Admin.Repo.{role_of_row, role_for, get_user, is_admin}

-- Two states with the same users and the same roles.
pub record IsSame (db db' : AdminDb) : Type 0 where
  pub users : db'.users ≡ db.users
  pub roles : db'.user_roles ≡ db.user_roles

pub IsSame-trans : {a b c : AdminDb} → IsSame a b → IsSame b c → IsSame a c
IsSame-trans s t = record { users = t.users ∙ s.users; roles = t.roles ∙ s.roles }

pub record IsReadOnly {A : Type 0} (m : Query A) : Type 0 where
  pub same : (db : AdminDb) → IsSame db (m db).1

pub lift-IsReadOnly : {A : Type 0} (r : Result A AdminError) → IsReadOnly (lift r)
lift-IsReadOnly r = record { same = λ db. record { users = refl; roles = refl } }

pub select-IsReadOnly : {A : Type 0} (read : AdminDb → A) → IsReadOnly (select read)
unfolding select
select-IsReadOnly read = record {
  same = λ db. elim (Option-cases (next_fault db.faults)) [
    | inl fine ↦ rw (fine, select) record { users = refl; roles = refl }
    | inr (e, bad) ↦ rw (bad, select) record { users = refl; roles = refl }
  ];
}

pub proceed-IsSame :
    {A B : Type 0} (k : A → Query B) (db : AdminDb) (r : Result A AdminError × AdminDb)
    → IsSame db r.1
    → ((a : A) → IsReadOnly (k a))
    → IsSame db (proceed k r).1
proceed-IsSame k db (ok a, db') s h = IsSame-trans s ((h a).same db')
proceed-IsSame k db (err e, db') s h = s

pub bind-IsReadOnly :
    {A B : Type 0} (m : Query A) (k : A → Query B)
    → IsReadOnly m
    → ((a : A) → IsReadOnly (k a))
    → IsReadOnly (m >>= k)
bind-IsReadOnly m k h g = record { same = λ db. proceed-IsSame k db (m db) (h.same db) g }

pub role_for-IsReadOnly : (user_id : Uuid) → IsReadOnly (role_for user_id)
unfolding role_for
role_for-IsReadOnly user_id =
    bind-IsReadOnly _ _ (select-IsReadOnly _) (λ o. lift-IsReadOnly (role_of_row o))

pub get_user_summary-IsReadOnly : (user_id : Uuid) → IsReadOnly (get_user_summary user_id)
unfolding get_user_summary
get_user_summary-IsReadOnly user_id = select-IsReadOnly _

pub get_user-IsReadOnly : (user_id : Uuid) → IsReadOnly (get_user user_id)
unfolding get_user get_user_summary
get_user-IsReadOnly user_id = bind-IsReadOnly _ _ (select-IsReadOnly _) λ found.
    bind-IsReadOnly _ _ (lift-IsReadOnly _)
      λ summary. bind-IsReadOnly _ _ (role_for-IsReadOnly user_id) λ role. lift-IsReadOnly _

pub is_admin-IsReadOnly : (user_id : Uuid) → IsReadOnly (is_admin user_id)
unfolding is_admin get_user_summary
is_admin-IsReadOnly user_id = bind-IsReadOnly _ _ (select-IsReadOnly _) λ found.
    bind-IsReadOnly _ _ (lift-IsReadOnly _)
      λ summary. bind-IsReadOnly _ _ (role_for-IsReadOnly user_id) λ role. lift-IsReadOnly _

-- A statement that answers, answers what the tables say.
pub select_ok :
    {A : Type 0} (read : AdminDb → A) (db : AdminDb) (a : A) (db' : AdminDb)
    → select read db ≡ (ok a, db')
    → read db ≡ a
unfolding select
select_ok read db a db' h = elim (Option-cases (next_fault db.faults)) [
  | inl fine ↦ ground (arith, fine)
  | inr (e, bad) ↦ absurd (ground (arith, bad))
]

pub proceed_ok :
    {A B : Type 0} (k : A → Query B) (r : Result A AdminError × AdminDb) (b : B) (db'' : AdminDb)
    → proceed k r ≡ (ok b, db'')
    → (a : A) × (db' : AdminDb) × (r ≡ (ok a, db')) × (k a db' ≡ (ok b, db''))
proceed_ok k (ok a, db') b db'' h = (a, db', refl, h)
proceed_ok k (err e, db') b db'' h = cc

pub role_of_row_admin :
    (o : Option Text) (r : Role)
    → role_of_row o ≡ ok r
    → is_admin_role r ≡ true
    → o ≡ some (text "admin")
role_of_row_admin none r h e = let same : Role.user ≡ r = cc in absurd (ground (arith, same, e))
role_of_row_admin (some s) Role.user h e = cc
role_of_row_admin (some s) admin h e =
    ap some (sym (as_str-try_from s admin (map_err_ok Role.internal_error (Role.try_from s) h)))

pub role_for_ok :
    (user_id : Uuid) (db db' : AdminDb) (r : Role)
    → role_for user_id db ≡ (ok r, db')
    → role_of_row (get user_id db.user_roles) ≡ ok r
unfolding role_for
role_for_ok user_id db db' r h =
    let (o, db₁, read, rest) = proceed_ok _ (select (λ d. get user_id d.user_roles) db) r db' h in
    let e = select_ok (λ d. get user_id d.user_roles) db o db₁ read in rw e (ap (λ p. p.0) rest)

-- The guard lets an admin through, by the table of roles.
pub is_admin-true :
    (actor : Uuid) (db db' : AdminDb)
    → is_admin actor db ≡ (ok true, db')
    → get actor db.user_roles ≡ some (text "admin")
unfolding is_admin
is_admin-true actor db db' h =
    let (found, db₁, read, h₁) = proceed_ok _ (get_user_summary actor db) true db' h in
    let (s, db₂, there, h₂) =
      proceed_ok _ (lift (ok_or found (Role.not_found actor)) db₁) true db' h₁ in
    let (r, db₃, role, h₃) = proceed_ok _ (role_for actor db₂) true db' h₂ in
    let same : db₂.user_roles ≡ db.user_roles =
      ap (λ d. d.user_roles) (sym (ap (λ p. p.1) read ∙ ap (λ p. p.1) there))
      ∙ ((get_user_summary-IsReadOnly actor).same db).roles in
    ap (λ roles. get actor roles) (sym same)
    ∙ role_of_row_admin _ r (role_for_ok actor db₂ db₃ r role) (ground (arith, h₃))
