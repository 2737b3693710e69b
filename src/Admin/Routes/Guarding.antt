-- ===== src/Admin/Routes/Guarding.antt =====
-- Who changes a role, and when.
use app_home_services.Base.{
  any_by, ◌≡◌, ◌≢◌, ◌⊎◌, inl, inr, refl, subst, ap, ◌∙◌, Bool, true, false, some, Uuid, nat_beq,
  nat_beq_iff, nat_eq, arith, Option-cases, Bool-cases,
}
use app_home_services.Base.Text.{Text, text}
use app_home_services.Base.HashMap.{get, insert}
use app_home_services.Base.Outcome.{Result, ok, err, Result-cases}
use app_home_services.Base.Fallible.{proceed}
use app_home_services.Admin.Role
use app_home_services.Admin.Role.{Role, admin, as_str, is_admin_role, as_str-try_from, AdminError}
use app_home_services.Admin.Store.{AdminDb, Query, execute, next_fault}
use app_home_services.Admin.Repo.{
  AdminUser, get_user, is_admin, upsert_role, update_role, update_user_role,
}
use app_home_services.Admin.Routes.{guarded, answer_update, update_user_role_handler}
use app_home_services.Admin.Frames.{
  IsSame, IsSame-trans, IsReadOnly, get_user-IsReadOnly, is_admin-IsReadOnly, is_admin-true,
}

abbrev pub Changes : Uuid → Uuid → Text → AdminDb → AdminDb → Type 0
Changes actor user_id new_role db db' =
    (actor ≢ user_id)
    × ((role : Role) × (as_str role ≡ new_role))
    × (db'.user_roles ≡ insert user_id new_role db.user_roles)
    × (db'.users ≡ db.users)

-- The role of the user is written, and nothing else.
abbrev Wrote : Uuid → Role → AdminDb → AdminDb → Type 0
Wrote user_id role db db' =
    (db'.user_roles ≡ insert user_id (as_str role) db.user_roles) × (db'.users ≡ db.users)

Wrote-after :
    (user_id : Uuid) (role : Role) (a b c : AdminDb)
    → IsSame a b
    → IsSame b c ⊎ Wrote user_id role b c
    → IsSame a c ⊎ Wrote user_id role a c
Wrote-after user_id role a b c s (inl t) = inl (IsSame-trans s t)
Wrote-after user_id role a b c s (inr (roles, users)) =
    inr (roles ∙ ap (λ r. insert user_id (as_str role) r) s.roles, users ∙ s.users)

Wrote-before :
    (user_id : Uuid) (role : Role) (a b c : AdminDb)
    → Wrote user_id role a b
    → IsSame b c
    → Wrote user_id role a c
Wrote-before user_id role a b c (roles, users) s = (s.roles ∙ roles, s.users ∙ users)

upsert-Wrote :
    (user_id : Uuid) (role : Role) (db : AdminDb)
    → IsSame db (execute (upsert_role user_id role) db).1
      ⊎ Wrote user_id role db (execute (upsert_role user_id role) db).1
unfolding execute
upsert-Wrote user_id role db = elim (Option-cases (next_fault db.faults)) [
  | inr (e, bad) ↦ inl (rw (bad, execute) record { users = refl; roles = refl })
  | inl fine ↦ elim (Bool-cases (any_by (λ u. nat_beq u.id user_id) db.users)) [
    | inl there ↦ inr (rw (fine, execute, there) (refl, refl))
    | inr missing ↦ inl (rw (fine, execute, missing) record { users = refl; roles = refl })
  ]
]

proceed-Wrote :
    {A B : Type 0} (user_id : Uuid) (role : Role) (db : AdminDb) (k : A → Query B)
    (r : Result A AdminError × AdminDb)
    → IsSame db r.1 ⊎ Wrote user_id role db r.1
    → ((a : A) → IsReadOnly (k a))
    → IsSame db (proceed k r).1 ⊎ Wrote user_id role db (proceed k r).1
proceed-Wrote user_id role db k (err e, db') w h = w
proceed-Wrote user_id role db k (ok a, db') (inl s) h = inl (IsSame-trans s ((h a).same db'))
proceed-Wrote user_id role db k (ok a, db') (inr w) h =
    inr (Wrote-before user_id role db db' _ w ((h a).same db'))

update_role-Wrote :
    (user_id : Uuid) (role : Role) (db : AdminDb)
    → IsSame db (update_role user_id role db).1
      ⊎ Wrote user_id role db (update_role user_id role db).1
unfolding update_role
update_role-Wrote user_id role db =
    proceed-Wrote user_id role db (λ _. get_user user_id) (execute (upsert_role user_id role) db)
      (upsert-Wrote user_id role db) (λ _. get_user-IsReadOnly user_id)

-- The state before the last step is as at the start.
proceed_after :
    {A B : Type 0} (user_id : Uuid) (role : Role) (db : AdminDb) (k : Query B)
    (r : Result A AdminError × AdminDb)
    → IsSame db r.1
    → ((d : AdminDb) → IsSame d (k d).1 ⊎ Wrote user_id role d (k d).1)
    → IsSame db (proceed (λ _. k) r).1 ⊎ Wrote user_id role db (proceed (λ _. k) r).1
proceed_after user_id role db k (err e, db') s w = inl s
proceed_after user_id role db k (ok a, db') s w = Wrote-after user_id role db db' _ s (w db')

Wrote-Changes :
    (actor user_id : Uuid) (new_role : Text) (role : Role) (db db' : AdminDb)
    → nat_beq actor user_id ≡ false
    → as_str role ≡ new_role
    → Wrote user_id role db db'
    → Changes actor user_id new_role db db'
Wrote-Changes actor user_id new_role role db db' other e (roles, users) = (
  λ self. ground (arith, nat_beq_iff actor user_id),
  (role, e),
  roles ∙ ap (λ r. insert user_id r db.user_roles) e,
  users,
)

update_user_role-Changes :
    (actor user_id : Uuid) (new_role : Text) (db : AdminDb)
    → IsSame db (update_user_role actor user_id new_role db).1
      ⊎ Changes actor user_id new_role db (update_user_role actor user_id new_role db).1
unfolding update_user_role
update_user_role-Changes actor user_id new_role db = elim (Bool-cases (nat_beq actor user_id)) [
  | inl self ↦ inl (rw (self, update_user_role) record { users = refl; roles = refl })
  | inr other ↦ elim (Result-cases (Role.try_from new_role)) [
    | inr (e, bad) ↦ inl (rw (other, bad, update_user_role) record { users = refl; roles = refl })
    | inl (role, good) ↦
        let done =
          proceed_after user_id role db (update_role user_id role) (get_user user_id db)
            ((get_user-IsReadOnly user_id).same db) (update_role-Wrote user_id role) in
        rw (other, good, update_user_role)
          (elim done [
            | inl same ↦ inl same
            | inr w ↦ inr (
                Wrote-Changes actor user_id new_role role db
                  (proceed (λ _. update_role user_id role) (get_user user_id db)).1 other
                  (as_str-try_from new_role role good) w)
          ])
  ]
]

answer_update_db : (r : Result AdminUser AdminError × AdminDb) → (answer_update r).1 ≡ r.1
answer_update_db (ok u, db) = refl
answer_update_db (err (Role.not_found i), db) = refl
answer_update_db (err Role.cannot_change_own_role, db) = refl
answer_update_db (err (Role.invalid_value m), db) = refl
answer_update_db (err Role.unauthorized, db) = refl
answer_update_db (err (Role.internal_error m), db) = refl

guarded-Changes :
    (actor user_id : Uuid) (new_role : Text) (db : AdminDb) (r : Result Bool AdminError × AdminDb)
    → is_admin actor db ≡ r
    → let after = (guarded r (λ d. answer_update (update_user_role actor user_id new_role d))).1 in
      IsSame db after
      ⊎ ((get actor db.user_roles ≡ some (text "admin")) × Changes actor user_id new_role db after)
guarded-Changes actor user_id new_role db (ok true, d) e =
    let before : IsSame db d =
      subst (IsSame db) (ap (λ p. p.1) e) ((is_admin-IsReadOnly actor).same db) in
    rw (answer_update_db (update_user_role actor user_id new_role d))
      (elim (update_user_role-Changes actor user_id new_role d) [
        | inl same ↦ inl (IsSame-trans before same)
        | inr (other, known, roles, users) ↦ inr (
          is_admin-true actor db d e,
          (
            other,
            known,
            roles ∙ ap (λ r. insert user_id new_role r) before.roles,
            users ∙ before.users,
          ),
        )
      ])
guarded-Changes actor user_id new_role db (ok false, d) e =
    inl (subst (IsSame db) (ap (λ p. p.1) e) ((is_admin-IsReadOnly actor).same db))
guarded-Changes actor user_id new_role db (err x, d) e =
    inl (subst (IsSame db) (ap (λ p. p.1) e) ((is_admin-IsReadOnly actor).same db))

-- Whatever statements fail, the handler leaves users and roles as they were, or the table of roles had
-- the caller as an admin, the user is another one, and the only change is that the user now has the
-- requested role, which is one of the two.
pub update_user_role_handler-Changes :
    (actor user_id : Uuid) (new_role : Text) (db : AdminDb)
    → let after = (update_user_role_handler actor user_id new_role db).1 in
      IsSame db after
      ⊎ ((get actor db.user_roles ≡ some (text "admin")) × Changes actor user_id new_role db after)
unfolding update_user_role_handler
update_user_role_handler-Changes actor user_id new_role db =
    guarded-Changes actor user_id new_role db (is_admin actor db) refl
