-- ===== src/Admin/Routes/Paging.antt =====
-- The pages of the users, one after the other.
use app_home_services.Base.{
  ℕ, zero, suc, ◌+◌, ◌-◌, ◌*◌, ◌^◌, ◌<◌, ◌≡◌, refl, ap, ◌∙◌, subst, Bool, true, none, List, [], ◌∷◌,
  ◌++◌, map, Uuid, ltb, All, nat_eq, length, take, drop, arith, Bool-cases, inl, inr,
}
use mathlib.Core.List.{Perm}
use app_home_services.Base.Text.{Text}
use app_home_services.Base.HashMap.{HashMap, retain, insert}
use app_home_services.Base.Outcome.{Result, ok, err}
use app_home_services.Base.Fallible.{proceed}
use app_home_services.Admin.Role.{Role, as_str, try_from-as_str, AdminError}
use app_home_services.Admin.Store.{UserSummary, AdminDb, Query, select, spent, next_fault}
use app_home_services.Admin.Directory.{newest_first, list_user_summaries, count_users}
use app_home_services.Admin.Directory.Order.{
  IsNewestFirst, newest_first-perm, newest_first-IsNewestFirst,
}
use app_home_services.Admin.Repo.{
  AdminUser, ListUsersResult, parse_roles, assigned, assigned_roles_for, shown_role, both,
  list_users,
}

-- No statement fails.
abbrev pub IsUp : AdminDb → Type 0
IsUp db = db.faults ≡ []

-- The texts in the table are roles, as its CHECK constraint says.
abbrev pub IsRoleRow : Uuid × Text → Type 0
IsRoleRow (_, t) = (r : Role) × (t ≡ as_str r)

spent_up : (db : AdminDb) → IsUp db → spent db ≡ db
spent_up db h = rw h refl

select_up :
    {A : Type 0} (read : AdminDb → A) (db : AdminDb) → IsUp db → select read db ≡ (ok (read db), db)
unfolding select
select_up read db h =
    let fine : next_fault db.faults ≡ none = ap next_fault h in
    rw (fine, select) (ap (λ d. (ok (read db), d)) (spent_up db h))

parse_roles_ok :
    (rows : HashMap Uuid Text)
    → All IsRoleRow rows
    → (roles : HashMap Uuid Role) × (parse_roles rows ≡ ok roles)
unfolding parse_roles
parse_roles_ok [] h = ([], refl)
parse_roles_ok ((i, t) ∷ rest) ((r, e), h) =
    let (roles, done) = parse_roles_ok rest h in
    (insert i r roles, rw (e, try_from-as_str r, done) refl)

All-retain :
    (p : Uuid → Text → Bool) (rows : HashMap Uuid Text)
    → All IsRoleRow rows
    → All IsRoleRow (retain p rows)
All-retain p [] h = tt
All-retain p ((i, t) ∷ rest) (r, h) = elim (Bool-cases (p i t)) [
  | inl kept ↦ rw kept (r, All-retain p rest h)
  | inr gone ↦ rw gone (All-retain p rest h)
]

assigned_roles_for_ok :
    (ids : List Uuid) (db : AdminDb)
    → IsUp db
    → All IsRoleRow db.user_roles
    → (roles : HashMap Uuid Role) × (assigned_roles_for ids db ≡ (ok roles, db))
unfolding assigned_roles_for
assigned_roles_for_ok [] db up rows = ([], refl)
assigned_roles_for_ok (i ∷ is) db up rows =
    let (roles, done) =
      parse_roles_ok (assigned (i ∷ is) db.user_roles) (All-retain _ db.user_roles rows) in
    (roles, rw (select_up (λ d. assigned (i ∷ is) d.user_roles) db up, done) refl)

-- The users that a page shows.
abbrev pub summaries_of : Result ListUsersResult AdminError → List UserSummary
summaries_of (ok found) = map (λ u. u.summary) found.users
summaries_of (err _) = []

map_summary :
    (roles : HashMap Uuid Role) (xs : List UserSummary)
    → map (λ (u : AdminUser). u.summary) (map (shown_role roles) xs) ≡ xs
map_summary roles [] = refl
map_summary roles (x ∷ xs) = ap (λ rest. x ∷ rest) (map_summary roles xs)

list_user_summaries_up :
    (limit offset : ℕ) (db : AdminDb)
    → IsUp db
    → offset < 2 ^ 63
    → list_user_summaries limit offset db
      ≡ (ok (take limit (drop offset (newest_first db.users))), db)
unfolding list_user_summaries
list_user_summaries_up limit offset db up fits =
    let small : ltb offset (2 ^ 63) ≡ true = ground arith in
    rw small (select_up (λ d. take limit (drop offset (newest_first d.users))) db up)

both_up :
    {A B : Type 0} (m : Query A) (k : Query B) (a : A) (b : B) (db : AdminDb)
    → m db ≡ (ok a, db)
    → k db ≡ (ok b, db)
    → both m k db ≡ (ok (a, b), db)
unfolding both
both_up m k a b db e f = rw (e, f) refl

list_users_up :
    (page per_page : ℕ) (db : AdminDb)
    → IsUp db
    → All IsRoleRow db.user_roles
    → (page - 1) * per_page < 2 ^ 63
    → summaries_of (list_users page per_page db).0
      ≡ take per_page (drop ((page - 1) * per_page) (newest_first db.users))
unfolding list_users count_users
list_users_up page per_page db up rows fits =
    let xs = take per_page (drop ((page - 1) * per_page) (newest_first db.users)) in
    let (roles, done) = assigned_roles_for_ok (map (λ s. s.id) xs) db up rows in
    let found =
      both_up (list_user_summaries per_page ((page - 1) * per_page)) count_users xs
        (length db.users) db (list_user_summaries_up per_page ((page - 1) * per_page) db up fits)
        (select_up (λ d. length d.users) db up) in
    ap (λ r. summaries_of r.0) (ap (proceed _) found ∙ ap (proceed _) done) ∙ map_summary roles xs

-- The pages from the first to the last, one after the other.
abbrev pub pages : ℕ → ℕ → AdminDb → List UserSummary
pages zero per_page db = []
pages (suc p) per_page db = pages p per_page db ++ summaries_of (list_users (p + 1) per_page db).0

take_nil : {A : Type 0} (n : ℕ) → take {A = A} n [] ≡ []
take_nil zero = refl
take_nil (suc n) = refl

take-drop :
    {A : Type 0} (m n k : ℕ) (xs : List A) → k ≡ m + n → take m xs ++ take n (drop m xs) ≡ take k xs
take-drop zero n k xs e = let e' : n ≡ k = omega arith in ap (λ j. take j xs) e'
take-drop (suc m) n zero xs e = absurd (omega (arith, e))
take-drop (suc m) n (suc k) [] e = take_nil n
take-drop (suc m) n (suc k) (x ∷ xs) e =
    ap (λ rest. x ∷ rest) (take-drop m n k xs (omega (arith, e)))

pages_lem :
    (p per_page : ℕ) (db : AdminDb)
    → IsUp db
    → All IsRoleRow db.user_roles
    → p * per_page < 2 ^ 63
    → pages p per_page db ≡ take (p * per_page) (newest_first db.users)
pages_lem zero per_page db up rows fits =
    let e : 0 ≡ 0 * per_page = omega arith in ap (λ j. take j (newest_first db.users)) e
pages_lem (suc p) per_page db up rows fits =
    let split_off : suc p * per_page ≡ p * per_page + per_page = omega arith in
    let before : p + 1 - 1 ≡ p = omega arith in
    let small : p * per_page < 2 ^ 63 = omega (arith, fits, split_off) in
    let here = list_users_up (p + 1) per_page db up rows (rw before small) in
    let here' : summaries_of (list_users (p + 1) per_page db).0
        ≡ take per_page (drop (p * per_page) (newest_first db.users)) =
      subst
        (λ q.
          summaries_of (list_users (p + 1) per_page db).0
          ≡ take per_page (drop (q * per_page) (newest_first db.users)))
        before here in
    rw (pages_lem p per_page db up rows small, here')
      (take-drop (p * per_page) per_page (suc p * per_page) (newest_first db.users) split_off)

-- While no statement fails and the table holds roles, the pages of any size, put one after the other,
-- are the first users of a list that holds the users of the table, each as often as the table does,
-- from the newest on: as many as the pages have room for. The last offset fits an i64.
pub pages-take :
    (p per_page : ℕ) (db : AdminDb)
    → IsUp db
    → All IsRoleRow db.user_roles
    → p * per_page < 2 ^ 63
    → (ordered : List UserSummary) × Perm ordered db.users
      × IsNewestFirst ordered
      × (pages p per_page db ≡ take (p * per_page) ordered)
pages-take p per_page db up rows fits = (
  newest_first db.users,
  newest_first-perm db.users,
  newest_first-IsNewestFirst db.users,
  pages_lem p per_page db up rows fits,
)
