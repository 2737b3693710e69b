-- ===== src/Auth/UseCases/Found.antt =====
-- crates/auth/src/adapters/postgres_user_repo.rs: the sessions of the aggregate that is found by id.
use app_home_services.Base.{
  ◌≡◌, refl, sym, ◌∙◌, ap, inl, inr, Option, none, some, find_by_holds, nat_beq_iff, arith, Uuid,
}
use app_home_services.Base.Outcome.{ok, Result-cases}
use app_home_services.Values.Email
use app_home_services.Values.AuthProvider
use app_home_services.Values.HashedPassword
use app_home_services.Auth.Entities.{User}
use app_home_services.Auth.Aggregate.{
  UserAggregate, find_session, rotate_session, invalidate_all_active_sessions,
}
use app_home_services.Auth.Aggregate
use app_home_services.Auth.Store.{Db, UserRow, lift}
use app_home_services.Auth.Store.Rows.{into_user, into_session, collect, transpose, map_option}
use app_home_services.Auth.Store.UserRepo.{
  find_by_id, find_aggregate_by_id, with_sessions_of, load_aggregate, rows_of,
}
use app_home_services.Auth.Store.Frames.{
  bind_ok, select-IsReadOnly, lift-IsReadOnly, bind-IsReadOnly,
}
use app_home_services.Auth.UseCases.Verified.{select_ok, transposed}

loaded_sessions :
    (user : User) (db : Db) (a : UserAggregate)
    → (load_aggregate user db).0 ≡ ok a
    → collect into_session (rows_of (user.id) (db.tables)) ≡ ok (a.sessions)
unfolding load_aggregate lift Aggregate.new
loaded_sessions user db a h =
    let (rows, read, h₁, _) = bind_ok _ _ db h in
    let (sessions, found, h₂, _) = bind_ok _ _ _ h₁ in
    let e : sessions ≡ a.sessions = ground arith in
    ap (collect into_session) (select_ok _ db read) ∙ found ∙ ap ok e

with_loaded :
    (o : Option User) (db : Db) (a : UserAggregate)
    → (with_sessions_of o db).0 ≡ ok (some a)
    → (u : User) × (o ≡ some u)
      × (collect into_session (rows_of (u.id) (db.tables)) ≡ ok (a.sessions))
unfolding with_sessions_of lift
with_loaded none db a h = cc
with_loaded (some u) db a h =
    let (b, e, h₁, _) = bind_ok _ _ db h in
    let same : b ≡ a = ground arith in (u, refl, loaded_sessions u db a (e ∙ ap ok same))

into_user_id : (r : UserRow) (u : User) → into_user r ≡ ok u → u.id ≡ r.id
unfolding into_user
into_user_id r u h = elim (Result-cases (Email.new (r.email))) [
  | inl (email, e) ↦ elim (Result-cases (AuthProvider.try_from (r.auth_provider))) [
    | inl (provider, p) ↦
        elim (Result-cases (transpose (map_option HashedPassword.new (r.password_hash)))) [
          | inl (hash, f) ↦ ground arith
          | inr (x, f) ↦ absurd (ground arith)
        ]
    | inr (x, p) ↦ absurd (ground arith)
  ]
  | inr (x, e) ↦ absurd (ground arith)
]

-- The aggregate that is found has every row of the user.
pub found_sessions :
    (id : Uuid) (db : Db) (a : UserAggregate)
    → (find_aggregate_by_id id db).0 ≡ ok (some a)
    → collect into_session (rows_of id (db.tables)) ≡ ok (a.sessions)
unfolding find_aggregate_by_id find_by_id lift
found_sessions id db a h =
    let (o, found, h₁, _) = bind_ok _ _ db h in
    let (u, some_u, loaded) = with_loaded o _ a h₁ in
    let (row, read, h₂, _) = bind_ok _ _ db found in
    let (r, there, into) = transposed into_user row (h₂ ∙ ap ok some_u) in
    let the_id : u.id ≡ id =
      into_user_id r u into
      ∙ (nat_beq_iff (r.id) id).0
          (find_by_holds _ (db.tables.users) (select_ok _ db read ∙ there)) in
    let kept = (bind-IsReadOnly _ _ (select-IsReadOnly _) (λ row. lift-IsReadOnly _)).keeps db in
    sym (ap (λ x. collect into_session (rows_of x (db.tables))) the_id)
    ∙ sym (ap (λ t. collect into_session (rows_of (u.id) t)) kept)
    ∙ loaded
