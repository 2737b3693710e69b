-- ===== src/Auth/UseCases/Verified.antt =====
-- crates/auth/src/application/use_cases/login_with_password.rs: who gets in.
use app_home_services.Base.{
  ℕ, ◌≡◌, refl, sym, ◌∙◌, ap, subst, inl, inr, Bool, true, false, not, Option, none, some, find_by,
  List, ◌↔◌, Option-cases, arith,
}
use app_home_services.Base.Text.{Text}
use app_home_services.Base.Outcome.{Result, ok, Result-cases, ok_or, fail_if}
use app_home_services.Values.HashedPassword.{HashedPassword}
use app_home_services.Values.HashedPassword
use app_home_services.Values.Email
use app_home_services.Values.AuthProvider
use app_home_services.Auth.Entities.{AuthError, User, invalid_credentials}
use app_home_services.Auth.Aggregate.{UserAggregate}
use app_home_services.Auth.Store.{UserRow, Tables, Db, lift, select, statement, next_fault}
use app_home_services.Auth.Store.Rows.{into_user, transpose, map_option}
use app_home_services.Auth.Store.UserRepo.{
  has_username, find_by_username, find_aggregate_by_username, with_sessions_of, load_aggregate,
}
use app_home_services.Auth.Aggregate
use app_home_services.Auth.Store.Frames.{bind_ok}
use app_home_services.Auth.Tokens.{Crypto, JwtServiceImpl}
use app_home_services.Auth.Password.{
  verify_password_timing_safe, verify_dummy, stored_hash, dummy_password_hash, Cache, Work,
}
use app_home_services.Auth.UseCases.{
  Draws, AuthSettings, LoginResult, login_with_password, password_ok, run_bounded,
}

dummy_fails : (d : Option Text × Cache × List Work) → (verify_dummy d).0 ≡ false
unfolding verify_dummy
dummy_fails (none, _, _) = refl
dummy_fails (some _, _, _) = refl

-- A password passes exactly if the user has a hash and bcrypt verifies the password against it.
pub verify_password_timing_safe_iff :
    (crypto : Crypto) (salt : ℕ) (cache : Cache) (user : Option User) (password : Text) (cost : ℕ)
    → ((verify_password_timing_safe crypto salt cache user password cost).0 ≡ true)
      ↔ ((hash : Text) × (stored_hash user ≡ some hash) × (crypto.verify password hash ≡ ok true))
unfolding verify_password_timing_safe
verify_password_timing_safe_iff crypto salt cache user password cost =
    elim (Option-cases (stored_hash user)) [
      | inl e ↦ (
        λ h. absurd (ground (arith, dummy_fails (dummy_password_hash crypto salt cache cost))),
        λ (hash, f, _). absurd (ground arith),
      )
      | inr (hash, e) ↦ (
        λ h. (
          hash,
          e,
          elim (Result-cases (crypto.verify password hash)) [
            | inl (valid, v) ↦ ground arith
            | inr (x, v) ↦ absurd (ground arith)
          ],
        ),
        λ (other, f, v). ground arith,
      )
    ]

select_ok_at {ℓ} :
    {A : Type ℓ} (read : Tables → A) (db : Db) {a : A} (f : Option Text)
    → next_fault (db.faults) ≡ f
    → (select read db).0 ≡ ok a
    → read (db.tables) ≡ a
unfolding select statement
select_ok_at read db {a} none e h = ground arith
select_ok_at read db {a} (some t) e h = ground arith

-- A read that succeeds reads the tables.
pub select_ok {ℓ} :
    {A : Type ℓ} (read : Tables → A) (db : Db) {a : A}
    → (select read db).0 ≡ ok a
    → read (db.tables) ≡ a
select_ok read db h = select_ok_at read db (next_fault (db.faults)) refl h

pub transposed {ℓ κ μ} :
    {A : Type ℓ} {B : Type κ} {E : Type μ} (f : A → Result B E) (o : Option A) {b : B}
    → transpose (map_option f o) ≡ ok (some b)
    → (a : A) × (o ≡ some a) × (f a ≡ ok b)
transposed f none {b} h = cc
transposed f (some a) {b} h = elim (Result-cases (f a)) [
  | inl (c, e) ↦ (a, refl, ground arith)
  | inr (x, e) ↦ absurd (ground arith)
]

into_user_hash :
    (row : UserRow) (user : User)
    → into_user row ≡ ok user
    → map_option (λ h. h.as_str) (user.password_hash) ≡ row.password_hash
unfolding into_user HashedPassword.new
into_user_hash row user h = elim (Result-cases (Email.new (row.email))) [
  | inl (email, e) ↦ elim (Result-cases (AuthProvider.try_from (row.auth_provider))) [
    | inl (provider, p) ↦ elim (Option-cases (row.password_hash)) [
      | inl n ↦ ground arith
      | inr (t, n) ↦ ground arith
    ]
    | inr (x, p) ↦ absurd (ground arith)
  ]
  | inr (x, e) ↦ absurd (ground arith)
]

ran {ℓ} : {A : Type ℓ} (task : Option Text) (a : A) {b : A} → run_bounded task a ≡ ok b → a ≡ b
unfolding run_bounded
ran none a h = ground arith
ran (some e) a h = cc

pub present {ℓ} :
    {A : Type ℓ} (o : Option A) {a : A} (e : AuthError) → ok_or o e ≡ ok a → o ≡ some a
present none e h = cc
present (some b) e h = ground arith

went_on :
    (valid : Bool) (e : AuthError) {t : Unit {0}} → fail_if (not valid) e ≡ ok t → valid ≡ true
went_on true e h = refl
went_on false e h = cc

hash_of :
    (a : UserAggregate) (hash : Text)
    → stored_hash (map_option (λ x. x.user) (some a)) ≡ some hash
    → map_option (λ h. h.as_str) (a.user.password_hash) ≡ some hash
unfolding stored_hash
hash_of a hash h = elim (Option-cases (a.user.password_hash)) [
  | inl e ↦ ground arith
  | inr (x, e) ↦ ground arith
]

loaded_user :
    (user : User) (db : Db) (a : UserAggregate) → (load_aggregate user db).0 ≡ ok a → a.user ≡ user
unfolding load_aggregate lift Aggregate.new
loaded_user user db a h =
    let (rows, _, h₁, _) = bind_ok _ _ db h in
    let (sessions, _, h₂, _) = bind_ok _ _ _ h₁ in ground arith

with_user :
    (o : Option User) (db : Db) (a : UserAggregate)
    → (with_sessions_of o db).0 ≡ ok (some a)
    → o ≡ some (a.user)
unfolding with_sessions_of lift
with_user none db a h = cc
with_user (some user) db a h =
    let (b, e, h₁, _) = bind_ok _ _ db h in ground (arith, loaded_user user db a)

found_row :
    (username : Text) (db : Db) (a : UserAggregate)
    → (find_aggregate_by_username username db).0 ≡ ok (some a)
    → (row : UserRow) × (find_by (has_username username) (db.tables.users) ≡ some row)
      × (into_user row ≡ ok (a.user))
unfolding find_aggregate_by_username find_by_username lift
found_row username db a h =
    let (o, found, h₁, _) = bind_ok _ _ db h in
    let (row, read, h₂, _) = bind_ok _ _ db found in
    let (r, e, into) = transposed into_user row (h₂ ∙ ap ok (with_user o _ a h₁)) in
    (r, select_ok _ db read ∙ e, into)

module _ (crypto : Crypto) (jwt : JwtServiceImpl) (settings : AuthSettings) (draws : Draws) where
  passed :
      (found : Option UserAggregate) (a : UserAggregate) (password : Text)
      → found ≡ some a
      → password_ok crypto jwt settings draws found password ≡ true
      → (hash : Text) × (map_option (λ h. h.as_str) (a.user.password_hash) ≡ some hash)
        × (crypto.verify password hash ≡ ok true)
  unfolding password_ok
  passed found a password e h =
      let (hash, stored, v) =
        (verify_password_timing_safe_iff crypto (draws.dummy_salt) (draws.cache)
            (map_option (λ x. x.user) found) password (settings.bcrypt_cost)).0
          h in
      (
        hash,
        hash_of a hash (subst (λ o. stored_hash (map_option (λ x. x.user) o) ≡ some hash) e stored),
        v,
      )

  -- Whoever is let in by password named a user in the table who has a password hash, and bcrypt
  -- verified the password against that hash.
  pub login_with_password_verified :
      (username password : Text) (db : Db) {r : LoginResult}
      → (login_with_password crypto jwt settings draws username password db).0 ≡ ok r
      → (row : UserRow) × (hash : Text) × (find_by (has_username username) (db.tables.users)
          ≡ some row)
        × (row.password_hash ≡ some hash)
        × (crypto.verify password hash ≡ ok true)
  unfolding login_with_password lift
  login_with_password_verified username password db h =
      let (found, read, h₁, _) = bind_ok _ _ db h in
      let (valid, v, h₂, _) = bind_ok _ _ _ h₁ in
      let (_, t, h₃, _) = bind_ok _ _ _ h₂ in
      let (a, some_a, _, _) = bind_ok _ _ _ h₃ in
      let e : found ≡ some a = present found invalid_credentials some_a in
      let yes : password_ok crypto jwt settings draws found password ≡ true =
        ran (draws.first_task) _ v ∙ went_on valid invalid_credentials t in
      let (hash, stored, verified) = passed found a password e yes in
      let (row, there, into) = found_row username db a (read ∙ ap ok e) in
      (row, hash, there, sym (into_user_hash row (a.user) into) ∙ stored, verified)
