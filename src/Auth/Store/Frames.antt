-- ===== src/Auth/Store/Frames.antt =====
-- What a computation on the database leaves as it was: reads change no table, and a transaction
-- that fails changes none.
use app_home_services.Base.{◌≡◌, refl, ◌∙◌, ap, ◌⊎◌, inl, inr, Option, none, some, arith, Uuid}
use app_home_services.Base.Text.{Text}
use app_home_services.Base.Outcome.{Result, ok, err}
use app_home_services.Auth.Entities.{AuthError, User}
use app_home_services.Auth.Store.{
  Tables, Db, Query, lift, proceed, statement, select, transaction, roll_back, ◌>>=◌, next_fault,
}
use app_home_services.Auth.Store.UserRepo.{
  load_aggregate, find_by_id, find_by_username, with_sessions_of, find_aggregate_by_id,
  find_aggregate_by_username,
}

-- No table changes.
pub record IsReadOnly {ℓ} {A : Type ℓ} (m : Query A) : Type ℓ where
  pub keeps : (db : Db) → (m db).1.tables ≡ db.tables

-- A failure changes no table.
pub record IsAtomic {ℓ} {A : Type ℓ} (m : Query A) : Type ℓ where
  pub undoes : (db : Db) (e : AuthError) → (m db).0 ≡ err e → (m db).1.tables ≡ db.tables

module _ {ℓ κ} {A : Type ℓ} {B : Type κ} where
  proceed-IsReadOnly :
      (k : A → Query B) (r : Result A AuthError) (db : Db)
      → ((a : A) → IsReadOnly (k a))
      → (proceed k (r, db)).1.tables ≡ db.tables
  proceed-IsReadOnly k (ok a) db h = (h a).keeps db
  proceed-IsReadOnly k (err e) db h = refl

  pub bind-IsReadOnly :
      (m : Query A) (k : A → Query B)
      → IsReadOnly m
      → ((a : A) → IsReadOnly (k a))
      → IsReadOnly (m >>= k)
  unfolding ◌>>=◌
  bind-IsReadOnly m k hm hk = record {
    keeps = λ db. proceed-IsReadOnly k (m db).0 (m db).1 hk ∙ hm.keeps db;
  }

  proceed-IsAtomic :
      (k : A → Query B) (r : Result A AuthError) (db : Db)
      → ((a : A) → IsAtomic (k a))
      → (e : AuthError) → (proceed k (r, db)).0 ≡ err e
      → (proceed k (r, db)).1.tables ≡ db.tables
  proceed-IsAtomic k (ok a) db h e eq = (h a).undoes db e eq
  proceed-IsAtomic k (err _) db h e eq = refl

  -- Reads come first.
  pub bind-IsAtomic :
      (m : Query A) (k : A → Query B)
      → IsReadOnly m
      → ((a : A) → IsAtomic (k a))
      → IsAtomic (m >>= k)
  unfolding ◌>>=◌
  bind-IsAtomic m k hm hk = record {
    undoes = λ db e eq. proceed-IsAtomic k (m db).0 (m db).1 hk e eq ∙ hm.keeps db;
  }

  finish :
      (f : A → B) (r : Result A AuthError) (db : Db) (e : AuthError)
      → (proceed (λ a. lift (ok (f a))) (r, db)).0 ≡ err e
      → (r ≡ err e) × ((proceed (λ a. lift (ok (f a))) (r, db)).1 ≡ db)
  unfolding lift
  finish f (ok a) db e eq = cc
  finish f (err d) db e eq = (ground arith, refl)

  -- The answer is put together last.
  pub finish-IsAtomic :
      (m : Query A) (f : A → B) → IsAtomic m → IsAtomic (m >>= λ a. lift (ok (f a)))
  unfolding ◌>>=◌
  finish-IsAtomic m f hm = record {
    undoes = λ db e eq.
        let (failed, same) = finish f (m db).0 (m db).1 e eq in
        ap (λ d. d.tables) same ∙ hm.undoes db e failed;
  }

pub lift-IsReadOnly {ℓ} : {A : Type ℓ} (r : Result A AuthError) → IsReadOnly (lift r)
unfolding lift
lift-IsReadOnly r = record { keeps = λ db. refl }

-- A statement that fails changes nothing, and a read does not when it succeeds.
statement_keeps {ℓ} :
    {A : Type ℓ} (read : Tables → A) (db : Db) (f : Option Text)
    → next_fault (db.faults) ≡ f
    → (select read db).1.tables ≡ db.tables
unfolding select statement
statement_keeps read db none e = rw (e, statement) refl
statement_keeps read db (some t) e = rw (e, statement) refl

pub select-IsReadOnly {ℓ} : {A : Type ℓ} (read : Tables → A) → IsReadOnly (select read)
select-IsReadOnly read = record {
  keeps = λ db. statement_keeps read db (next_fault (db.faults)) refl;
}

rolled_back {ℓ} :
    {A : Type ℓ} (before : Tables) (r : Result A AuthError) (db : Db) (e : AuthError)
    → (roll_back before (r, db)).0 ≡ err e
    → (roll_back before (r, db)).1.tables ≡ before
rolled_back before (ok a) db e eq = cc
rolled_back before (err d) db e eq = refl

pub transaction-IsAtomic {ℓ} : {A : Type ℓ} (m : Query A) → IsAtomic (transaction m)
unfolding transaction
transaction-IsAtomic m = record {
  undoes = λ db e eq. rolled_back (db.tables) (m db).0 (m db).1 e eq;
}

load_aggregate-IsReadOnly : (user : User) → IsReadOnly (load_aggregate user)
unfolding load_aggregate
load_aggregate-IsReadOnly user =
    bind-IsReadOnly _ _ (select-IsReadOnly _)
      (λ rows. bind-IsReadOnly _ _ (lift-IsReadOnly _) (λ s. lift-IsReadOnly _))

with_sessions_of-IsReadOnly : (o : Option User) → IsReadOnly (with_sessions_of o)
unfolding with_sessions_of
with_sessions_of-IsReadOnly none = lift-IsReadOnly _
with_sessions_of-IsReadOnly (some user) =
    bind-IsReadOnly _ _ (load_aggregate-IsReadOnly user) (λ a. lift-IsReadOnly _)

pub find_aggregate_by_id-IsReadOnly : (id : Uuid) → IsReadOnly (find_aggregate_by_id id)
unfolding find_aggregate_by_id find_by_id
find_aggregate_by_id-IsReadOnly id =
    bind-IsReadOnly _ _ (bind-IsReadOnly _ _ (select-IsReadOnly _) (λ row. lift-IsReadOnly _))
      with_sessions_of-IsReadOnly

pub find_aggregate_by_username-IsReadOnly :
    (name : Text) → IsReadOnly (find_aggregate_by_username name)
unfolding find_aggregate_by_username find_by_username
find_aggregate_by_username-IsReadOnly name =
    bind-IsReadOnly _ _ (bind-IsReadOnly _ _ (select-IsReadOnly _) (λ row. lift-IsReadOnly _))
      with_sessions_of-IsReadOnly

-- A computation that succeeds went through its first step.
proceed_ok {ℓ κ} :
    {A : Type ℓ} {B : Type κ} (k : A → Query B) (r : Result A AuthError) (db : Db) {b : B}
    → (proceed k (r, db)).0 ≡ ok b
    → (a : A) × (r ≡ ok a) × ((k a db).0 ≡ ok b) × (proceed k (r, db) ≡ k a db)
proceed_ok k (ok a) db h = (a, refl, h, refl)
proceed_ok k (err e) db h = cc

pub bind_ok {ℓ κ} :
    {A : Type ℓ} {B : Type κ} (m : Query A) (k : A → Query B) (db : Db) {b : B}
    → ((m >>= k) db).0 ≡ ok b
    → (a : A) × ((m db).0 ≡ ok a) × ((k a (m db).1).0 ≡ ok b) × ((m >>= k) db ≡ k a (m db).1)
unfolding ◌>>=◌
bind_ok m k db h = proceed_ok k (m db).0 (m db).1 h

-- A computation that fails did so in its first step or after it.
proceed_err {ℓ κ} :
    {A : Type ℓ} {B : Type κ} (k : A → Query B) (r : Result A AuthError) (db : Db) {e : AuthError}
    → (proceed k (r, db)).0 ≡ err e
    → (r ≡ err e) ⊎ ((a : A) × (r ≡ ok a) × ((k a db).0 ≡ err e) × (proceed k (r, db) ≡ k a db))
proceed_err k (ok a) db h = inr (a, refl, h, refl)
proceed_err k (err x) db h = inl (ground arith)

pub bind_err {ℓ κ} :
    {A : Type ℓ} {B : Type κ} (m : Query A) (k : A → Query B) (db : Db) {e : AuthError}
    → ((m >>= k) db).0 ≡ err e
    → ((m db).0 ≡ err e)
      ⊎ ((a : A) × ((m db).0 ≡ ok a) × ((k a (m db).1).0 ≡ err e) × ((m >>= k) db ≡ k a (m db).1))
unfolding ◌>>=◌
bind_err m k db h = proceed_err k (m db).0 (m db).1 h

proceed_failed {ℓ κ} :
    {A : Type ℓ} {B : Type κ} (k : A → Query B) (r : Result A AuthError) (db : Db) {e : AuthError}
    → r ≡ err e
    → (proceed k (r, db)).1 ≡ db
proceed_failed k (ok a) db h = cc
proceed_failed k (err x) db h = refl

-- A failed first step is the last.
pub bind_failed {ℓ κ} :
    {A : Type ℓ} {B : Type κ} (m : Query A) (k : A → Query B) (db : Db) {e : AuthError}
    → (m db).0 ≡ err e
    → ((m >>= k) db).1 ≡ (m db).1
unfolding ◌>>=◌
bind_failed m k db h = proceed_failed k (m db).0 (m db).1 h
