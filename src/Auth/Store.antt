-- ===== src/Auth/Store.antt =====
-- What the repositories ask of Postgres (through sqlx): three tables, and a list that says which of
-- the next statements fail and with what text; past its end they are executed. A statement that
-- breaks a constraint of the tables fails with the text `violation`.
pub mod Rows
pub mod UserRepo
pub mod SessionRepo
pub mod Frames
pub mod Saving
pub mod Coverage
pub mod RoundTrip
use app_home_services.Base.{ℕ, ◌≡◌, Bool, true, false, Option, none, some, List, [], ◌∷◌, Uuid}
use app_home_services.Base.Text.{Text}
use app_home_services.Base.Outcome.{Result, ok, err}
use app_home_services.Auth.Entities.{AuthError, internal_error}

pub record UserRow : Type 0 where
  pub id : Uuid
  pub username : Option Text
  pub email : Text
  pub display_name : Text
  pub password_hash : Option Text
  pub auth_provider : Text
  pub created_at : ℕ
  pub updated_at : ℕ

pub record UserActionRow : Type 0 where
  pub id : Uuid
  pub user_id : Uuid
  pub session_id : Option Uuid
  pub event_type : Text
  pub auth_method : Text
  pub created_at : ℕ

pub record SessionRow : Type 0 where
  pub id : Uuid
  pub user_id : Uuid
  pub refresh_token_hash : Text
  pub expires_at : ℕ
  pub is_active : Bool
  pub created_at : ℕ
  pub auth_method : Text

pub record Tables : Type 0 where
  pub users : List UserRow
  pub user_actions : List UserActionRow
  pub sessions : List SessionRow

pub record Db : Type 0 where
  pub tables : Tables
  pub faults : List (Option Text)
  pub violation : Text

-- A computation on the database, with `?` as its bind.
abbrev pub Query {ℓ} : Type ℓ → Type ℓ
Query A = Db → Result A AuthError × Db

unfoldable pub lift {ℓ} : {A : Type ℓ} → Result A AuthError → Query A
lift r db = (r, db)

-- What follows a result.
abbrev pub proceed {ℓ κ} :
    {A : Type ℓ} {B : Type κ} → (A → Query B) → Result A AuthError × Db → Result B AuthError × Db
proceed k (ok a, db) = k a db
proceed k (err e, db) = (err e, db)

infixl 5 ◌>>=◌ ◌>>◌
unfoldable pub ◌>>=◌ {ℓ κ} : {A : Type ℓ} {B : Type κ} → Query A → (A → Query B) → Query B
(m >>= k) db = proceed k (m db)

unfoldable pub ◌>>◌ {ℓ κ} : {A : Type ℓ} {B : Type κ} → Query A → Query B → Query B
m >> k = m >>= λ _. k

abbrev pub next_fault : List (Option Text) → Option Text
next_fault [] = none
next_fault (f ∷ _) = f

abbrev pub later_faults : List (Option Text) → List (Option Text)
later_faults [] = []
later_faults (_ ∷ rest) = rest

abbrev pub with_tables : Db → Tables → Db
with_tables db t = record {
  tables = t;
  faults = later_faults (db.faults);
  violation = db.violation;
}

-- A statement: it fails by the list of faults, by a constraint, or does what its text says.
unfoldable pub statement {ℓ} : {A : Type ℓ} → (Tables → Option (A × Tables)) → Query A
statement run db = elim (next_fault (db.faults)) [
  | some e ↦ (err (internal_error e), with_tables db (db.tables))
  | none ↦ elim (run (db.tables)) [
    | none ↦ (err (internal_error (db.violation)), with_tables db (db.tables))
    | some (a, t) ↦ (ok a, with_tables db t)
  ]
]

-- A `SELECT`
unfoldable pub select {ℓ} : {A : Type ℓ} → (Tables → A) → Query A
select read = statement (λ t. some (read t, t))

-- A transaction that is dropped is rolled back.
abbrev pub roll_back {ℓ} : {A : Type ℓ} → Tables → Result A AuthError × Db → Result A AuthError × Db
roll_back before (ok a, after) = (ok a, after)
roll_back before (err e, after) =
    (err e, record { tables = before; faults = after.faults; violation = after.violation })

-- What stands between `begin` and `commit`.
unfoldable pub transaction {ℓ} : {A : Type ℓ} → Query A → Query A
transaction m db = roll_back (db.tables) (m db)
