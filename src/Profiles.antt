-- ===== src/Profiles.antt =====
-- crates/profiles: the bio and the avatar of a user, the statements on `user_profiles`, the use cases
-- and their handlers.
pub mod Storing
pub mod RoundTrip
pub mod Handled
mod Tests
use app_home_services.Base.{
  timestamptz, ℕ, Bool, true, ◌&&◌, Option, none, some, List, [], ◌∷◌, ◌++◌, false, if◌then◌else◌,
  ltb, Uuid, nat_eq, map,
}
use app_home_services.Base.Text.{Text, text, trim, is_empty, len}
use app_home_services.Base.HashMap.{HashMap, get, insert}
use app_home_services.Base.Outcome.{Result, ok, err, ok_or, map_err, to_option}
use app_home_services.Base.Fallible.{Fallible, lift, ◌>>=◌}
use app_home_services.Admin.Store.{next_fault, later_faults}

pub data ProfileError : Type 0 where
  not_found : Uuid → ProfileError
  invalid_value : Text → ProfileError
  internal_error : Text → ProfileError

-- What both value objects keep of a text.
unfoldable pub trimmed : ℕ → Text → Text → Text → Result Text Text
trimmed most empty long s =
    if is_empty (trim s)
    then err empty
    else if ltb most (len (trim s))
    then err long
    else ok (trim s)

-- `AvatarUrl::new`
abbrev pub new_avatar_url : Text → Result Text Text
new_avatar_url =
    trimmed 500 (text "Avatar URL must not be empty")
      (text "Avatar URL must not exceed 500 characters")

-- `Bio::new`
abbrev pub new_bio : Text → Result Text Text
new_bio = trimmed 2000 (text "Bio must not be empty") (text "Bio must not exceed 2000 characters")

abbrev pub map_ok : {A B E : Type 0} → (A → B) → Result A E → Result B E
map_ok f (ok a) = ok (f a)
map_ok f (err e) = err e

-- An `AvatarUrl` and a `Bio` are their texts.
pub record UserProfile : Type 0 where
  pub user_id : Uuid
  pub avatar_url : Option Text
  pub bio : Option Text
  pub updated_at : ℕ

-- The rows, by the user, and which of the next statements fail, with what text.
pub record ProfileDb : Type 0 where
  pub user_profiles : HashMap Uuid UserProfile
  pub faults : List (Option Text)

abbrev pub Query : Type 0 → Type 0
Query A = Fallible ProfileDb ProfileError A

-- A statement: what it returns, and the rows that it leaves.
unfoldable pub statement :
    {A : Type 0} → (HashMap Uuid UserProfile → A × HashMap Uuid UserProfile) → Query A
statement run db = elim (next_fault db.faults) [
  | some e ↦ (
    err (internal_error e),
    record { user_profiles = db.user_profiles; faults = later_faults db.faults },
  )
  | none ↦
      let (a, rows) = run db.user_profiles in
      (ok a, record { user_profiles = rows; faults = later_faults db.faults })
]

-- A column as the repository reads it: `filter`, then `and_then(|s| new(s).ok())`.
abbrev pub read_column : (Text → Result Text Text) → Option Text → Option Text
read_column new none = none
read_column new (some s) = if is_empty s then none else to_option (new s)

abbrev pub profile_of : UserProfile → UserProfile
profile_of r = record {
  user_id = r.user_id;
  avatar_url = read_column new_avatar_url r.avatar_url;
  bio = read_column new_bio r.bio;
  updated_at = r.updated_at;
}

abbrev pub found_of : Option UserProfile → Option UserProfile
found_of none = none
found_of (some r) = some (profile_of r)

-- `PostgresProfileRepo::find_by_user_id`
unfoldable pub find_by_user_id : Uuid → Query (Option UserProfile)
find_by_user_id user_id = statement (λ rows. (found_of (get user_id rows), rows))

-- The row of a profile.
abbrev pub row_of : UserProfile → UserProfile
row_of p = record {
  user_id = p.user_id;
  avatar_url = p.avatar_url;
  bio = p.bio;
  updated_at = timestamptz p.updated_at;
}

-- `PostgresProfileRepo::upsert`
unfoldable pub upsert : UserProfile → Query (Unit {0})
upsert profile = statement (λ rows. (tt, insert profile.user_id (row_of profile) rows))

-- `upsert(&profile).await?; Ok(profile)`
unfoldable pub save : UserProfile → Query UserProfile
save profile = upsert profile >>= λ _. lift (ok profile)

unfoldable pub get_profile : Uuid → Query UserProfile
get_profile user_id = find_by_user_id user_id >>= λ found. lift (ok_or found (not_found user_id))

abbrev pub is_none : Option Text → Bool
is_none none = true
is_none (some _) = false

abbrev pub avatar_of : Option UserProfile → Option Text
avatar_of none = none
avatar_of (some p) = p.avatar_url

abbrev pub bio_of : Option UserProfile → Option Text
bio_of none = none
bio_of (some p) = p.bio

-- The `match` on a field of the request: what is left out is kept, the empty text clears.
unfoldable pub requested :
    (Text → Result Text Text) → Text → Option Text → Option Text → Result (Option Text) ProfileError
requested new prefix (some val) kept =
    if is_empty val
    then ok none
    else map_err (λ e. invalid_value (prefix ++ e)) (map_ok some (new val))
requested new prefix none kept = ok kept

-- What follows the read of the profile that is there.
unfoldable pub update_over :
    ℕ → Uuid → Option Text → Option Text → Option UserProfile → Query UserProfile
update_over now user_id avatar_url bio existing =
    lift (requested new_avatar_url (text "Invalid avatar_url: ") avatar_url (avatar_of existing))
    >>= λ avatar_url.
        lift (requested new_bio (text "Invalid bio: ") bio (bio_of existing)) >>= λ bio.
        save (record { user_id = user_id; avatar_url = avatar_url; bio = bio; updated_at = now })

unfoldable pub update_profile : ℕ → Uuid → Option Text → Option Text → Query UserProfile
update_profile now user_id avatar_url bio =
    if is_none avatar_url && is_none bio
    then lift (err (invalid_value (text "At least one field must be provided")))
    else find_by_user_id user_id >>= update_over now user_id avatar_url bio

pub data Body : Type 0 where
  profile : UserProfile → Body
  error : Text → Body

pub record Response : Type 0 where
  pub status : ℕ
  pub body : Body

abbrev pub failed : ℕ → Text → Response
failed status message = record { status = status; body = error message }

abbrev pub answer_get : Result UserProfile ProfileError × ProfileDb → Response × ProfileDb
answer_get (ok p, db) = (record { status = 200; body = profile p }, db)
answer_get (err (not_found _), db) = (failed 404 (text "Profile not found"), db)
answer_get (err (invalid_value _), db) = (failed 500 (text "Internal server error"), db)
answer_get (err (internal_error _), db) = (failed 500 (text "Internal server error"), db)

abbrev pub answer_update : Result UserProfile ProfileError × ProfileDb → Response × ProfileDb
answer_update (ok p, db) = (record { status = 200; body = profile p }, db)
answer_update (err (invalid_value message), db) = (failed 400 message, db)
answer_update (err (not_found _), db) = (failed 500 (text "Internal server error"), db)
answer_update (err (internal_error _), db) = (failed 500 (text "Internal server error"), db)

unfoldable pub get_profile_handler : Uuid → ProfileDb → Response × ProfileDb
get_profile_handler actor db = answer_get (get_profile actor db)

unfoldable pub update_profile_handler :
    ℕ → Uuid → Option Text → Option Text → ProfileDb → Response × ProfileDb
update_profile_handler now actor avatar_url bio db =
    answer_update (update_profile now actor avatar_url bio db)
