-- ===== src/Profiles/Handled.antt =====
-- The handlers of a profile, one after the other.
use app_home_services.Base.{ℕ, timestamptz, ◌≡◌, Option, none, Uuid}
use app_home_services.Base.Text.{Text}
use app_home_services.Base.Outcome.{Result, ok, err}
use app_home_services.Admin.Store.{next_fault}
use app_home_services.Profiles.{
  ProfileError, not_found, invalid_value, internal_error, UserProfile, ProfileDb, Response, profile,
  answer_get, answer_update, get_profile, update_profile, get_profile_handler,
  update_profile_handler,
}
use app_home_services.Profiles.RoundTrip.{get_profile-update_profile}

abbrev pub shown : UserProfile → Response
shown p = record { status = 200; body = profile p }

answered :
    (r : Result UserProfile ProfileError × ProfileDb) {p : UserProfile} {db' : ProfileDb}
    → answer_update r ≡ (shown p, db')
    → r ≡ (ok p, db')
answered (ok q, db) h = cc
answered (err (not_found _), db) h = cc
answered (err (invalid_value _), db) h = cc
answered (err (internal_error _), db) h = cc

answer_get-ok :
    (r : Result UserProfile ProfileError × ProfileDb) {p : UserProfile}
    → r.0 ≡ ok p
    → (answer_get r).0 ≡ shown p
answer_get-ok (ok q, db) h = cc
answer_get-ok (err (not_found _), db) h = cc
answer_get-ok (err (invalid_value _), db) h = cc
answer_get-ok (err (internal_error _), db) h = cc

-- Once an update is answered 200 with a profile, a read by the same user whose statement is executed is
-- answered 200 with the same avatar and bio, and with the time of the update cut down to the whole
-- microseconds that Postgres keeps.
pub get_profile_handler-update_profile_handler :
    (now : ℕ) (actor : Uuid) (avatar_url bio : Option Text) (db db' : ProfileDb) (p : UserProfile)
    → update_profile_handler now actor avatar_url bio db ≡ (shown p, db')
    → next_fault db'.faults ≡ none
    → (get_profile_handler actor db').0
      ≡ shown (record {
        user_id = p.user_id;
        avatar_url = p.avatar_url;
        bio = p.bio;
        updated_at = timestamptz p.updated_at;
      })
unfolding get_profile_handler update_profile_handler
get_profile_handler-update_profile_handler now actor avatar_url bio db db' p h fine =
    answer_get-ok (get_profile actor db') (
      get_profile-update_profile now actor avatar_url bio db db' p
        (answered (update_profile now actor avatar_url bio db) h) fine)
