-- ===== src/Auth/Tests.antt =====
-- The theorems on users and sessions at concrete inputs.
use app_home_services.Base.{
  ap, Option, none, some, ℕ, max, timestamptz, ◌≤◌, ◌+◌, ◌&&◌, ltb, if◌then◌else◌,
}
use app_home_services.Base.{
  ℕ, ◌≡◌, ◌<◌, ◌^◌, refl, ◌↔◌, Bool, true, false, none, some, [], ◌∷◌, map, All, find_by, filter_by,
  length, arith, Uuid, nat_eq, nat_beq,
}
use app_home_services.Base.Text.{Text, text, text_eq}
use app_home_services.Base.Outcome.{ok, err}
use app_home_services.Base.Text.{parse_unsigned, parse_digits}
use app_home_services.Values.AuthMethod
use app_home_services.Values.AuthMethod.{AuthMethod}
use app_home_services.Values.AuthProvider
use app_home_services.Values.Email
use app_home_services.Values.HashedPassword
use app_home_services.Values.HashedPassword.{HashedPassword}
use app_home_services.Auth.Entities.{
  session_invalidated, Session, NewSession, invalidate, is_expired,
}
use app_home_services.Auth.Aggregate
use app_home_services.Auth.Aggregate.{
  UserAggregate, find_session, rotate_session, invalidate_session, add_session, is_current,
  invalidate_all_active_sessions, invalidate_first, end_sessions, end_session, push_event,
  with_sessions,
}
use app_home_services.Auth.Aggregate.Rotation.{
  IsRotatable, rotate_session_iff, rotate-rotate_session,
}
use app_home_services.Auth.Aggregate.Logout.{
  logged_out, invalidate_all_active_sessions_lem, invalidate_session_iff, add_session_iff,
}
use app_home_services.Auth.Store.{UserRow, select, statement, transaction, lift, ◌>>=◌, ◌>>◌}
use app_home_services.Auth.Store.Frames.{IsAtomic}
use app_home_services.Auth.Store.Rows.{into_session, into_user}
use app_home_services.Auth.Store.UserRepo.{
  deactivated, has_username, new_row, save_aggregate, invalidated_ids, find_aggregate_by_id,
  find_aggregate_by_username, find_by_id, find_by_username, with_sessions_of, load_aggregate,
  rows_of, order_by_newest, insert_sessions, insert_session, insert_row, deactivate_ids,
  deactivate_where, marker,
}
use app_home_services.Auth.Store.Saving.{is_ended_in, inserted, save_aggregate_lem}
use app_home_services.Auth.Store.RoundTrip.{into_session-new_row}
use app_home_services.Auth.Tokens.{RefreshTokenClaims, validate_refresh_token, generate_token_pair}
use app_home_services.Auth.Password.{
  stored_hash, stored_hash_cost, verify_password_timing_safe, pad_timing_to, dummy_password_hash,
  verify_dummy, cost_of_pieces,
}
use app_home_services.Auth.Password.Timing.{
  total, HasCost, HasCost-stored_hash_cost, verify_password_timing_safe_work,
}
use app_home_services.Auth.UseCases.{
  LoginResult, login_with_password, refresh_token, timestamp, expires_at, hash_refresh_token,
  create_session_tokens, password_ok, compare_token, on_rotation, run_bounded,
}
use app_home_services.Auth.UseCases.Login.{login_with_password-IsAtomic}
use app_home_services.Auth.UseCases.Verified.{login_with_password_verified}
use app_home_services.Auth.UseCases.Refresh.{refresh_token_reuse}
use app_home_services.Auth.Sample.{crypto, jwt, settings, cache, draws, db, user, aggregate, fresh}

reuse_run :
    (refresh_token crypto jwt settings draws (text "refresh") db).0 ≡ err session_invalidated
unfolding refresh_token login_with_password timestamp expires_at hash_refresh_token
    create_session_tokens password_ok compare_token on_rotation run_bounded validate_refresh_token
    generate_token_pair find_aggregate_by_id find_aggregate_by_username find_by_id find_by_username
    has_username with_sessions_of load_aggregate rows_of order_by_newest into_user into_session
    AuthMethod.try_from AuthMethod.as_str AuthProvider.try_from Email.new HashedPassword.new
    rotate_session invalidate_session add_session is_current is_expired invalidate find_session
    invalidate_first invalidate_all_active_sessions end_sessions end_session push_event
    with_sessions Aggregate.new save_aggregate insert_sessions insert_session insert_row new_row
    deactivate_ids deactivate_where invalidated_ids marker select statement transaction lift ◌>>=◌
    ◌>>◌ verify_password_timing_safe pad_timing_to dummy_password_hash verify_dummy stored_hash
    stored_hash_cost cost_of_pieces parse_unsigned parse_digits
reuse_run = refl

refresh_token_reuse_example :
    (c : RefreshTokenClaims) × (validate_refresh_token crypto jwt
        (timestamp crypto jwt settings draws)
        (text "refresh")
      ≡ ok c)
    × All
        (λ r. r.user_id ≡ c.sub → r.is_active ≡ false)
        ((refresh_token crypto jwt settings draws (text "refresh") db).1.tables.sessions)
refresh_token_reuse_example =
    refresh_token_reuse crypto jwt settings draws (text "refresh") db reuse_run

login_run :
    (r : LoginResult) × ((login_with_password crypto jwt settings draws
        (text "ann")
        (text "secret")
        db).0
      ≡ ok r)
unfolding refresh_token login_with_password timestamp expires_at hash_refresh_token
    create_session_tokens password_ok compare_token on_rotation run_bounded validate_refresh_token
    generate_token_pair find_aggregate_by_id find_aggregate_by_username find_by_id find_by_username
    has_username with_sessions_of load_aggregate rows_of order_by_newest into_user into_session
    AuthMethod.try_from AuthMethod.as_str AuthProvider.try_from Email.new HashedPassword.new
    rotate_session invalidate_session add_session is_current is_expired invalidate find_session
    invalidate_first invalidate_all_active_sessions end_sessions end_session push_event
    with_sessions Aggregate.new save_aggregate insert_sessions insert_session insert_row new_row
    deactivate_ids deactivate_where invalidated_ids marker select statement transaction lift ◌>>=◌
    ◌>>◌ verify_password_timing_safe pad_timing_to dummy_password_hash verify_dummy stored_hash
    stored_hash_cost cost_of_pieces parse_unsigned parse_digits
login_run = (_, refl)

login_with_password_verified_example :
    (r : UserRow) × (hash : Text) × (find_by (has_username (text "ann")) (db.tables.users) ≡ some r)
    × (r.password_hash ≡ some hash)
    × (crypto.verify (text "secret") hash ≡ ok true)
login_with_password_verified_example =
    login_with_password_verified crypto jwt settings draws (text "ann") (text "secret") db
      login_run.1

login_with_password-IsAtomic_example :
    IsAtomic (login_with_password crypto jwt settings draws (text "ann") (text "guess"))
login_with_password-IsAtomic_example =
    login_with_password-IsAtomic crypto jwt settings draws (text "ann") (text "guess")

-- The costs of the three hashes, as they are written.
ten_and_twelve :
    HasCost (text "$2b$10$secret") 10 × HasCost (text "$2b$12$x") 12 × HasCost (text "$2b$10$x") 10
unfolding parse_unsigned parse_digits
ten_and_twelve = (
  (text "2b", text "10", text "secret", refl, refl, refl, refl),
  (text "2b", text "12", text "x", refl, refl, refl, refl),
  (text "2b", text "10", text "x", refl, refl, refl, refl),
)

-- A bcrypt that verifies a hash at its cost.
abbrev or_zero : Option ℕ → ℕ
or_zero none = 0
or_zero (some c) = c

abbrev cost_of : Text → ℕ
cost_of hash = or_zero (stored_hash_cost hash)

written_cost : (hash : Text) (cost : ℕ) → HasCost hash cost → cost_of hash ≡ cost
written_cost hash cost has = ap or_zero (HasCost-stored_hash_cost hash cost has)

user_hash : (stored_hash (some user) ≡ some (text "$2b$10$secret")) × (stored_hash none ≡ none)
unfolding stored_hash
user_hash = (refl, refl)

verify_password_timing_safe_work_example :
    (total cost_of (verify_password_timing_safe crypto 0 cache (some user) (text "guess") 12).2
      ≡ 2 ^ max 10 12)
    × (total cost_of (verify_password_timing_safe crypto 0 cache none (text "guess") 12).2 ≡ 2 ^ 12)
verify_password_timing_safe_work_example =
    verify_password_timing_safe_work cost_of crypto 0 cache (some user) none (text "guess") 12 10
      (text "$2b$10$secret") written_cost user_hash.0 ten_and_twelve.0 (omega arith)
      (text "$2b$10$x", refl, ten_and_twelve.2) (text "$2b$12$x", refl, ten_and_twelve.1)
      user_hash.1

rotate_session_iff_example :
    ((n : NewSession) × (out : UserAggregate) × (rotate_session 5 aggregate 8 true 9
          (fresh.refresh_token_hash)
          100
        ≡ ok (n, out)))
    ↔ IsRotatable 5 aggregate 8 true
rotate_session_iff_example = rotate_session_iff 5 aggregate 8 true 9 (fresh.refresh_token_hash) 100

rotation_run :
    (n : NewSession) × (out : UserAggregate) × (rotate_session 5 aggregate 8 true 9
        (fresh.refresh_token_hash)
        100
      ≡ ok (n, out))
unfolding rotate_session find_session is_expired
rotation_run = (_, _, refl)

rotate-rotate_session_example :
    ((later : ℕ) (matches : Bool) (new_id' : Uuid) (hash' : HashedPassword) (expires_at' : ℕ)
      → rotate_session later (rotation_run.1) 8 matches new_id' hash' expires_at'
        ≡ err session_invalidated)
    × ((j : Uuid)
        → nat_beq 8 j ≡ false
        → find_session j (rotation_run.1.sessions) ≡ find_session j (aggregate.sessions))
rotate-rotate_session_example =
    rotate-rotate_session 5 aggregate 8 true 9 (fresh.refresh_token_hash) 100 rotation_run.0
      rotation_run.1 rotation_run.2

invalidate_all_active_sessions_lem_example :
    (invalidate_all_active_sessions 5 aggregate ≡ record {
      user = user;
      sessions = map invalidate (aggregate.sessions);
      pending_events =
          map (logged_out 5 aggregate) (filter_by (λ s. s.is_active) (aggregate.sessions));
    })
    × All (λ s. s.is_active ≡ false) ((invalidate_all_active_sessions 5 aggregate).sessions)
invalidate_all_active_sessions_lem_example = invalidate_all_active_sessions_lem 5 aggregate

invalidate_session_iff_example :
    ((m : AuthMethod) × (out : UserAggregate) × (invalidate_session 5 aggregate 8 ≡ ok (m, out)))
    ↔ ((s : Session) × (find_session 8 (aggregate.sessions) ≡ some s)
        × (s.user_id ≡ 1)
        × (s.is_active ≡ true)
        × (5 < s.expires_at))
invalidate_session_iff_example = invalidate_session_iff 5 aggregate 8

add_session_iff_example :
    ((n : NewSession) × (out : UserAggregate) × (add_session 5 aggregate 9
          (fresh.refresh_token_hash)
          100
          AuthMethod.password
        ≡ ok (n, out)))
    ↔ (length (filter_by (λ s. s.is_active && ltb 5 (s.expires_at)) (aggregate.sessions)) < 25)
add_session_iff_example =
    add_session_iff 5 aggregate 9 (fresh.refresh_token_hash) 100 AuthMethod.password

save_run : (save_aggregate 5 aggregate (fresh ∷ []) db).0 ≡ ok tt
unfolding refresh_token login_with_password timestamp expires_at hash_refresh_token
    create_session_tokens password_ok compare_token on_rotation run_bounded validate_refresh_token
    generate_token_pair find_aggregate_by_id find_aggregate_by_username find_by_id find_by_username
    has_username with_sessions_of load_aggregate rows_of order_by_newest into_user into_session
    AuthMethod.try_from AuthMethod.as_str AuthProvider.try_from Email.new HashedPassword.new
    rotate_session invalidate_session add_session is_current is_expired invalidate find_session
    invalidate_first invalidate_all_active_sessions end_sessions end_session push_event
    with_sessions Aggregate.new save_aggregate insert_sessions insert_session insert_row new_row
    deactivate_ids deactivate_where invalidated_ids marker select statement transaction lift ◌>>=◌
    ◌>>◌ verify_password_timing_safe pad_timing_to dummy_password_hash verify_dummy stored_hash
    stored_hash_cost cost_of_pieces parse_unsigned parse_digits
save_run = refl

save_aggregate_lem_example : (save_aggregate 5 aggregate (fresh ∷ []) db).1.tables ≡ record {
  users = db.tables.users;
  user_actions = db.tables.user_actions;
  sessions =
      map
        (λ r. if is_ended_in aggregate r then deactivated r else r)
        (inserted 5 (fresh ∷ []) (db.tables.sessions));
}
save_aggregate_lem_example = save_aggregate_lem 5 aggregate (fresh ∷ []) db save_run

into_session-new_row_example :
    (into_session (new_row 5 fresh)
      ≡ ok (record {
        id = 9;
        user_id = 1;
        refresh_token_hash = record { as_str = text "$2b$12$refresh" };
        expires_at = timestamptz 100;
        is_active = true;
        created_at = timestamptz 5;
        auth_method = AuthMethod.google_oauth;
      }))
    × (timestamptz 100 ≤ 100)
    × (100 < timestamptz 100 + 1000)
into_session-new_row_example = into_session-new_row 5 fresh refl
