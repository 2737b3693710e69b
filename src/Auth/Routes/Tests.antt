-- ===== src/Auth/Routes/Tests.antt =====
-- The handlers' theorems at concrete inputs.
use app_home_services.Base.{Option}
use app_home_services.Base.{◌≡◌, refl, true, false, none, some, [], find_by, arith, nat_eq}
use app_home_services.Base.Text.{Text, text, text_eq}
use app_home_services.Base.Outcome.{ok}
use app_home_services.Base.Text.{parse_unsigned, parse_digits}
use app_home_services.Values.AuthMethod
use app_home_services.Values.AuthMethod.{AuthMethod}
use app_home_services.Values.AuthProvider
use app_home_services.Values.Email
use app_home_services.Values.HashedPassword
use app_home_services.Values.HashedPassword.{HashedPassword}
use app_home_services.Auth.Entities.{invalidate, is_expired}
use app_home_services.Auth.Aggregate
use app_home_services.Auth.Aggregate.{
  UserAggregate, find_session, rotate_session, invalidate_session, add_session, is_current,
  invalidate_all_active_sessions, invalidate_first, end_sessions, end_session, push_event,
  with_sessions,
}
use app_home_services.Auth.Store.{UserRow, select, statement, transaction, lift, ◌>>=◌, ◌>>◌}
use app_home_services.Auth.Store.Rows.{into_session, into_user}
use app_home_services.Auth.Store.UserRepo.{
  has_username, new_row, save_aggregate, invalidated_ids, find_aggregate_by_id,
  find_aggregate_by_username, find_by_id, find_by_username, with_sessions_of, load_aggregate,
  rows_of, order_by_newest, insert_sessions, insert_session, insert_row, deactivate_ids,
  deactivate_where, marker,
}
use app_home_services.Auth.Tokens.{validate_refresh_token, generate_token_pair}
use app_home_services.Auth.Password.{
  stored_hash, stored_hash_cost, verify_password_timing_safe, pad_timing_to, dummy_password_hash,
  verify_dummy, cost_of_pieces,
}
use app_home_services.Auth.UseCases.{
  login_with_password, logout, refresh_token, timestamp, expires_at, hash_refresh_token,
  create_session_tokens, password_ok, compare_token, on_rotation, run_bounded,
}
use app_home_services.Auth.Sample.{crypto, jwt, settings, draws, db}
use app_home_services.Base.{◌≢◌, from_secs}
use app_home_services.Base.HashMap.{get}
use app_home_services.Net.Addr.{IpAddr, v4, ip_beq, ip_eq}
use app_home_services.Net.ClientIp.{HeaderMap, resolve_client_ip, contains}
use app_home_services.RateLimiter.Memory.{
  try_check_and_record, clean_expired, make_room, evict_oldest_if_full, entry_or_new, spend, bump,
}
use app_home_services.Blacklist.InMemory.{memory_backend}
use app_home_services.Bearer.{AuthenticatedUser}
use app_home_services.Auth.Routes.{
  AppState, revocation_ttl_secs, login_password_handler, admit_login, answer_login,
  is_out_of_bounds, logout_handler, answer_logout,
}
use app_home_services.Auth.Routes.Effects.{
  login_password_handler_refused, login_password_handler_welcomed,
}
use app_home_services.Auth.Routes.LogoutEffects.{logout_handler_refused, logout_handler_revokes}

abbrev parse : Text → Option IpAddr
parse _ = none

abbrev headers : HeaderMap
headers = record { x_forwarded_for = none; x_real_ip = none }

abbrev state : AppState
state = record {
  rate_limiter = record { max_attempts = 2; window_duration = from_secs 300; entries = [] };
  db = db;
  published = [];
}

abbrev no_entries : memory_backend.State
no_entries = ([], tt)

abbrev caller : AuthenticatedUser
caller = record { user_id = 1; jti = 3; exp = 900 }

wrong_password_run :
    (login_password_handler crypto jwt settings draws parse [] 1 2
      (v4 7)
      headers
      (text "ann")
      (text "guess")
      state).0.status
    ≡ 401
unfolding refresh_token login_with_password timestamp expires_at hash_refresh_token
    create_session_tokens password_ok compare_token on_rotation run_bounded validate_refresh_token
    generate_token_pair find_aggregate_by_id find_aggregate_by_username find_by_id find_by_username
    has_username with_sessions_of load_aggregate rows_of order_by_newest into_user into_session
    AuthMethod.try_from AuthMethod.as_str AuthProvider.try_from Email.new HashedPassword.new
    rotate_session invalidate_session add_session is_current is_expired invalidate find_session
    invalidate_first invalidate_all_active_sessions end_sessions end_session push_event
    with_sessions Aggregate.new save_aggregate insert_sessions insert_session insert_row new_row
    deactivate_ids deactivate_where invalidated_ids marker select statement transaction lift ◌>>=◌
    ◌>>◌ verify_password_timing_safe pad_timing_to dummy_password_hash verify_dummy stored_hash
    stored_hash_cost cost_of_pieces parse_unsigned parse_digits login_password_handler admit_login
    answer_login is_out_of_bounds resolve_client_ip contains try_check_and_record clean_expired
    make_room evict_oldest_if_full entry_or_new spend bump ip_beq
wrong_password_run = refl

login_password_handler_refused_example :
    let out =
      login_password_handler crypto jwt settings draws parse [] 1 2
        (v4 7)
        headers
        (text "ann")
        (text "guess")
        state in
    (out.1.db.tables ≡ state.db.tables) × (out.1.published ≡ state.published)
login_password_handler_refused_example =
    login_password_handler_refused crypto jwt settings draws parse [] 1 2 (v4 7) headers
      (text "ann") (text "guess") state (λ h. ground (arith, wrong_password_run))

right_password_run :
    (login_password_handler crypto jwt settings draws parse [] 1 2
      (v4 7)
      headers
      (text "ann")
      (text "secret")
      state).0.status
    ≡ 200
unfolding refresh_token login_with_password timestamp expires_at hash_refresh_token
    create_session_tokens password_ok compare_token on_rotation run_bounded validate_refresh_token
    generate_token_pair find_aggregate_by_id find_aggregate_by_username find_by_id find_by_username
    has_username with_sessions_of load_aggregate rows_of order_by_newest into_user into_session
    AuthMethod.try_from AuthMethod.as_str AuthProvider.try_from Email.new HashedPassword.new
    rotate_session invalidate_session add_session is_current is_expired invalidate find_session
    invalidate_first invalidate_all_active_sessions end_sessions end_session push_event
    with_sessions Aggregate.new save_aggregate insert_sessions insert_session insert_row new_row
    deactivate_ids deactivate_where invalidated_ids marker select statement transaction lift ◌>>=◌
    ◌>>◌ verify_password_timing_safe pad_timing_to dummy_password_hash verify_dummy stored_hash
    stored_hash_cost cost_of_pieces parse_unsigned parse_digits login_password_handler admit_login
    answer_login is_out_of_bounds resolve_client_ip contains try_check_and_record clean_expired
    make_room evict_oldest_if_full entry_or_new spend bump ip_beq
right_password_run = refl

login_password_handler_welcomed_example :
    let out =
      login_password_handler crypto jwt settings draws parse [] 1 2
        (v4 7)
        headers
        (text "ann")
        (text "secret")
        state in
    let ip = resolve_client_ip parse (v4 7) headers [] in
    ((try_check_and_record (state.rate_limiter) 1 2 ip).1 ≡ true)
    × ((row : UserRow) × (hash : Text) × (find_by
            (has_username (text "ann"))
            (state.db.tables.users)
          ≡ some row)
        × (row.password_hash ≡ some hash)
        × (crypto.verify (text "secret") hash ≡ ok true))
    × (get ip (out.1.rate_limiter.entries) ≡ none)
login_password_handler_welcomed_example =
    login_password_handler_welcomed crypto jwt settings draws parse [] 1 2 (v4 7) headers
      (text "ann") (text "secret") state right_password_run

ended_session_run : (logout_handler memory_backend 1 5 0 caller 7 state no_entries).0.status ≡ 400
unfolding refresh_token login_with_password timestamp expires_at hash_refresh_token
    create_session_tokens password_ok compare_token on_rotation run_bounded validate_refresh_token
    generate_token_pair find_aggregate_by_id find_aggregate_by_username find_by_id find_by_username
    has_username with_sessions_of load_aggregate rows_of order_by_newest into_user into_session
    AuthMethod.try_from AuthMethod.as_str AuthProvider.try_from Email.new HashedPassword.new
    rotate_session invalidate_session add_session is_current is_expired invalidate find_session
    invalidate_first invalidate_all_active_sessions end_sessions end_session push_event
    with_sessions Aggregate.new save_aggregate insert_sessions insert_session insert_row new_row
    deactivate_ids deactivate_where invalidated_ids marker select statement transaction lift ◌>>=◌
    ◌>>◌ verify_password_timing_safe pad_timing_to dummy_password_hash verify_dummy stored_hash
    stored_hash_cost cost_of_pieces parse_unsigned parse_digits logout logout_handler answer_logout
ended_session_run = refl

logout_handler_refused_example :
    let out = logout_handler memory_backend 1 5 0 caller 7 state no_entries in
    (out.1.db.tables ≡ state.db.tables) × (out.1.published ≡ state.published) × (out.2 ≡ no_entries)
logout_handler_refused_example =
    logout_handler_refused memory_backend 1 5 0 caller state no_entries 7
      (λ h. ground (arith, ended_session_run))

logout_run : (logout_handler memory_backend 1 5 0 caller 8 state no_entries).0.status ≡ 200
unfolding refresh_token login_with_password timestamp expires_at hash_refresh_token
    create_session_tokens password_ok compare_token on_rotation run_bounded validate_refresh_token
    generate_token_pair find_aggregate_by_id find_aggregate_by_username find_by_id find_by_username
    has_username with_sessions_of load_aggregate rows_of order_by_newest into_user into_session
    AuthMethod.try_from AuthMethod.as_str AuthProvider.try_from Email.new HashedPassword.new
    rotate_session invalidate_session add_session is_current is_expired invalidate find_session
    invalidate_first invalidate_all_active_sessions end_sessions end_session push_event
    with_sessions Aggregate.new save_aggregate insert_sessions insert_session insert_row new_row
    deactivate_ids deactivate_where invalidated_ids marker select statement transaction lift ◌>>=◌
    ◌>>◌ verify_password_timing_safe pad_timing_to dummy_password_hash verify_dummy stored_hash
    stored_hash_cost cost_of_pieces parse_unsigned parse_digits logout logout_handler answer_logout
logout_run = refl

logout_handler_revokes_example :
    let out = logout_handler memory_backend 1 5 0 caller 8 state no_entries in
    (memory_backend.is_revoked 9 3 out.2).0 ≢ ok false
unfolding revocation_ttl_secs
logout_handler_revokes_example =
    logout_handler_revokes memory_backend 1 5 0 caller state no_entries 8 9 logout_run (omega arith)
      refl (omega arith)
