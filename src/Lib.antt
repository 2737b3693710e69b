-- ===== src/Lib.antt =====
-- The home services' back end (Rust, a workspace under crates/): logins, sessions and their tokens,
-- rate limits, and the revocation of access tokens.
--
-- The parts and how they interact. A login by password comes to a handler, which finds out the
-- address of the client, asks the rate limiter, and calls a use case; the use case loads a user with
-- the sessions from Postgres, checks the password with bcrypt, signs two tokens, and saves a new
-- session. A refresh rotates the session, and ends all of the user's sessions when a token is used
-- again. A logout ends the session and puts the access token on the revocation list, which is kept
-- in memory, or in Redis with a journal in Postgres behind it. An admin lists the users and changes
-- their roles, and a user reads and updates a profile, both over Postgres. The settings of all parts
-- are read from the environment when the service starts.
--
-- Which file models what:
-- - Base: helpers; Text is Rust's str with its bytes counted, HashMap the map of the standard
--   library as an association list, Outcome is Result.
-- - Values: crates/shared/src/domain (value objects, events).
-- - Net: crates/shared/src/net.rs (resolve_client_ip) and the decision of
--   crates/infrastructure/src/metrics_guard.rs.
-- - RateLimiter.Memory: crates/infrastructure/src/rate_limiter/memory.rs, a function for each
--   method (try_check_and_record, check, record_attempt, remaining_attempts, reset).
-- - Redis: the interface of a Redis server, with the documented behaviour of the commands used.
-- - RateLimiter.Redis: crates/infrastructure/src/rate_limiter/redis.rs, the methods over such a
--   server; RateLimiter.FixedWindow is what they promise.
-- - Blacklist: crates/shared/src/ports.rs (Backend), and
--   crates/infrastructure/src/access_token_blacklist/memory.rs (Memory, InMemory), durable.rs
--   (Durable: revoke, is_revoked, flush_pending, pending_count) and redis.rs (Redis).
-- - Auth.Entities and Auth.Aggregate: crates/auth/src/domain (UserAggregate and its operations).
-- - Auth.Store: crates/auth/src/adapters/postgres_user_repo.rs and postgres_session_repo.rs.
-- - Auth.Tokens: crates/auth/src/adapters/jwt_service.rs and its port.
-- - Auth.Password: crates/auth/src/domain/services/password_verification.rs.
-- - Auth.UseCases: crates/auth/src/application/use_cases (login_with_password, login_with_google,
--   refresh_token, logout, record_audit_entry).
-- - Bearer: the extractor of crates/shared/src/auth.rs (from_request_parts).
-- - Config: crates/auth/src/config/auth_settings.rs and crates/shared/src/config/settings.rs
--   (AuthSettings.from_env, Settings.from_env, validate_database_ssl, force_sslmode_verify_full).
-- - Admin: crates/admin (Role, Repo, Routes) and
--   crates/auth/src/adapters/postgres_user_directory.rs (Directory).
-- - Profiles: crates/profiles/src (value objects, repository, use cases and handlers).
-- - Auth.Routes: crates/auth/src/adapters/inbound/login_routes.rs and logout_routes.rs.
-- - Auth.TokenRoutes: crates/auth/src/adapters/inbound/refresh_routes.rs and oauth_callback.rs.
-- - Auth.Audit: crates/auth/src/adapters/audit_event_handler.rs (handle, insert_action).
-- - Auth.BcryptLimiter: crates/auth/src/domain/services/bcrypt_task.rs (BcryptLimiter).
--
-- How the code corresponds. A method that changes `self` takes the state and gives it back. Each
-- reading of a clock is an argument; times are nanoseconds, seconds where a token says so, and
-- natural numbers, where the code has i64 or Instant. An id that the code draws is an argument, and
-- so is the salt of a hash. An SQL statement is the function that its text says, on tables that are
-- lists of rows; which statements fail is an argument, and a transaction that fails leaves the
-- tables as they were. bcrypt, jsonwebtoken, Redis, the url crate, the identity provider and the parser of
-- addresses are arguments, with nothing assumed of them but what a theorem names. What another task does between
-- two locks of one call is an argument where the code lets go of a lock (Blacklist.Memory); else a
-- call is one step. A TIMESTAMPTZ keeps whole microseconds of a time (Base.timestamptz).
--
-- Bounds. A u32 of the limiter wraps at 2 ^ 32, and a lifetime that does not fit an i64 is refused by
-- the journal. Every loop of the code is over a list and is recursion on it, so no fuel is used.
--
-- Not modelled: the Google provider and the channel of the event bus. Start-up, routing, headers,
-- logs and metrics are calls of frameworks. The lengths of VARCHAR columns are not modelled, nor is a
-- commit whose answer is lost. The lifetimes that Redis is given are taken to be in its range. The
-- column updated_at of `user_roles`, which no query reads, is left out.
pub mod Base
pub mod Net
pub mod Redis
pub mod Profiles
pub mod RateLimiter
pub mod Blacklist
pub mod Values
pub mod Auth
pub mod Bearer
pub mod Admin
pub mod Config
