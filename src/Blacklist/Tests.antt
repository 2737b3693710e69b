-- ===== src/Blacklist/Tests.antt =====
-- The theorems of the revocation list at concrete inputs.
use app_home_services.Base.{
  ℕ, ◌+◌, ◌≡◌, refl, sym, ◌≢◌, true, false, [], ◌∷◌, arith, nat_eq, from_secs,
}
use app_home_services.Base.Outcome.{Result, ok, err}
use app_home_services.Base.Text.{Text}
use app_home_services.Redis.{delivers, fails, elapses, round_trip}
use app_home_services.Redis.Sample.{table_redis}
use app_home_services.Blacklist.Redis
use app_home_services.Blacklist.Redis.{RedisAccessTokenBlacklist}
use app_home_services.Blacklist.Redis.Lasting
use app_home_services.Blacklist.Redis.Lasting.{is_revoked_while}
use app_home_services.Blacklist.Memory.{
  RevokedEntry, Revocations, revokes, rechecks, revoke, is_revoked, read_path, run,
}
use app_home_services.Blacklist.Memory.Revocation.{Covers, is_revoked-revoke, is_revoked_between}
use app_home_services.Blacklist.Backend.{Backend, BlacklistError, unavailable}
use app_home_services.Blacklist.InMemory.{memory_backend}
use app_home_services.Blacklist.Durable
use app_home_services.Blacklist.Durable.{
  Durable, OutboxRow, Statements, flush_pending, Op, flushes, asks, counts,
}
use app_home_services.Blacklist.Durable.Acceptance.{is_revoked_after-revoke}
use app_home_services.Blacklist.Durable.Flushing.{
  IsSafe, flush_pending-IsSafe, flush_pending_drains,
}

-- Token 4 was revoked for ten nanoseconds.
abbrev old_entry : RevokedEntry
old_entry = record { revoked_at = 5; ttl = 10 }

abbrev one_entry : Revocations
one_entry = (4, old_entry) ∷ []

is_revoked-revoke_example :
    (is_revoked 30 31 9
      (rechecks 31 4 ∷ [])
      (run (revoke 20 9 1 one_entry) (revokes 25 4 7 ∷ []))).1
    ≡ true
is_revoked-revoke_example =
    is_revoked-revoke 20 30 31 9 1 one_entry (revokes 25 4 7 ∷ []) (rechecks 31 4 ∷ []) (refl, tt)
      (omega arith) (omega arith) (omega arith) (omega arith)

is_revoked_between_example :
    let r = is_revoked 30 32 4 (revokes 31 4 60 ∷ []) one_entry in
    (r.1 ≡ true) × Covers (31 + from_secs 60) 4 r.0
unfolding read_path
is_revoked_between_example =
    is_revoked_between 31 30 32 4 60 one_entry [] (refl, tt) refl (omega arith) (omega arith) tt

refused : ◌≢◌ {A = Result (Unit {0}) BlacklistError} (ok tt) (err unavailable)
refused e = cc

-- A backend that is down.
abbrev down : Backend
down = record {
  State = Unit {0};
  revoke = λ _ _ _ s. (err unavailable, s);
  is_revoked = λ _ _ s. (err unavailable, s);
  Holds = λ _ _ _. ⊥;
  revoke_holds = λ _ _ _ _ _ e. absurd (refused (sym e));
  revoke_keeps = λ _ _ _ _ _ _ _ _ h. h;
  holds_less = λ _ _ _ _ _ h. h;
  is_revoked_keeps = λ _ _ _ _ _ _ h. h;
  is_revoked_reports = λ _ _ _ _ _ h. absurd h;
}

abbrev nothing_revoked : Durable down
nothing_revoked = record { inner = tt; outbox = []; pending = [] }

abbrev no_delete : Statements
no_delete = record { expiry_executed = true; select_executed = true; delete_executed = false }

-- The backend stays down; the sweep and the questions in between leave the token rejected.
is_revoked_after-revoke_example :
    (Durable.is_revoked down 50 4 (
      Durable.run down
        (Durable.revoke down 20 7 true 4 60 nothing_revoked).1
        (asks 21 4 ∷ flushes 30 90 no_delete ∷ counts 40 ∷ []))).0
    ≢ ok false
unfolding Durable.revoke Durable.journal
is_revoked_after-revoke_example =
    is_revoked_after-revoke down 20 50 7 true 4 60 nothing_revoked
      (asks 21 4 ∷ flushes 30 90 no_delete ∷ counts 40 ∷ []) (omega arith) tt tt
      (λ row found. ground (arith, found)) refl (omega arith) (omega arith)

abbrev journaled : OutboxRow
journaled = record { ttl_secs = 60; created_at = 7; expires_at = 7 + from_secs 60 }

abbrev one_row : Durable memory_backend
one_row = record { inner = ([], tt); outbox = (4, journaled) ∷ []; pending = [] }

flush_pending-IsSafe_example :
    IsSafe memory_backend 30 4 journaled (flush_pending memory_backend 30 90 no_delete one_row).1
flush_pending-IsSafe_example =
    flush_pending-IsSafe memory_backend 30 90 no_delete one_row 4 journaled (refl, tt) refl
      (omega arith) (omega arith)

flush_pending_drains_example :
    let sql : Statements = record {
      expiry_executed = true;
      select_executed = true;
      delete_executed = true;
    } in
    let r = flush_pending memory_backend 30 90 sql one_row in (r.0 ≡ ok 0) × (r.1.outbox ≡ [])
flush_pending_drains_example =
    flush_pending_drains memory_backend 30 90 one_row (λ now jti ttl_secs s. refl) (omega arith)

abbrev display : ℕ → Text
display n = n ∷ []

display_injective : (a b : ℕ) → display a ≡ display b → a ≡ b
display_injective a b h = cc

-- The revocation is confirmed; the questions after it are lost on the way.
abbrev one_answer : RedisAccessTokenBlacklist table_redis display
one_answer = record {
  server = [];
  links = delivers ∷ elapses true ∷ fails false ∷ [];
  redis_error_count = 0;
}

is_revoked_while_example :
    (Redis.is_revoked table_redis display 50 4 (
      Redis.Lasting.run table_redis display
        (Redis.revoke table_redis display 20 4 60 one_answer).1
        (Redis.Lasting.asks 30 4 ∷ Redis.Lasting.revokes 40 5 9 ∷ []))).0
    ≢ ok false
unfolding Redis.revoke Redis.set_ex round_trip
is_revoked_while_example =
    is_revoked_while table_redis display display_injective 20 50 60 4 one_answer
      (Redis.Lasting.asks 30 4 ∷ Redis.Lasting.revokes 40 5 9 ∷ []) (omega arith) refl
      (omega arith, ((omega arith, λ h. absurd (omega (arith, h))), tt)) (omega arith)
