-- ===== src/RateLimiter/Redis/Tests.antt =====
-- The Redis limiter on a table, and its theorems at concrete inputs.
use app_home_services.Base.{ℕ, ◌+◌, ◌^◌, ◌%◌, ◌≡◌, refl, true, false, [], ◌∷◌, arith, none}
use app_home_services.Base.Text.{Text, text}
use app_home_services.Net.Addr.{IpAddr, v4, v6, ip_beq}
use app_home_services.Redis.{live, delivers, elapses}
use app_home_services.Redis.Sample.{table_redis}
use app_home_services.RateLimiter.FixedWindow
use app_home_services.RateLimiter.FixedWindow.{
  checks, records, tries, asks, resets, allowed, left_over, done,
}
use app_home_services.RateLimiter.Redis.{RedisRateLimiter, Moment, connect}
use app_home_services.RateLimiter.Redis.Calls.{Calls, run, executed}
use app_home_services.RateLimiter.Redis.Refine.{run-connect_refines}
use app_home_services.RateLimiter.Redis.Outage.{shadow_run, run-shadow_run}
use app_home_services.RateLimiter.Redis.Expiry.{Expires, run-AllExpire}

abbrev display : IpAddr → Text
display (v4 n) = 52 ∷ n ∷ []
display (v6 n) = 54 ∷ n ∷ []

display_injective : (a b : IpAddr) → display a ≡ display b → a ≡ b
display_injective (v4 m) (v4 n) h = cc
display_injective (v4 m) (v6 n) h = absurd (ground arith)
display_injective (v6 m) (v4 n) h = absurd (ground arith)
display_injective (v6 m) (v6 n) h = cc

abbrev answered : ℕ → Moment
answered at = record { at = at; link = delivers; swept = at; now = at }

abbrev lost : ℕ → Moment
lost at = record { at = at; link = elapses true; swept = at; now = at }

abbrev five_calls : Calls
five_calls =
    (tries, answered 1, v4 7)
    ∷ (records, answered 2, v4 7)
    ∷ (tries, answered 3, v4 7)
    ∷ (asks, answered 4, v6 7)
    ∷ (resets, answered 5, v4 7)
    ∷ (checks, answered 5, v4 7)
    ∷ []

abbrev lost_calls : Calls
lost_calls = (tries, lost 1, v4 7) ∷ (tries, lost 2, v4 7) ∷ (resets, lost 3, v4 7) ∷ []

abbrev connected : RedisRateLimiter table_redis display
connected = record {
  server = [];
  max_attempts = 2;
  window_seconds = 300;
  key_prefix = text "login";
  redis_error_count = 0;
  shadow = record { max_attempts = 2; window_duration = 300_000_000_000; entries = [] };
}

five_calls-run :
    FixedWindow.run 2 300 (λ _. none) (executed five_calls)
    ≡ allowed true ∷ done ∷ allowed false ∷ left_over 2 ∷ done ∷ allowed true ∷ []
unfolding FixedWindow.run FixedWindow.step ip_beq
five_calls-run = refl

run-connect_refines_example :
    (run table_redis display (connect table_redis display [] 2 300 (text "login")) five_calls).1
    ≡ FixedWindow.run 2 300 (λ _. none) (executed five_calls)
run-connect_refines_example =
    run-connect_refines table_redis display display_injective five_calls 0 2 300 (text "login") []
      (λ ip. refl) (omega arith) (omega arith)
      (
        omega arith,
        refl,
        (
          omega arith,
          refl,
          (omega arith, refl, (omega arith, refl, (omega arith, refl, (omega arith, refl, tt)))),
        ),
      )

run-shadow_run_example :
    ((run table_redis display connected lost_calls).0.shadow
      ≡ (shadow_run connected.shadow lost_calls).0)
    × ((run table_redis display connected lost_calls).1
        ≡ (shadow_run connected.shadow lost_calls).1)
    × ((run table_redis display connected lost_calls).0.redis_error_count ≡ (0 + 3) % 2 ^ 64)
run-shadow_run_example =
    run-shadow_run table_redis display lost_calls connected (λ h. cc, (λ h. cc, (λ h. cc, tt)))
      (omega arith)

run-AllExpire_example : Expires (
    live 9 (
      table_redis.stored
        (text "ratelimit:login:")
        (run table_redis display connected lost_calls).0.server))
run-AllExpire_example =
    run-AllExpire table_redis display lost_calls 0 9 connected (omega arith) (λ j. tt)
      (text "ratelimit:login:")
