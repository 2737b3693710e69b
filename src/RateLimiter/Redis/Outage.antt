-- ===== src/RateLimiter/Redis/Outage.antt =====
-- With no round trip answered, the Redis limiter is its in-memory shadow.
use app_home_services.Base.{
  ◌+◌, ◌%◌, ◌^◌, ◌<◌, ◌≡◌, ◌≢◌, refl, ap, ◌∙◌, List, [], ◌∷◌, length, arith, ◌⊎◌, inl, inr, Option,
}
use mathlib.Core.Path.{ap₂}
use app_home_services.Base.Text.{Text}
use app_home_services.Net.Addr.{IpAddr}
use app_home_services.Redis.{Redis, Link, delivers, fails, elapses, failed, elapsed, round_trip}
use app_home_services.RateLimiter.FixedWindow.{
  Op, checks, records, tries, asks, resets, Answer, allowed, left_over, done,
}
use app_home_services.RateLimiter.Memory
use app_home_services.RateLimiter.Memory.{MemoryRateLimiter}
use app_home_services.RateLimiter.Redis.{
  Moment, RedisRateLimiter, check, record_attempt, try_check_and_record, remaining_attempts, reset,
  check_outcome, record_outcome, try_outcome, remaining_outcome, reset_outcome, replay,
  record_redis_error, key, get_u32, delete, incr_with_expire_script, try_check_and_record_script,
}
use app_home_services.RateLimiter.Redis.Calls.{Calls, step, run}

-- No round trip is answered.
abbrev pub AreUnanswered : Calls → Type 0
AreUnanswered [] = Unit
AreUnanswered ((_, t, _) ∷ rest) = (t.link ≢ delivers) × AreUnanswered rest

-- A call on the shadow alone.
abbrev pub shadow_step : MemoryRateLimiter → Op → Moment → IpAddr → MemoryRateLimiter × Answer
shadow_step m checks t ip =
    ((Memory.check m t.swept t.now ip).0, allowed (Memory.check m t.swept t.now ip).1)
shadow_step m records t ip = (Memory.record_attempt m t.swept t.now ip, done)
shadow_step m tries t ip = (
  (Memory.try_check_and_record m t.swept t.now ip).0,
  allowed (Memory.try_check_and_record m t.swept t.now ip).1,
)
shadow_step m asks t ip = (m, left_over (Memory.remaining_attempts m t.now ip))
shadow_step m resets t ip = (Memory.reset m ip, done)

abbrev pub shadow_run : MemoryRateLimiter → Calls → MemoryRateLimiter × List Answer
shadow_run m [] = (m, [])
shadow_run m ((op, t, ip) ∷ rest) =
    let (m', answer) = shadow_step m op t ip in
    let (m'', answers) = shadow_run m' rest in (m'', answer ∷ answers)

unanswered {ℓ κ} :
    {A : Type ℓ} {S : Type κ} (link : Link) (command : S → Option A × S) (s : S)
    → link ≢ delivers
    → ((s' : S) × (round_trip link command s ≡ (failed, s')))
      ⊎ ((s' : S) × (round_trip link command s ≡ (elapsed, s')))
unfolding round_trip
unanswered delivers command s h = absurd (h refl)
unanswered (fails b) command s h = inl (_, refl)
unanswered (elapses b) command s h = inr (_, refl)

module _ (redis : Redis) (display : IpAddr → Text) where
  abbrev Limiter : Type 0
  Limiter = RedisRateLimiter redis display

  -- What both kinds of failure leave.
  abbrev FallsBack : Limiter → MemoryRateLimiter × Answer → Limiter × Answer → Type 0
  FallsBack rl (m, answer) (rl', answer') =
      (rl'.shadow ≡ m)
      × (answer' ≡ answer)
      × (rl'.redis_error_count ≡ (rl.redis_error_count + 1) % 2 ^ 64)

  step_unanswered :
      (op : Op) (t : Moment) (ip : IpAddr) (rl : Limiter)
      → t.link ≢ delivers
      → FallsBack rl (shadow_step rl.shadow op t ip) (step redis display rl op t ip)
  unfolding step check record_attempt try_check_and_record remaining_attempts reset replay
      record_redis_error
  step_unanswered checks t ip rl h =
      elim (unanswered t.link (get_u32 redis display t.at (key redis display rl.key_prefix ip))
        rl.server h) [
          | inl (s, e) ↦ rw (ap (check_outcome redis display rl t ip) e) (refl, refl, refl)
          | inr (s, e) ↦ rw (ap (check_outcome redis display rl t ip) e) (refl, refl, refl)
        ]
  step_unanswered records t ip rl h =
      elim (unanswered t.link
        (incr_with_expire_script redis display t.at (key redis display rl.key_prefix ip)
          rl.window_seconds)
        rl.server h) [
          | inl (s, e) ↦ rw (ap (record_outcome redis display rl t ip) e) (refl, refl, refl)
          | inr (s, e) ↦ rw (ap (record_outcome redis display rl t ip) e) (refl, refl, refl)
        ]
  step_unanswered tries t ip rl h =
      elim (unanswered t.link
        (try_check_and_record_script redis display t.at (key redis display rl.key_prefix ip)
          rl.window_seconds rl.max_attempts)
        rl.server h) [
          | inl (s, e) ↦ rw (ap (try_outcome redis display rl t ip) e) (refl, refl, refl)
          | inr (s, e) ↦ rw (ap (try_outcome redis display rl t ip) e) (refl, refl, refl)
        ]
  step_unanswered asks t ip rl h =
      elim (unanswered t.link (get_u32 redis display t.at (key redis display rl.key_prefix ip))
        rl.server h) [
          | inl (s, e) ↦ rw (ap (remaining_outcome redis display rl t ip) e) (refl, refl, refl)
          | inr (s, e) ↦ rw (ap (remaining_outcome redis display rl t ip) e) (refl, refl, refl)
        ]
  step_unanswered resets t ip rl h =
      elim (unanswered t.link (delete redis display t.at (key redis display rl.key_prefix ip))
        rl.server h) [
          | inl (s, e) ↦ rw (ap (reset_outcome redis display rl ip) e) (refl, refl, refl)
          | inr (s, e) ↦ rw (ap (reset_outcome redis display rl ip) e) (refl, refl, refl)
        ]

  -- Through an outage, in which no round trip is answered, the calls are answered as by the shadow
  -- alone, the shadow is left as they leave it, and each call is counted as an error (modulo 2^64).
  pub run-shadow_run :
      (calls : Calls) (rl : Limiter)
      → AreUnanswered calls
      → rl.redis_error_count < 2 ^ 64
      → ((run redis display rl calls).0.shadow ≡ (shadow_run rl.shadow calls).0)
        × ((run redis display rl calls).1 ≡ (shadow_run rl.shadow calls).1)
        × ((run redis display rl calls).0.redis_error_count
            ≡ (rl.redis_error_count + length calls) % 2 ^ 64)
  unfolding run
  run-shadow_run [] rl u h = (refl, refl, omega (arith, h))
  run-shadow_run ((op, t, ip) ∷ rest) rl u h =
      let (left, answer, errors) = step_unanswered op t ip rl u.0 in
      let (shadowed, answers, total) =
        run-shadow_run rest (step redis display rl op t ip).0 u.1 (omega (arith, errors)) in
      (
        shadowed ∙ ap (λ m. (shadow_run m rest).0) left,
        ap₂ ◌∷◌ answer (answers ∙ ap (λ m. (shadow_run m rest).1) left),
        omega (arith, errors, total),
      )
