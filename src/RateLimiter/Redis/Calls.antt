-- ===== src/RateLimiter/Redis/Calls.antt =====
-- Histories of calls on the Redis limiter.
use app_home_services.Base.{ℕ, ◌≤◌, ◌≡◌, List, [], ◌∷◌}
use app_home_services.Base.Text.{Text}
use app_home_services.Net.Addr.{IpAddr}
use app_home_services.Redis.{Redis, delivers}
use app_home_services.RateLimiter.Redis.{
  Moment, RedisRateLimiter, check, record_attempt, try_check_and_record, remaining_attempts, reset,
}
use app_home_services.RateLimiter.FixedWindow.{
  Op, checks, records, tries, asks, resets, Answer, allowed, left_over, done,
}

abbrev pub Calls : Type 0
Calls = List (Op × Moment × IpAddr)

-- The calls with the instants at which the server executes them.
abbrev pub executed : Calls → List (Op × ℕ × IpAddr)
executed [] = []
executed ((op, t, ip) ∷ rest) = (op, t.at, ip) ∷ executed rest

-- Every round trip is answered, at instants that do not go back.
abbrev pub AreDelivered : ℕ → Calls → Type 0
AreDelivered now [] = Unit
AreDelivered now ((_, t, _) ∷ rest) = (now ≤ t.at) × (t.link ≡ delivers) × AreDelivered t.at rest

module _ (redis : Redis) (display : IpAddr → Text) where
  abbrev Limiter : Type 0
  Limiter = RedisRateLimiter redis display

  unfoldable pub step : Limiter → Op → Moment → IpAddr → Limiter × Answer
  step rl checks t ip = ((check redis display rl t ip).0, allowed (check redis display rl t ip).1)
  step rl records t ip = (record_attempt redis display rl t ip, done)
  step rl tries t ip = (
    (try_check_and_record redis display rl t ip).0,
    allowed (try_check_and_record redis display rl t ip).1,
  )
  step rl asks t ip = (
    (remaining_attempts redis display rl t ip).0,
    left_over (remaining_attempts redis display rl t ip).1,
  )
  step rl resets t ip = (reset redis display rl t ip, done)

  unfoldable pub run : Limiter → Calls → Limiter × List Answer
  run rl [] = (rl, [])
  run rl ((op, t, ip) ∷ rest) =
      let (rl', answer) = step rl op t ip in
      let (rl'', answers) = run rl' rest in (rl'', answer ∷ answers)
