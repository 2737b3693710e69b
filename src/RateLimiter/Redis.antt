-- ===== src/RateLimiter/Redis.antt =====
-- `RedisRateLimiter` (crates/infrastructure/src/rate_limiter/redis.rs) over any Redis server. A
-- method takes the instant at which the server executes its command, how the round trip goes, and
-- the readings of the clock that the in-memory shadow makes if it is asked.
pub mod Calls
pub mod Script
pub mod Counters
pub mod Delivered
pub mod Refine
pub mod Outage
pub mod Expiry
mod Tests
use app_home_services.Base.{
  ℕ, ◌+◌, ◌-◌, ◌%◌, ◌^◌, ◌≤◌, Bool, true, false, not, Option, none, some, List, [], ◌∷◌, ◌++◌, ltb,
  leb, nat_beq, if◌then◌else◌,
}
use app_home_services.Base.Text.{Text, text}
use app_home_services.Net.Addr.{IpAddr}
use app_home_services.Redis.{Redis, Link, Outcome, replied, failed, elapsed, round_trip}
use app_home_services.RateLimiter.Memory
use app_home_services.RateLimiter.Memory.{MemoryRateLimiter}

-- The readings that a call makes.
pub record Moment : Type 0 where
  pub at : ℕ
  pub link : Link
  pub swept : ℕ
  pub now : ℕ

-- `FromRedisValue` for `Option<u32>`: a larger integer is an error.
abbrev pub as_u32 : Option ℕ → Option (Option ℕ)
as_u32 none = some none
as_u32 (some n) = if ltb n (2 ^ 32) then some (some n) else none

-- `format!` of an address is the parameter `display`.
module _ (redis : Redis) (display : IpAddr → Text) where
  pub record RedisRateLimiter : Type 0 where
    pub server : redis.State
    pub max_attempts : ℕ
    pub window_seconds : ℕ
    pub key_prefix : Text
    pub redis_error_count : ℕ
    pub shadow : MemoryRateLimiter

  -- `connect`, when both round trips are answered.
  unfoldable pub connect : redis.State → ℕ → ℕ → Text → RedisRateLimiter
  connect server max_attempts window_seconds key_prefix = record {
    server = server;
    max_attempts = max_attempts;
    window_seconds = window_seconds;
    key_prefix = key_prefix;
    redis_error_count = 0;
    shadow = Memory.new max_attempts window_seconds;
  }

  unfoldable pub key : Text → IpAddr → Text
  key key_prefix ip = text "ratelimit:" ++ (key_prefix ++ (text ":" ++ display ip))

  -- `INCR_WITH_EXPIRE_SCRIPT`
  unfoldable pub incr_with_expire_script : ℕ → Text → ℕ → redis.State → Option ℕ × redis.State
  incr_with_expire_script at k secs s =
      let (current, s') = redis.incr at k s in
      elim current [
        | none ↦ (none, s')
        | some n ↦ (some n, if nat_beq n 1 then redis.expire at k secs s' else s')
      ]

  -- `TRY_CHECK_AND_RECORD_SCRIPT`
  unfoldable pub try_check_and_record_script :
      ℕ → Text → ℕ → ℕ → redis.State → Option ℕ × redis.State
  try_check_and_record_script at k secs max_attempts s =
      let (current, s') = redis.incr at k s in
      elim current [
        | none ↦ (none, s')
        | some n ↦ (
          some (if leb n max_attempts then 1 else 0),
          if nat_beq n 1 then redis.expire at k secs s' else s',
        )
      ]

  -- `conn.get::<_, Option<u32>>`
  unfoldable pub get_u32 : ℕ → Text → redis.State → Option (Option ℕ) × redis.State
  get_u32 at k s = (as_u32 (redis.get at k s).0, (redis.get at k s).1)

  -- `conn.del::<_, i64>`
  unfoldable pub delete : ℕ → Text → redis.State → Option ℕ × redis.State
  delete at k s = (some (redis.del at k s).0, (redis.del at k s).1)

  -- `record_redis_error`: the counter of 64 bits wraps.
  unfoldable pub record_redis_error : RedisRateLimiter → RedisRateLimiter
  record_redis_error rl = record rl { redis_error_count = (rl.redis_error_count + 1) % 2 ^ 64 }

  abbrev pub with_server : RedisRateLimiter → redis.State → RedisRateLimiter
  with_server rl s = record rl { server = s }

  -- The arms of an error and of a timeout: the call is counted, and replayed on the shadow.
  unfoldable pub replay {ℓ} :
      {A : Type ℓ}
      → RedisRateLimiter
      → (MemoryRateLimiter → MemoryRateLimiter × A)
      → RedisRateLimiter × A
  replay rl call =
      let counted = record_redis_error rl in
      (record counted { shadow = (call rl.shadow).0 }, (call rl.shadow).1)

  abbrev pub admits : ℕ → Option ℕ → Bool
  admits max_attempts none = true
  admits max_attempts (some count) = ltb count max_attempts

  abbrev pub rest_of : ℕ → Option ℕ → ℕ
  rest_of max_attempts none = max_attempts
  rest_of max_attempts (some count) = max_attempts - count

  -- What a method does with the outcome of its round trip.
  abbrev pub check_outcome :
      RedisRateLimiter
      → Moment
      → IpAddr
      → Outcome (Option ℕ) × redis.State
      → RedisRateLimiter × Bool
  check_outcome rl t ip (replied count, s) = (with_server rl s, admits rl.max_attempts count)
  check_outcome rl t ip (failed, s) =
      replay (with_server rl s) (λ shadow. Memory.check shadow t.swept t.now ip)
  check_outcome rl t ip (elapsed, s) =
      replay (with_server rl s) (λ shadow. Memory.check shadow t.swept t.now ip)

  unfoldable pub check : RedisRateLimiter → Moment → IpAddr → RedisRateLimiter × Bool
  check rl t ip =
      check_outcome rl t ip (round_trip t.link (get_u32 t.at (key rl.key_prefix ip)) rl.server)

  abbrev pub shadow_record : Moment → IpAddr → MemoryRateLimiter → MemoryRateLimiter × Unit {0}
  shadow_record t ip shadow = (Memory.record_attempt shadow t.swept t.now ip, tt)

  abbrev pub record_outcome :
      RedisRateLimiter → Moment → IpAddr → Outcome ℕ × redis.State → RedisRateLimiter
  record_outcome rl t ip (replied _, s) = with_server rl s
  record_outcome rl t ip (failed, s) = (replay (with_server rl s) (shadow_record t ip)).0
  record_outcome rl t ip (elapsed, s) = (replay (with_server rl s) (shadow_record t ip)).0

  unfoldable pub record_attempt : RedisRateLimiter → Moment → IpAddr → RedisRateLimiter
  record_attempt rl t ip = record_outcome rl t ip (
      round_trip t.link (incr_with_expire_script t.at (key rl.key_prefix ip) rl.window_seconds)
        rl.server)

  abbrev pub try_outcome :
      RedisRateLimiter → Moment → IpAddr → Outcome ℕ × redis.State → RedisRateLimiter × Bool
  try_outcome rl t ip (replied answer, s) = (with_server rl s, not (nat_beq answer 0))
  try_outcome rl t ip (failed, s) =
      replay (with_server rl s) (λ shadow. Memory.try_check_and_record shadow t.swept t.now ip)
  try_outcome rl t ip (elapsed, s) =
      replay (with_server rl s) (λ shadow. Memory.try_check_and_record shadow t.swept t.now ip)

  unfoldable pub try_check_and_record : RedisRateLimiter → Moment → IpAddr → RedisRateLimiter × Bool
  try_check_and_record rl t ip = try_outcome rl t ip (
      round_trip t.link
        (try_check_and_record_script t.at (key rl.key_prefix ip) rl.window_seconds rl.max_attempts)
        rl.server)

  abbrev pub shadow_rest : Moment → IpAddr → MemoryRateLimiter → MemoryRateLimiter × ℕ
  shadow_rest t ip shadow = (shadow, Memory.remaining_attempts shadow t.now ip)

  abbrev pub remaining_outcome :
      RedisRateLimiter → Moment → IpAddr → Outcome (Option ℕ) × redis.State → RedisRateLimiter × ℕ
  remaining_outcome rl t ip (replied count, s) = (with_server rl s, rest_of rl.max_attempts count)
  remaining_outcome rl t ip (failed, s) = replay (with_server rl s) (shadow_rest t ip)
  remaining_outcome rl t ip (elapsed, s) = replay (with_server rl s) (shadow_rest t ip)

  unfoldable pub remaining_attempts : RedisRateLimiter → Moment → IpAddr → RedisRateLimiter × ℕ
  remaining_attempts rl t ip =
      remaining_outcome rl t ip (round_trip t.link (get_u32 t.at (key rl.key_prefix ip)) rl.server)

  abbrev pub clear_shadow : IpAddr → RedisRateLimiter → RedisRateLimiter
  clear_shadow ip rl = record rl { shadow = Memory.reset rl.shadow ip }

  -- The shadow is cleared whatever became of the DEL.
  abbrev pub reset_outcome : RedisRateLimiter → IpAddr → Outcome ℕ × redis.State → RedisRateLimiter
  reset_outcome rl ip (replied _, s) = clear_shadow ip (with_server rl s)
  reset_outcome rl ip (failed, s) = clear_shadow ip (record_redis_error (with_server rl s))
  reset_outcome rl ip (elapsed, s) = clear_shadow ip (record_redis_error (with_server rl s))

  unfoldable pub reset : RedisRateLimiter → Moment → IpAddr → RedisRateLimiter
  reset rl t ip =
      reset_outcome rl ip (round_trip t.link (delete t.at (key rl.key_prefix ip)) rl.server)
