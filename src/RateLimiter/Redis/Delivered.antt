-- ===== src/RateLimiter/Redis/Delivered.antt =====
-- What a call of each method comes to, when it is answered.
use app_home_services.Base.{
  ℕ, Option, ◌≡◌, refl, ◌∙◌, ap, some, leb, arith, if◌then◌else◌, not, nat_beq,
}
use app_home_services.Base.Text.{Text, text_eq}
use app_home_services.Net.Addr.{IpAddr, ip_eq}
use app_home_services.Redis.{Redis, delivers, delivered}
use app_home_services.RateLimiter.Redis.{
  Moment, RedisRateLimiter, key, get_u32, delete, incr_with_expire_script, check, record_attempt,
  try_check_and_record, remaining_attempts, reset, admits, rest_of, with_server, check_outcome,
  remaining_outcome, record_outcome, try_outcome, reset_outcome, clear_shadow,
}
use app_home_services.RateLimiter.Redis.Script.{try_script_lem}

module _ (redis : Redis) (display : IpAddr → Text) where
  abbrev Limiter : Type 0
  Limiter = RedisRateLimiter redis display

  answer_lem : (n m : ℕ) → not (nat_beq (if leb n m then 1 else 0) 0) ≡ leb n m
  answer_lem n m = ground arith

  module _ (rl : Limiter) (t : Moment) (ip : IpAddr) (d : t.link ≡ delivers) where
    abbrev pub the_key : Text
    the_key = key redis display rl.key_prefix ip

    abbrev pub counted : Option ℕ × redis.State
    counted = incr_with_expire_script redis display t.at the_key rl.window_seconds rl.server

    -- What a call of each method comes to, when it is answered.
    pub check_lem :
        (c : Option ℕ)
        → (get_u32 redis display t.at the_key rl.server).0 ≡ some c
        → check redis display rl t ip ≡ (
          with_server redis display rl (get_u32 redis display t.at the_key rl.server).1,
          admits redis display rl.max_attempts c,
        )
    unfolding check
    check_lem c reply =
        ap (check_outcome redis display rl t ip) (delivered t.link _ rl.server c d reply)

    pub remaining_attempts_lem :
        (c : Option ℕ)
        → (get_u32 redis display t.at the_key rl.server).0 ≡ some c
        → remaining_attempts redis display rl t ip ≡ (
          with_server redis display rl (get_u32 redis display t.at the_key rl.server).1,
          rest_of redis display rl.max_attempts c,
        )
    unfolding remaining_attempts
    remaining_attempts_lem c reply =
        ap (remaining_outcome redis display rl t ip) (delivered t.link _ rl.server c d reply)

    pub record_attempt_lem :
        (n : ℕ)
        → counted.0 ≡ some n
        → record_attempt redis display rl t ip ≡ with_server redis display rl counted.1
    unfolding record_attempt
    record_attempt_lem n reply =
        ap (record_outcome redis display rl t ip) (delivered t.link _ rl.server n d reply)

    pub try_check_and_record_lem :
        (n : ℕ)
        → counted.0 ≡ some n
        → try_check_and_record redis display rl t ip
          ≡ (with_server redis display rl counted.1, leb n rl.max_attempts)
    unfolding try_check_and_record
    try_check_and_record_lem n reply =
        let same =
          try_script_lem redis display t.at the_key rl.window_seconds rl.max_attempts rl.server n
            reply in
        ap (try_outcome redis display rl t ip) (
          delivered t.link _ rl.server (if leb n rl.max_attempts then 1 else 0) d
            (ap (λ p. p.0) same))
        ∙ rw same
            (ap (λ b. (with_server redis display rl counted.1, b)) (answer_lem n rl.max_attempts))

    pub reset_lem :
        reset redis display rl t ip
        ≡ clear_shadow redis display ip
            (with_server redis display rl (delete redis display t.at the_key rl.server).1)
    unfolding reset delete
    reset_lem = ap (reset_outcome redis display rl ip) (delivered t.link _ rl.server _ d refl)
