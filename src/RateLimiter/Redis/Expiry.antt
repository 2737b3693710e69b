-- ===== src/RateLimiter/Redis/Expiry.antt =====
-- No counter is ever left without a deadline, whatever round trips fail.
use app_home_services.Base.{
  ℕ, subst, ◌+◌, ◌≤◌, ◌≡◌, refl, sym, Bool, true, false, Option, none, some, [], ◌∷◌, nat_beq, ◌==◌,
  if◌then◌else◌, arith, from_secs, Bool-cases, Option-cases, inl, inr,
}
use app_home_services.Base.Text.{Text, text_eq}
use app_home_services.Net.Addr.{IpAddr}
use app_home_services.Redis.{
  Redis, Item, item, live, live_later, value_of, incremented, expiring, Link, delivers, fails,
  elapses, Outcome, replied, failed, elapsed, round_trip,
}
use app_home_services.RateLimiter.FixedWindow.{Op, checks, records, tries, asks, resets}
use app_home_services.RateLimiter.Redis.{
  Moment, RedisRateLimiter, get_u32, delete, incr_with_expire_script, try_check_and_record_script,
  check, record_attempt, try_check_and_record, remaining_attempts, reset, check_outcome,
  record_outcome, try_outcome, remaining_outcome, reset_outcome, replay, record_redis_error,
}
use app_home_services.RateLimiter.Redis.Calls.{Calls, step, run}

-- What stands under a key has a deadline.
abbrev pub Expires : Option Item → Type 0
Expires none = Unit
Expires (some (item v none)) = ⊥
Expires (some (item v (some d))) = Unit

Expires-live : (now : ℕ) (x : Option Item) → Expires x → Expires (live now x)
Expires-live now none h = tt
Expires-live now (some (item v none)) h = elim h [ ]
Expires-live now (some (item v (some d))) h = ground arith

Expires-expiring : (now d : ℕ) (x : Option Item) → Expires (live now (expiring d x))
Expires-expiring now d none = tt
Expires-expiring now d (some (item v e)) = ground arith

-- A counter that is incremented past one has been there, with its deadline.
Expires-incremented :
    (x : Option Item) (n : ℕ)
    → Expires x
    → value_of (incremented x) ≡ some n
    → nat_beq n 1 ≡ false
    → Expires (incremented x)
Expires-incremented none n h e more = absurd (ground arith)
Expires-incremented (some (item v none)) n h e more = elim h [ ]
Expires-incremented (some (item v (some d))) n h e more = tt

Expires-if :
    (b : Bool) (x y : Option Item)
    → (b ≡ true → Expires x)
    → (b ≡ false → Expires y)
    → Expires (if b then x else y)
Expires-if true x y h k = h refl
Expires-if false x y h k = k refl

module _ (redis : Redis) (display : IpAddr → Text) where
  -- At the instant, every key that is there has a deadline.
  abbrev pub AllExpire : ℕ → redis.State → Type 0
  AllExpire now s = (j : Text) → Expires (live now (redis.stored j s))

  AllExpire-later :
      (now later : ℕ) (s : redis.State) → now ≤ later → AllExpire now s → AllExpire later s
  AllExpire-later now later s h expire j =
      subst Expires (live_later now later (redis.stored j s) h) (Expires-live later _ (expire j))

  script_expires :
      (at : ℕ) (k : Text) (secs : ℕ) (s : redis.State)
      → AllExpire at s
      → AllExpire at (incr_with_expire_script redis display at k secs s).1
  unfolding incr_with_expire_script
  script_expires at k secs s expire j = elim (Option-cases (redis.incr at k s).0) [
    | inl refused ↦
        rw (refused, incr_with_expire_script) (rw (redis.incr_refused at k j s refused) (expire j))
    | inr (n, e) ↦ elim (Bool-cases (nat_beq n 1)) [
      | inl first ↦
          rw (e, incr_with_expire_script, first)
            (rw (redis.expire_stores at k j secs (redis.incr at k s).1) (
              Expires-if (k == j) _ _ (λ _. Expires-expiring at (at + from_secs secs) _)
                λ other. rw (redis.incr_stores at k j s n e, other) (expire j)))
      | inr later ↦
          rw (e, incr_with_expire_script, later)
            (rw (redis.incr_stores at k j s n e) (
              Expires-if (k == j) _ _
                (λ _. Expires-incremented _ n (expire k) (redis.incr_counts at k s n e) later)
                λ _. expire j))
    ]
  ]

  try_script_state :
      (at : ℕ) (k : Text) (secs max_attempts : ℕ) (s : redis.State)
      → (try_check_and_record_script redis display at k secs max_attempts s).1
        ≡ (incr_with_expire_script redis display at k secs s).1
  unfolding incr_with_expire_script try_check_and_record_script
  try_script_state at k secs max_attempts s = elim (Option-cases (redis.incr at k s).0) [
    | inl refused ↦ rw (refused, incr_with_expire_script, try_check_and_record_script) refl
    | inr (n, e) ↦ rw (e, incr_with_expire_script, try_check_and_record_script) refl
  ]

  -- Executed or not, answered or not.
  trip_expires {ℓ} :
      {A : Type ℓ} (at : ℕ) (link : Link) (command : redis.State → Option A × redis.State)
      (s : redis.State)
      → AllExpire at s
      → AllExpire at (command s).1
      → AllExpire at (round_trip link command s).1
  unfolding round_trip
  trip_expires at delivers command s before after = after
  trip_expires at (fails true) command s before after = after
  trip_expires at (fails false) command s before after = before
  trip_expires at (elapses true) command s before after = after
  trip_expires at (elapses false) command s before after = before

  abbrev Limiter : Type 0
  Limiter = RedisRateLimiter redis display

  module _ (rl : Limiter) (t : Moment) (ip : IpAddr) where
    check_server :
        (o : Outcome (Option ℕ) × redis.State)
        → (check_outcome redis display rl t ip o).0.server ≡ o.1
    unfolding replay record_redis_error
    check_server (replied _, s) = refl
    check_server (failed, s) = refl
    check_server (elapsed, s) = refl

    record_server :
        (o : Outcome ℕ × redis.State) → (record_outcome redis display rl t ip o).server ≡ o.1
    unfolding replay record_redis_error
    record_server (replied _, s) = refl
    record_server (failed, s) = refl
    record_server (elapsed, s) = refl

    try_server :
        (o : Outcome ℕ × redis.State) → (try_outcome redis display rl t ip o).0.server ≡ o.1
    unfolding replay record_redis_error
    try_server (replied _, s) = refl
    try_server (failed, s) = refl
    try_server (elapsed, s) = refl

    remaining_server :
        (o : Outcome (Option ℕ) × redis.State)
        → (remaining_outcome redis display rl t ip o).0.server ≡ o.1
    unfolding replay record_redis_error
    remaining_server (replied _, s) = refl
    remaining_server (failed, s) = refl
    remaining_server (elapsed, s) = refl

    reset_server :
        (o : Outcome ℕ × redis.State) → (reset_outcome redis display rl ip o).server ≡ o.1
    unfolding record_redis_error
    reset_server (replied _, s) = refl
    reset_server (failed, s) = refl
    reset_server (elapsed, s) = refl

  read_expires :
      (at : ℕ) (k : Text) (s : redis.State)
      → AllExpire at s
      → AllExpire at (get_u32 redis display at k s).1
  unfolding get_u32
  read_expires at k s expire j = rw (redis.get_keeps at k j s) (expire j)

  delete_expires :
      (at : ℕ) (k : Text) (s : redis.State)
      → AllExpire at s
      → AllExpire at (delete redis display at k s).1
  unfolding delete
  delete_expires at k s expire j =
      rw (redis.del_stores at k j s) (Expires-if (k == j) _ _ (λ _. tt) λ _. expire j)

  -- A call keeps every key's deadline, whatever becomes of its round trip.
  step_expires :
      (op : Op) (t : Moment) (ip : IpAddr) (rl : Limiter)
      → AllExpire t.at rl.server
      → AllExpire t.at (step redis display rl op t ip).0.server
  unfolding step check record_attempt try_check_and_record remaining_attempts reset
  step_expires checks t ip rl h =
      subst (AllExpire t.at) (sym (check_server rl t ip _))
        (trip_expires t.at t.link _ rl.server h (read_expires t.at _ rl.server h))
  step_expires records t ip rl h =
      subst (AllExpire t.at) (sym (record_server rl t ip _))
        (trip_expires t.at t.link _ rl.server h (script_expires t.at _ _ rl.server h))
  step_expires tries t ip rl h = subst (AllExpire t.at) (sym (try_server rl t ip _)) (
      trip_expires t.at t.link _ rl.server h (
        subst (AllExpire t.at) (sym (try_script_state t.at _ _ _ rl.server))
          (script_expires t.at _ _ rl.server h)))
  step_expires asks t ip rl h =
      subst (AllExpire t.at) (sym (remaining_server rl t ip _))
        (trip_expires t.at t.link _ rl.server h (read_expires t.at _ rl.server h))
  step_expires resets t ip rl h =
      subst (AllExpire t.at) (sym (reset_server rl t ip _))
        (trip_expires t.at t.link _ rl.server h (delete_expires t.at _ rl.server h))

  -- The instants do not go back, and `ended` is not before them.
  abbrev pub AreOrdered : ℕ → ℕ → Calls → Type 0
  AreOrdered now ended [] = now ≤ ended
  AreOrdered now ended ((_, t, _) ∷ rest) = (now ≤ t.at) × AreOrdered t.at ended rest

  -- Through any calls, with any round trips failing or timing out (executed or not), at instants that
  -- do not go back, a server whose keys all have a deadline is left so.
  pub run-AllExpire :
      (calls : Calls) (now ended : ℕ) (rl : Limiter)
      → AreOrdered now ended calls
      → AllExpire now rl.server
      → AllExpire ended (run redis display rl calls).0.server
  unfolding run
  run-AllExpire [] now ended rl o h = AllExpire-later now ended rl.server o h
  run-AllExpire ((op, t, ip) ∷ rest) now ended rl o h =
      run-AllExpire rest t.at ended (step redis display rl op t ip).0 o.1
        (step_expires op t ip rl (AllExpire-later now t.at rl.server o.0 h))
