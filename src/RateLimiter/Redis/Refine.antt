-- ===== src/RateLimiter/Redis/Refine.antt =====
-- With every round trip answered, the Redis limiter is the fixed-window limiter.
use app_home_services.Base.{ℕ, ◌+◌, ◌^◌, ◌<◌, ◌≡◌, refl, ap, none, [], ◌∷◌, length, arith}
use mathlib.Core.Path.{ap₂}
use app_home_services.Base.Text.{Text, text_eq}
use app_home_services.Net.Addr.{IpAddr, ip_eq}
use app_home_services.Redis.{Redis, live, delivers}
use app_home_services.RateLimiter.FixedWindow
use app_home_services.RateLimiter.FixedWindow.{
  Window, window, Windows, Op, checks, records, tries, asks, resets, spent, recorded, Answer,
  allowed, left_over, done, update,
}
use app_home_services.RateLimiter.Redis.{Moment, RedisRateLimiter, key, connect}
use app_home_services.RateLimiter.Redis.Calls.{step, run, executed, AreDelivered, Calls}
use app_home_services.RateLimiter.Redis.Script.{
  Shows, IsBelow, Shows-later, admits_lem, rest_of_lem,
}
use app_home_services.RateLimiter.Redis.Counters.{
  read_lem, read-Shows, script_lem, reset-Shows, reset-IsBelow, IsBelow-update, IsBelow-less,
}
use app_home_services.RateLimiter.Redis.Delivered.{
  check_lem, remaining_attempts_lem, record_attempt_lem, try_check_and_record_lem, reset_lem,
}

module _ (redis : Redis) (display : IpAddr → Text)
    (display_injective : (a b : IpAddr) → display a ≡ display b → a ≡ b) where
  abbrev Limiter : Type 0
  Limiter = RedisRateLimiter redis display

  -- The limiter shows the windows, and works with the budget and the length given.
  pub record Refines (now n budget secs : ℕ) (rl : Limiter) (w : Windows) : Type 0 where
    pub shows : Shows redis display now rl.key_prefix rl.server w
    pub below : IsBelow redis display n w
    pub budgeted : rl.max_attempts ≡ budget
    pub lasting : rl.window_seconds ≡ secs

  -- A call that is answered answers as the windows do.
  step-Refines :
      (op : Op) (t : Moment) (ip : IpAddr) (n budget secs : ℕ) (rl : Limiter) (w : Windows)
      → t.link ≡ delivers
      → 0 < budget
      → Refines t.at (n + 1) budget secs rl w
      → Refines t.at n budget secs
          (step redis display rl op t ip).0
          (FixedWindow.step budget secs w op t.at ip).0
        × ((step redis display rl op t ip).1 ≡ (FixedWindow.step budget secs w op t.at ip).1)
  unfolding step FixedWindow.step
  step-Refines checks t ip n budget secs rl w d pos r =
      let reply =
        read_lem redis display display_injective t.at rl.key_prefix rl.server w ip r.shows
          (omega (arith, r.below ip)) in
      let e = check_lem redis display rl t ip d _ reply in
      (
        rw e record {
          shows =
              read-Shows redis display display_injective t.at rl.key_prefix rl.server w ip r.shows;
          below = IsBelow-less redis display n w r.below;
          budgeted = r.budgeted;
          lasting = r.lasting;
        },
        rw (e, r.budgeted) (ap allowed (admits_lem redis display t.at budget (w ip) pos)),
      )
  step-Refines asks t ip n budget secs rl w d pos r =
      let reply =
        read_lem redis display display_injective t.at rl.key_prefix rl.server w ip r.shows
          (omega (arith, r.below ip)) in
      let e = remaining_attempts_lem redis display rl t ip d _ reply in
      (
        rw e record {
          shows =
              read-Shows redis display display_injective t.at rl.key_prefix rl.server w ip r.shows;
          below = IsBelow-less redis display n w r.below;
          budgeted = r.budgeted;
          lasting = r.lasting;
        },
        rw (e, r.budgeted) (ap left_over (rest_of_lem redis display t.at budget (w ip))),
      )
  step-Refines records t ip n budget secs rl w d pos r =
      let (reply, shows) =
        script_lem redis display display_injective t.at rl.key_prefix rl.window_seconds rl.server w
          ip r.shows (omega (arith, r.below ip)) in
      (
        rw (record_attempt_lem redis display rl t ip d _ reply) record {
          shows = rw (← r.lasting) shows;
          below = IsBelow-update redis display t.at secs n w ip r.below;
          budgeted = r.budgeted;
          lasting = r.lasting;
        },
        refl,
      )
  step-Refines tries t ip n budget secs rl w d pos r =
      let (reply, shows) =
        script_lem redis display display_injective t.at rl.key_prefix rl.window_seconds rl.server w
          ip r.shows (omega (arith, r.below ip)) in
      let e = try_check_and_record_lem redis display rl t ip d _ reply in
      (
        rw e record {
          shows = rw (← r.lasting) shows;
          below = IsBelow-update redis display t.at secs n w ip r.below;
          budgeted = r.budgeted;
          lasting = r.lasting;
        },
        rw (e, r.budgeted) refl,
      )
  step-Refines resets t ip n budget secs rl w d pos r = (
    rw (reset_lem redis display rl t ip d) record {
      shows = reset-Shows redis display display_injective t.at rl.key_prefix rl.server w ip r.shows;
      below = reset-IsBelow redis display n w ip r.below;
      budgeted = r.budgeted;
      lasting = r.lasting;
    },
    refl,
  )

  -- A history of calls.
  run-Refines :
      (calls : Calls) (now budget secs : ℕ) (rl : Limiter) (w : Windows)
      → 0 < budget
      → AreDelivered now calls
      → Refines now (length calls) budget secs rl w
      → (run redis display rl calls).1 ≡ FixedWindow.run budget secs w (executed calls)
  unfolding run FixedWindow.run
  run-Refines [] now budget secs rl w pos d r = refl
  run-Refines ((op, t, ip) ∷ rest) now budget secs rl w pos d r =
      let shown : Refines t.at (length rest + 1) budget secs rl w = record {
        shows = Shows-later redis display now t.at rl.key_prefix rl.server w d.0 r.shows;
        below = λ j. omega (arith, r.below j);
        budgeted = r.budgeted;
        lasting = r.lasting;
      } in
      let (r', answer) = step-Refines op t ip (length rest) budget secs rl w d.1 pos shown in
      ap₂ ◌∷◌ answer (run-Refines rest t.at budget secs _ _ pos d.2 r')

  -- From a limiter that has just connected to a server with no counter of its prefix, the calls are
  -- answered as by the fixed-window limiter: the round trips are all answered, at instants that do
  -- not go back, the budget is positive, and the calls are fewer than 2^32.
  pub run-connect_refines :
      (calls : Calls) (now max_attempts window_seconds : ℕ) (key_prefix : Text) (s : redis.State)
      → ((ip : IpAddr) → live now (redis.stored (key redis display key_prefix ip) s) ≡ none)
      → 0 < max_attempts
      → length calls < 2 ^ 32
      → AreDelivered now calls
      → (run redis display (connect redis display s max_attempts window_seconds key_prefix) calls).1
        ≡ FixedWindow.run max_attempts window_seconds (λ _. none) (executed calls)
  unfolding connect
  run-connect_refines calls now max_attempts window_seconds key_prefix s none_stored pos few d =
      run-Refines calls now max_attempts window_seconds
        (connect redis display s max_attempts window_seconds key_prefix) (λ _. none) pos d
        record {
          shows = none_stored;
          below = λ j. omega (arith, few);
          budgeted = refl;
          lasting = refl;
        }
