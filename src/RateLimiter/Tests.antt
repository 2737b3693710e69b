-- ===== src/RateLimiter/Tests.antt =====
-- Runs of the limiters, and their theorems at concrete inputs.
use app_home_services.Base.{◌≡◌, refl, List, [], ◌∷◌, arith, min, ltb, from_secs}
use app_home_services.Net.Addr.{v4, v6, ip_beq}
use app_home_services.RateLimiter.Memory.{
  MemoryRateLimiter, clean_expired, make_room, evict_oldest_if_full, entry_or_new, spend, bump, new,
  check, try_check_and_record, remaining_attempts, run, records, tries, resets,
}
use app_home_services.RateLimiter.Memory.Capacity.{IsWellFormed, run-new-IsWellFormed}
use app_home_services.RateLimiter.Memory.Budget.{Try, admitted, tried, admitted-eq-min}
use app_home_services.RateLimiter.Memory.Agreement.{check_try_remaining}

-- Two tries in five minutes, as `RATE_LIMIT_MAX_ATTEMPTS=2`.
abbrev two_tries : MemoryRateLimiter
two_tries = record { max_attempts = 2; window_duration = from_secs 300; entries = [] }

two_tries-IsWellFormed : IsWellFormed two_tries.entries
two_tries-IsWellFormed = record { unique = tt; bounded = omega arith }

-- One address tries three times, another one once.
abbrev four_tries : List Try
four_tries = (1, 2, v4 7) ∷ (3, 3, v6 7) ∷ (5, 5, v4 7) ∷ (8, 9, v4 7) ∷ []

admitted_run : admitted (v4 7) two_tries four_tries ≡ 2
unfolding admitted try_check_and_record clean_expired make_room evict_oldest_if_full entry_or_new
    spend bump ip_beq
admitted_run = refl

run-new-IsWellFormed_example :
    IsWellFormed
      (run (new 2 300) (tries 1 2 (v4 7) ∷ records 3 3 (v6 7) ∷ resets (v4 7) ∷ [])).entries
run-new-IsWellFormed_example =
    run-new-IsWellFormed 2 300 (tries 1 2 (v4 7) ∷ records 3 3 (v6 7) ∷ resets (v4 7) ∷ [])

admitted-eq-min_example : admitted (v4 7) two_tries four_tries ≡ min 2 (tried (v4 7) four_tries)
admitted-eq-min_example =
    admitted-eq-min 1 (v4 7) two_tries four_tries (omega arith) (omega arith) two_tries-IsWellFormed
      (omega arith) (omega arith) refl

check_try_remaining_example :
    ((check two_tries 1 2 (v4 7)).1 ≡ ltb 0 (remaining_attempts two_tries 2 (v4 7)))
    × ((try_check_and_record two_tries 1 2 (v4 7)).1
        ≡ ltb 0 (remaining_attempts two_tries 2 (v4 7)))
check_try_remaining_example =
    check_try_remaining two_tries 1 2 (v4 7) two_tries-IsWellFormed (omega arith) (omega arith)
