-- ===== src/Auth/BcryptLimiter/Tests.antt =====
-- The semaphore with one permit and two calls, one of which panics.
use app_home_services.Base.{◌+◌, ◌*◌, ◌≡◌, max, [], ◌∷◌, arith}
use app_home_services.Base.Text.{text}
use app_home_services.Base.Outcome.{ok, err}
use app_home_services.Auth.Entities.{internal_error}
use app_home_services.Auth.BcryptLimiter.{
  Task, BcryptLimiter, new, arrive, Service, starts, ends, Reach, here, arrives, serves, Serves,
  idle, works,
}
use app_home_services.Auth.BcryptLimiter.Progress.{
  IsBounded, Reach-IsBounded, service_completes, IsFinished, Service-finishes, Service-less,
}

abbrev first : Task
first = record { call = 1; outcome = ok 7 }

abbrev second : Task
second = record { call = 2; outcome = err (text "task 2 panicked") }

abbrev busy : BcryptLimiter
busy = record { permits = 0; waiting = second ∷ []; running = first ∷ []; answered = [] }

busy-Reach : Reach (new 0) busy
unfolding new arrive
busy-Reach = arrives second (serves (arrives first here) (starts first 0 [] [] []))

Reach-IsBounded_example : IsBounded (max 0 1) busy
Reach-IsBounded_example = Reach-IsBounded 0 busy busy-Reach

service_completes_example : (ended : BcryptLimiter) × Serves busy ended 3 × IsFinished 0 busy ended
service_completes_example = service_completes 0 busy busy-Reach

abbrev quiet : BcryptLimiter
quiet = record {
  permits = 1;
  waiting = [];
  running = [];
  answered =
      (2, err (internal_error (text "bcrypt task failed to complete: task 2 panicked")))
      ∷ ((1, ok 7) ∷ []);
}

busy-quiet : Serves busy quiet 3
busy-quiet = works (ends first 0 (second ∷ []) [] [] []) (
    works (starts second 0 [] [] ((1, ok 7) ∷ []))
      (works (ends second 0 [] [] [] ((1, ok 7) ∷ [])) idle))

-- Nothing is left of which a step could be taken.
quiet_stuck : (t : BcryptLimiter) → ¬ Service quiet t
quiet_stuck t st = absurd (omega (arith, Service-less st))

Service-finishes_example : (3 ≡ 2 * 1 + 1) × IsFinished 0 busy quiet
Service-finishes_example = Service-finishes 0 3 busy quiet busy-Reach busy-quiet quiet_stuck
