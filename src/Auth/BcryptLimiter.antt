-- ===== src/Auth/BcryptLimiter.antt =====
-- `BcryptLimiter` (crates/auth/src/domain/services/bcrypt_task.rs): a semaphore that tokio serves in
-- the order of arrival, and the blocking tasks that hold its permits. A task ends with its value, or
-- by a panic or a cancellation; either way its permit comes back. A call whose caller goes away while
-- it waits leaves the queue; later, its task runs on to its end, and nobody reads the answer.
pub mod Progress
mod Tests
use app_home_services.Base.{
  ℕ, zero, suc, ◌+◌, ◌≡◌, max, Option, none, some, List, [], ◌∷◌, ◌++◌, Uuid,
}
use app_home_services.Base.Text.{Text, text}
use app_home_services.Base.Outcome.{Result, ok, err}
use app_home_services.Auth.Entities.{AuthError, internal_error}

-- A call of `run_bounded`, by a number, with what its task comes to: a value, or the text of the
-- `JoinError`.
pub record Task : Type 0 where
  pub call : Uuid
  pub outcome : Result ℕ Text

pub record BcryptLimiter : Type 0 where
  pub permits : ℕ
  pub waiting : List Task
  pub running : List Task
  pub answered : List (Uuid × Result ℕ AuthError)

-- `BcryptLimiter::new`
unfoldable pub new : ℕ → BcryptLimiter
new max_concurrent = record {
  permits = max max_concurrent 1;
  waiting = [];
  running = [];
  answered = [];
}

-- What `run_bounded` returns when its task is over.
abbrev pub returned : Result ℕ Text → Result ℕ AuthError
returned (ok value) = ok value
returned (err e) = err (internal_error (text "bcrypt task failed to complete: " ++ e))

-- A call gets a permit and starts its task; a task ends, drops its permit, and answers its call.
pub data Service : BcryptLimiter → BcryptLimiter → Type 0 where
  starts :
      (task : Task) (permits : ℕ) (waiting running : List Task)
      (answered : List (Uuid × Result ℕ AuthError))
      → Service
          (record {
            permits = permits + 1;
            waiting = task ∷ waiting;
            running = running;
            answered = answered;
          })
          (record {
            permits = permits;
            waiting = waiting;
            running = task ∷ running;
            answered = answered;
          })
  ends :
      (task : Task) (permits : ℕ) (waiting before after : List Task)
      (answered : List (Uuid × Result ℕ AuthError))
      → Service
          (record {
            permits = permits;
            waiting = waiting;
            running = before ++ (task ∷ after);
            answered = answered;
          })
          (record {
            permits = permits + 1;
            waiting = waiting;
            running = before ++ after;
            answered = (task.call, returned task.outcome) ∷ answered;
          })

-- A call comes in, at the end of the queue.
unfoldable pub arrive : Task → BcryptLimiter → BcryptLimiter
arrive task l = record l { waiting = l.waiting ++ (task ∷ []) }

pub data Reach (s : BcryptLimiter) : BcryptLimiter → Type 0 where
  here : Reach s s
  gives_up :
      (task : Task) (permits : ℕ) (before after running : List Task)
      (answered : List (Uuid × Result ℕ AuthError))
      → Reach s (record {
        permits = permits;
        waiting = before ++ task ∷ after;
        running = running;
        answered = answered;
      })
      → Reach s (record {
        permits = permits;
        waiting = before ++ after;
        running = running;
        answered = answered;
      })
  arrives : {t : BcryptLimiter} (task : Task) → Reach s t → Reach s (arrive task t)
  serves : {t u : BcryptLimiter} → Reach s t → Service t u → Reach s u

-- So many steps of service, one after the other.
pub data Serves : BcryptLimiter → BcryptLimiter → ℕ → Type 0 where
  idle : {s : BcryptLimiter} → Serves s s 0
  works : {s t u : BcryptLimiter} {n : ℕ} → Service s t → Serves t u n → Serves s u (suc n)
