-- ===== src/Auth/BcryptLimiter/Progress.antt =====
-- No more tasks run than there are permits, no permit is lost, and every call is answered.
use app_home_services.Base.{
  ℕ, zero, suc, ◌+◌, ◌*◌, ◌<◌, ◌≡◌, ap, ◌∙◌, refl, subst, max, List, map, ◌++◌, [], ◌∷◌, length,
  Uuid, arith, length-append,
}
use mathlib.Core.List.{Perm, perm_middle}
use mathlib.Core.List.Perm
use native.Mathlib.Decide.{dec_lt}
use app_home_services.Base.Outcome.{Result}
use app_home_services.Auth.Entities.{AuthError}
use app_home_services.Auth.BcryptLimiter.{
  Task, returned, BcryptLimiter, new, arrive, Service, starts, ends, Reach, here, gives_up, arrives,
  serves, Serves, idle, works,
}

-- The permits that are free and those that are held are all there.
abbrev pub IsBounded : ℕ → BcryptLimiter → Type 0
IsBounded capacity l = l.permits + length l.running ≡ capacity

Service-IsBounded :
    {s t : BcryptLimiter} (capacity : ℕ) → Service s t → IsBounded capacity s → IsBounded capacity t
Service-IsBounded capacity (starts task p w r a) h = omega (arith, h)
Service-IsBounded capacity (ends task p w before after a) h =
    omega (arith, h, length-append before (task ∷ after), length-append before after)

-- In every state that a limiter can reach, the free permits and the running tasks are together as many
-- as the permits at the start: no permit is lost to a panic, and no more tasks run at once.
pub Reach-IsBounded :
    (max_concurrent : ℕ) (l : BcryptLimiter)
    → Reach (new max_concurrent) l
    → IsBounded (max max_concurrent 1) l
unfolding new arrive
Reach-IsBounded max_concurrent _ here = omega arith
Reach-IsBounded max_concurrent _ (gives_up task p before after running answered r) =
    Reach-IsBounded max_concurrent _ r
Reach-IsBounded max_concurrent _ (arrives task r) = Reach-IsBounded max_concurrent _ r
Reach-IsBounded max_concurrent _ (serves r st) =
    Service-IsBounded (max max_concurrent 1) st (Reach-IsBounded max_concurrent _ r)

-- A call that waits has to start and to end.
abbrev pub left_to_do : BcryptLimiter → ℕ
left_to_do l = 2 * length l.waiting + length l.running

pub Service-less : {s t : BcryptLimiter} → Service s t → left_to_do t + 1 ≡ left_to_do s
Service-less (starts task p w r a) = omega arith
Service-less (ends task p w before after a) =
    omega (arith, length-append before (task ∷ after), length-append before after)

Serves-IsBounded :
    {s t : BcryptLimiter} {n : ℕ} (capacity : ℕ)
    → Serves s t n
    → IsBounded capacity s
    → IsBounded capacity t
Serves-IsBounded capacity idle h = h
Serves-IsBounded capacity (works st rest) h =
    Serves-IsBounded capacity rest (Service-IsBounded capacity st h)

Serves-less : {s t : BcryptLimiter} {n : ℕ} → Serves s t n → n + left_to_do t ≡ left_to_do s
Serves-less idle = omega arith
Serves-less (works st rest) = omega (arith, Service-less st, Serves-less rest)

-- As long as something is left to do, a step of service can be taken.
can_serve :
    (p : ℕ) (waiting running : List Task) (answered : List (Uuid × Result ℕ AuthError))
    → 0 < p + length running
    → 0 < 2 * length waiting + length running
    → (t : BcryptLimiter) × Service
        (record { permits = p; waiting = waiting; running = running; answered = answered })
        t
can_serve p w (task ∷ r) a h some_left = (_, ends task p w [] r a)
can_serve zero [] [] a h some_left = absurd (omega (arith, h))
can_serve zero (task ∷ w) [] a h some_left = absurd (omega (arith, h))
can_serve (suc p) [] [] a h some_left = absurd (omega (arith, some_left))
can_serve (suc p) (task ∷ w) [] a h some_left =
    let e : p + 1 ≡ suc p = omega arith in
    (
      _,
      subst
          (λ q.
            Service (record { permits = q; waiting = task ∷ w; running = []; answered = a })
              (record { permits = p; waiting = w; running = task ∷ []; answered = a }))
          e (starts task p w [] a),
    )

-- What a call is to be answered.
abbrev pub answer_to : Task → Uuid × Result ℕ AuthError
answer_to task = (task.call, returned task.outcome)

-- The answers that there are, with those to come.
abbrev pub all_answers : BcryptLimiter → List (Uuid × Result ℕ AuthError)
all_answers l = map answer_to (l.waiting ++ l.running) ++ l.answered

Service-answers : {s t : BcryptLimiter} → Service s t → Perm (all_answers t) (all_answers s)
Service-answers (starts task p w r a) = Perm.append_right a (Perm.map answer_to (perm_middle w r))
Service-answers (ends task p w before after a) =
    Perm.trans (perm_middle (map answer_to (w ++ (before ++ after))) a) (
      Perm.append_right a (
        Perm.map answer_to (
          Perm.symm (
            Perm.trans (Perm.append_left w (perm_middle before after))
              (perm_middle w (before ++ after))))))

Serves-answers : {s t : BcryptLimiter} {n : ℕ} → Serves s t n → Perm (all_answers t) (all_answers s)
Serves-answers idle = Perm.rfl
Serves-answers (works st rest) = Perm.trans (Serves-answers rest) (Service-answers st)

-- Nothing is left to do: no call waits or runs, every permit is back, and each call has been answered
-- with the outcome of its own task.
abbrev pub IsFinished : ℕ → BcryptLimiter → BcryptLimiter → Type 0
IsFinished max_concurrent l ended =
    (ended.waiting ≡ [])
    × (ended.running ≡ [])
    × (ended.permits ≡ max max_concurrent 1)
    × Perm (ended.answered) (map answer_to (l.waiting ++ l.running) ++ l.answered)

empty_list : (ts : List Task) → length ts ≡ 0 → ts ≡ []
empty_list [] h = refl
empty_list (t ∷ ts) h = absurd (omega (arith, h))

finished :
    (max_concurrent : ℕ) {steps : ℕ} (l ended : BcryptLimiter)
    → IsBounded (max max_concurrent 1) ended
    → Serves l ended steps
    → left_to_do ended ≡ 0
    → IsFinished max_concurrent l ended
finished max_concurrent l ended still st over =
    let none_waits : ended.waiting ≡ [] = empty_list ended.waiting (omega (arith, over)) in
    let none_runs : ended.running ≡ [] = empty_list ended.running (omega (arith, over)) in
    let all : Perm (map answer_to (ended.waiting ++ ended.running) ++ ended.answered)
        (all_answers l) =
      Serves-answers st in
    (
      none_waits,
      none_runs,
      omega (arith, still, over),
      subst (λ (ts : List Task). Perm (map answer_to ts ++ ended.answered) (all_answers l))
          (ap (λ (ts : List Task). ts ++ ended.running) none_waits ∙ none_runs) all,
    )

-- Where no further step of service can be taken from a state that a limiter can reach, as many steps
-- have been taken as there were calls to start and tasks to end. Then no call waits or runs, every
-- permit is back, and the answers are those to the calls, each with the outcome of its own task.
pub Service-finishes :
    (max_concurrent steps : ℕ) (l ended : BcryptLimiter)
    → Reach (new max_concurrent) l
    → Serves l ended steps
    → ((t : BcryptLimiter) → ¬ Service ended t)
    → (steps ≡ 2 * length l.waiting + length l.running) × IsFinished max_concurrent l ended
Service-finishes max_concurrent steps l ended r st stuck =
    let still : IsBounded (max max_concurrent 1) ended =
      Serves-IsBounded (max max_concurrent 1) st (Reach-IsBounded max_concurrent l r) in
    let over : left_to_do ended ≡ 0 = elim (dec_lt 0 (left_to_do ended)) [
      | yes more ↦
          let (t, st') =
            can_serve ended.permits ended.waiting ended.running ended.answered
              (omega (arith, still)) more in
          absurd (stuck t st')
      | no none_left ↦ omega (arith, none_left)
    ] in
    (omega (arith, over, Serves-less st), finished max_concurrent l ended still st over)

complete :
    (fuel capacity : ℕ) (s : BcryptLimiter)
    → left_to_do s ≡ fuel
    → 0 < capacity
    → IsBounded capacity s
    → (ended : BcryptLimiter) × Serves s ended fuel
complete zero capacity s e pos h = (s, idle)
complete (suc fuel) capacity s e pos h =
    let (t, st) =
      can_serve s.permits s.waiting s.running s.answered (omega (arith, h, pos))
        (omega (arith, e)) in
    let (ended, rest) =
      complete fuel capacity t (omega (arith, e, Service-less st)) pos
        (Service-IsBounded capacity st h) in
    (ended, works st rest)

-- From any state that a limiter can reach, service can go on, with two steps for each call that waits
-- and one for each that runs, until no call waits or runs, every permit is back, and each call has
-- been answered with the outcome of its own task.
pub service_completes :
    (max_concurrent : ℕ) (l : BcryptLimiter)
    → Reach (new max_concurrent) l
    → (ended : BcryptLimiter) × Serves l ended (2 * length l.waiting + length l.running)
      × IsFinished max_concurrent l ended
service_completes max_concurrent l r =
    let (ended, st) =
      complete (left_to_do l) (max max_concurrent 1) l refl (omega arith)
        (Reach-IsBounded max_concurrent l r) in
    let still = Serves-IsBounded (max max_concurrent 1) st (Reach-IsBounded max_concurrent l r) in
    (ended, st, finished max_concurrent l ended still st (omega (arith, Serves-less st)))
