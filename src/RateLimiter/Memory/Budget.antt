-- ===== src/RateLimiter/Memory/Budget.antt =====
-- memory.rs: within one window an address is let through `max_attempts` times and no more.
use app_home_services.Base.{
  ℕ, suc, ◌+◌, ◌-◌, ◌^◌, ◌≤◌, ◌<◌, ◌≡◌, refl, ◌⊎◌, false, none, some, List, [], ◌∷◌, inl, inr,
  arith, ltb, if◌then◌else◌, length, Bool-cases, All, min, ◌&&◌, sym, ◌∙◌, ==-refl,
}
use app_home_services.Base.HashMap.{
  get, insert, IsUnique, get-retain, get-insert, length-retain-le, length-insert,
}
use app_home_services.Net.Addr.{IpAddr, ip_eq, ip_beq, ip_beq_iff}
use app_home_services.RateLimiter.Memory.{
  MemoryRateLimiter, RateLimitEntry, Entries, max_entries, clean_expired, make_room,
  evict_oldest_if_full, entry_or_new, spend, bump, try_check_and_record,
}
use app_home_services.RateLimiter.Memory.Capacity.{IsWellFormed, try-IsWellFormed}

-- A try: the two readings of the clock, and the address.
abbrev pub Try : Type 0
Try = ℕ × ℕ × IpAddr

-- How often a run of tries lets `ip` through.
unfoldable pub admitted : IpAddr → MemoryRateLimiter → List Try → ℕ
admitted ip rl [] = 0
admitted ip rl ((swept, now, j) ∷ ts) =
    let r = try_check_and_record rl swept now j in
    (if ip_beq j ip && r.1 then 1 else 0) + admitted ip r.0 ts

-- How often `ip` tries.
pub tried : IpAddr → List Try → ℕ
tried ip [] = 0
tried ip ((swept, now, j) ∷ ts) = (if ip_beq j ip then 1 else 0) + tried ip ts

-- Every reading of the clock is less than a window after `start`, and no entry begins before it.
abbrev pub Within : ℕ → ℕ → List Try → Type 0
Within start window = All λ t. (start ≤ t.1) × (t.0 < start + window) × (t.1 < start + window)

-- `ip` has used `n` attempts in a window that began at `start` or later.
abbrev Used : ℕ → IpAddr → ℕ → Entries → Type 0
Used start ip n m =
    ((get ip m ≡ none) × (n ≡ 0))
    ⊎ ((e : RateLimitEntry) × (get ip m ≡ some e) × (start ≤ e.window_start) × (e.attempts ≡ n))

clean_expired-Used :
    (start window swept n : ℕ) (ip : IpAddr) (m : Entries)
    → IsUnique m
    → 0 < window
    → swept < start + window
    → Used start ip n m
    → Used start ip n (clean_expired window swept m)
unfolding clean_expired
clean_expired-Used start window swept n ip m u pos h (inl (missing, zero_used)) =
    inl (get-retain _ ip m u ∙ rw missing refl, zero_used)
clean_expired-Used start window swept n ip m u pos h (inr (e, found, late, used)) =
    inr (e, get-retain _ ip m u ∙ rw found (ground arith), late, used)

make_room_with_room : (ip : IpAddr) (m : Entries) → length m < max_entries → make_room ip m ≡ m
unfolding make_room evict_oldest_if_full
make_room_with_room ip m h = ground arith

clean_expired-lt :
    (window swept : ℕ) (m : Entries)
    → length m < max_entries
    → length (clean_expired window swept m) < max_entries
unfolding clean_expired
clean_expired-lt window swept m h =
    omega (arith, length-retain-le (λ _ entry. ltb (swept - entry.window_start) window) m)

module _ (start : ℕ) (ip : IpAddr) (rl : MemoryRateLimiter) (now : ℕ)
    (positive : 0 < rl.window_duration) (word : rl.max_attempts < 2 ^ 32) (begun : start ≤ now)
    (open_still : now < start + rl.window_duration) where
  spend_lem :
      (e : RateLimitEntry)
      → start ≤ e.window_start
      → spend rl now e ≡ (
        record e {
          attempts = if ltb e.attempts rl.max_attempts then e.attempts + 1 else e.attempts;
        },
        ltb e.attempts rl.max_attempts,
      )
  unfolding spend bump
  spend_lem e late = ground arith

  entry_or_new-Used :
      (n : ℕ) (m : Entries)
      → Used start ip n m
      → (start ≤ (entry_or_new ip now m).window_start) × ((entry_or_new ip now m).attempts ≡ n)
  unfolding entry_or_new
  entry_or_new-Used n m (inl (missing, unused)) = rw (missing, entry_or_new) (begun, sym unused)
  entry_or_new-Used n m (inr (e, found, late, used)) = rw (found, entry_or_new) (late, used)

  spend-Used :
      (n : ℕ) (m : Entries)
      → Used start ip n m
      → let s = spend rl now (entry_or_new ip now m) in
        (s.1 ≡ ltb n rl.max_attempts)
        × Used start ip (if ltb n rl.max_attempts then n + 1 else n) (insert ip s.0 m)
  spend-Used n m used =
      let e = entry_or_new ip now m in
      let h = entry_or_new-Used n m used in
      rw (spend_lem e h.0, h.1) (refl, inr (_, get-insert ip ip _ m ∙ rw (==-refl ip), h.0, refl))

  length-try-le :
      (swept : ℕ) (j : IpAddr)
      → length rl.entries < max_entries
      → length (try_check_and_record rl swept now j).0.entries ≤ suc (length rl.entries)
  unfolding try_check_and_record clean_expired
  length-try-le swept j room =
      rw (make_room_with_room j _ (clean_expired-lt rl.window_duration swept rl.entries room)) (
        ground (
          arith,
          length-retain-le (λ _ entry. ltb (swept - entry.window_start) rl.window_duration)
              rl.entries,
          length-insert j
              (spend rl now
                (entry_or_new j now (clean_expired rl.window_duration swept rl.entries))).0
              (clean_expired rl.window_duration swept rl.entries),
        ))

  -- A try of `ip` itself.
  try-Used :
      (swept n : ℕ)
      → IsWellFormed rl.entries
      → length rl.entries < max_entries
      → swept < start + rl.window_duration
      → Used start ip n rl.entries
      → let r = try_check_and_record rl swept now ip in
        (r.1 ≡ ltb n rl.max_attempts)
        × Used start ip (if ltb n rl.max_attempts then n + 1 else n) r.0.entries
  unfolding try_check_and_record
  try-Used swept n w room h used =
      rw (make_room_with_room ip _ (clean_expired-lt rl.window_duration swept rl.entries room)) (
        spend-Used n _ (
          clean_expired-Used start rl.window_duration swept n ip rl.entries w.unique positive h
            used))

  -- A try of another address.
  try-Used_ne :
      (swept n : ℕ) (j : IpAddr)
      → ip_beq j ip ≡ false
      → IsWellFormed rl.entries
      → length rl.entries < max_entries
      → swept < start + rl.window_duration
      → Used start ip n rl.entries
      → Used start ip n (try_check_and_record rl swept now j).0.entries
  unfolding try_check_and_record
  try-Used_ne swept n j ne w room h used =
      rw (make_room_with_room j _ (clean_expired-lt rl.window_duration swept rl.entries room)) (
        rw (get-insert j ip _ (clean_expired rl.window_duration swept rl.entries), ne)
          (clean_expired-Used start rl.window_duration swept n ip rl.entries w.unique positive h
            used))

  -- What a step of the induction needs of one try.
  try_step :
      (swept n : ℕ) (j : IpAddr)
      → IsWellFormed rl.entries
      → length rl.entries < max_entries
      → swept < start + rl.window_duration
      → n ≤ rl.max_attempts
      → Used start ip n rl.entries
      → let r = try_check_and_record rl swept now j in
        (n' : ℕ) × Used start ip n' r.0.entries
        × (n' ≤ rl.max_attempts)
        × ((if ip_beq j ip && r.1 then 1 else 0) + n ≡ n')
        × (min rl.max_attempts (n + (if ip_beq j ip then 1 else 0)) ≡ n')
  try_step swept n j w room h within used = elim (Bool-cases (ip_beq j ip)) [
    | inl same ↦
        let e : j ≡ ip = (ip_beq_iff j ip).0 same in
        let u = try-Used swept n w room h used in
        (
          if ltb n rl.max_attempts then n + 1 else n,
          rw e u.1,
          ground arith,
          rw same (rw e (rw u.0 (ground arith))),
          rw same (ground arith),
        )
    | inr other ↦ (
      n,
      try-Used_ne swept n j other w room h used,
      within,
      rw other (omega arith),
      rw other (omega arith),
    )
  ]

try-max_attempts :
    (rl : MemoryRateLimiter) (swept now : ℕ) (j : IpAddr)
    → (try_check_and_record rl swept now j).0.max_attempts ≡ rl.max_attempts
unfolding try_check_and_record
try-max_attempts rl swept now j = refl

try-window_duration :
    (rl : MemoryRateLimiter) (swept now : ℕ) (j : IpAddr)
    → (try_check_and_record rl swept now j).0.window_duration ≡ rl.window_duration
unfolding try_check_and_record
try-window_duration rl swept now j = refl

admitted-Used :
    (start limit window n : ℕ) (ip : IpAddr) (ts : List Try) (rl : MemoryRateLimiter)
    → rl.max_attempts ≡ limit
    → rl.window_duration ≡ window
    → 0 < window
    → limit < 2 ^ 32
    → IsWellFormed rl.entries
    → length rl.entries + length ts ≤ max_entries
    → Within start window ts
    → n ≤ limit
    → Used start ip n rl.entries
    → admitted ip rl ts + n ≡ min limit (n + tried ip ts)
unfolding admitted tried
admitted-Used start limit window n ip [] rl cap dur positive word w room times within used =
    omega arith
admitted-Used start limit window n ip ((swept, now, j) ∷ ts) rl cap dur positive word w room times
      within used =
    let (n', used', within', counted, capped) =
      try_step start ip rl now (omega arith) (omega arith) times.0.0 (omega arith) swept n j w
        (omega arith) (omega arith) (omega arith) used in
    let grown =
      length-try-le start ip rl now (omega arith) (omega arith) times.0.0 (omega arith) swept j
        (omega arith) in
    let rest =
      admitted-Used start limit window n' ip ts (try_check_and_record rl swept now j).0
        (try-max_attempts rl swept now j ∙ cap) (try-window_duration rl swept now j ∙ dur) positive
        word (try-IsWellFormed rl swept now j w) (omega arith) times.1 (omega arith) used' in
    omega (arith, rest, counted, capped, cap)

-- Within one window, and while the map has room for an entry more for each of the tries, so that
-- nothing is evicted, an address with no entry at the start is let through exactly as often as it
-- tries, up to `max_attempts`, and never more, however its tries are mixed with those of other
-- addresses. The window has to be longer than nothing, and `max_attempts` a u32.
pub admitted-eq-min :
    (start : ℕ) (ip : IpAddr) (rl : MemoryRateLimiter) (ts : List Try)
    → 0 < rl.window_duration
    → rl.max_attempts < 2 ^ 32
    → IsWellFormed rl.entries
    → length rl.entries + length ts ≤ max_entries
    → Within start rl.window_duration ts
    → get ip rl.entries ≡ none
    → admitted ip rl ts ≡ min rl.max_attempts (tried ip ts)
admitted-eq-min start ip rl ts positive word w room times missing = omega (
  arith,
  admitted-Used start rl.max_attempts rl.window_duration 0 ip ts rl refl refl positive word w room
      times (omega arith) (inl (missing, refl)),
)
