-- ===== src/RateLimiter/Memory.antt =====
-- crates/infrastructure/src/rate_limiter/memory.rs. `Instant::now()` is read once in
-- `clean_expired` and once more by the method that calls it: a method takes both readings, the
-- first as `swept`. Instants and durations are numbers of nanoseconds, and `duration_since` is 0
-- for an instant that is still to come.
pub mod Capacity
pub mod Budget
pub mod Agreement
use app_home_services.Base.{
  ℕ, ◌+◌, ◌-◌, ◌*◌, ◌%◌, ◌^◌, Bool, true, false, Option, none, some, List, [], ◌∷◌, ltb, leb,
  if◌then◌else◌, length, from_secs,
}
use app_home_services.Base.HashMap.{HashMap, get, contains_key, remove, insert, retain}
use app_home_services.Net.Addr.{IpAddr, ip_eq}

abbrev pub max_entries : ℕ
max_entries = 100_000

pub record RateLimitEntry : Type 0 where
  pub attempts : ℕ
  pub window_start : ℕ

abbrev pub Entries : Type 0
Entries = HashMap IpAddr RateLimitEntry

pub record MemoryRateLimiter : Type 0 where
  pub max_attempts : ℕ
  pub window_duration : ℕ
  pub entries : Entries

unfoldable pub new : ℕ → ℕ → MemoryRateLimiter
new max_attempts window_seconds = record {
  max_attempts = max_attempts;
  window_duration = from_secs window_seconds;
  entries = [];
}

unfoldable pub clean_expired : ℕ → ℕ → Entries → Entries
clean_expired window swept = retain λ _ entry. ltb (swept - entry.window_start) window

-- `iter().min_by_key(|(_, entry)| entry.window_start)`: of equals the first one.
unfoldable pub oldest : Entries → Option (IpAddr × RateLimitEntry)
oldest [] = none
oldest ((ip, entry) ∷ m) = elim (oldest m) [
  | none ↦ some (ip, entry)
  | some (ip', entry') ↦
      if ltb entry'.window_start entry.window_start then some (ip', entry') else some (ip, entry)
]

unfoldable pub evict_oldest_if_full : Entries → Entries
evict_oldest_if_full m =
    if ltb (length m) max_entries
    then m
    else elim (oldest m) [ none ↦ m | some (ip, _) ↦ remove ip m ]

-- The map that the entry of `ip` is looked up in, once there is room for it.
unfoldable pub make_room : IpAddr → Entries → Entries
make_room ip m = if contains_key ip m then m else evict_oldest_if_full m

-- `entry(ip).or_insert(...)`
unfoldable pub entry_or_new : IpAddr → ℕ → Entries → RateLimitEntry
entry_or_new ip now m = elim (get ip m) [
  | none ↦ record { attempts = 0; window_start = now }
  | some entry ↦ entry
]

-- A u32 wraps in a release build.
unfoldable pub bump : RateLimitEntry → RateLimitEntry
bump entry = record entry { attempts = (entry.attempts + 1) % 2 ^ 32 }

restarted : ℕ → RateLimitEntry
restarted now = record { attempts = 1; window_start = now }

-- Each method takes the lock, and gives back what it leaves in the map.
unfoldable pub check : MemoryRateLimiter → ℕ → ℕ → IpAddr → MemoryRateLimiter × Bool
check rl swept now ip =
    let m = clean_expired rl.window_duration swept rl.entries in
    (
      record rl { entries = m },
      elim (get ip m) [
        | none ↦ true
        | some entry ↦
            if leb rl.window_duration (now - entry.window_start)
            then true
            else ltb entry.attempts rl.max_attempts
      ],
    )

unfoldable pub record_attempt : MemoryRateLimiter → ℕ → ℕ → IpAddr → MemoryRateLimiter
unfolding restarted
record_attempt rl swept now ip =
    let m = make_room ip (clean_expired rl.window_duration swept rl.entries) in
    let entry = entry_or_new ip now m in
    record rl {
      entries =
          insert ip
            (if leb rl.window_duration (now - entry.window_start)
              then restarted now
              else bump entry)
            m;
    }

-- The three ways in which `try_check_and_record` leaves the entry, with its answer.
unfoldable pub spend : MemoryRateLimiter → ℕ → RateLimitEntry → RateLimitEntry × Bool
unfolding restarted
spend rl now entry =
    if leb rl.window_duration (now - entry.window_start)
    then (restarted now, true)
    else if ltb entry.attempts rl.max_attempts
    then (bump entry, true)
    else (entry, false)

unfoldable pub try_check_and_record : MemoryRateLimiter → ℕ → ℕ → IpAddr → MemoryRateLimiter × Bool
try_check_and_record rl swept now ip =
    let m = make_room ip (clean_expired rl.window_duration swept rl.entries) in
    let spent = spend rl now (entry_or_new ip now m) in
    (record rl { entries = insert ip spent.0 m }, spent.1)

unfoldable pub remaining_attempts : MemoryRateLimiter → ℕ → IpAddr → ℕ
remaining_attempts rl now ip = elim (get ip rl.entries) [
  | none ↦ rl.max_attempts
  | some entry ↦
      if leb rl.window_duration (now - entry.window_start)
      then rl.max_attempts
      else rl.max_attempts - entry.attempts
]

unfoldable pub reset : MemoryRateLimiter → IpAddr → MemoryRateLimiter
reset rl ip = record rl { entries = remove ip rl.entries }

-- A call that changes the map, with the readings of the clock that it makes.
pub data Call : Type 0 where
  checks records tries : ℕ → ℕ → IpAddr → Call
  resets : IpAddr → Call

unfoldable pub step : MemoryRateLimiter → Call → MemoryRateLimiter
step rl (checks swept now ip) = (check rl swept now ip).0
step rl (records swept now ip) = record_attempt rl swept now ip
step rl (tries swept now ip) = (try_check_and_record rl swept now ip).0
step rl (resets ip) = reset rl ip

unfoldable pub run : MemoryRateLimiter → List Call → MemoryRateLimiter
run rl [] = rl
run rl (c ∷ cs) = run (step rl c) cs
