-- ===== src/RateLimiter/Memory/Capacity.antt =====
-- memory.rs: the map stays a map of at most `MAX_ENTRIES` addresses, under every method.
use app_home_services.Base.{
  ℕ, ◌-◌, ◌≤◌, ◌<◌, ◌≡◌, refl, ◌≢◌, none, some, List, [], ◌∷◌, inl, inr, arith, ltb, length,
  Option-cases,
}
use app_home_services.Base.HashMap.{
  get, insert, IsUnique, retain-IsUnique, remove-IsUnique, insert-IsUnique, length-retain-le,
  length-remove-le, length-remove-lt, length-insert,
}
use app_home_services.Net.Addr.{IpAddr, ip_eq, ip_beq_iff}
use app_home_services.RateLimiter.Memory.{
  MemoryRateLimiter, RateLimitEntry, Entries, max_entries, new, clean_expired, oldest,
  evict_oldest_if_full, make_room, check, record_attempt, try_check_and_record, reset, Call, checks,
  records, tries, resets, step, run,
}

pub record IsWellFormed (m : Entries) : Type 0 where
  pub unique : IsUnique m
  pub bounded : length m ≤ max_entries

-- What is found as the oldest stands in the map.
pub get-oldest :
    (m : Entries) (ip : IpAddr) (entry : RateLimitEntry)
    → oldest m ≡ some (ip, entry)
    → get ip m ≢ none
unfolding oldest
get-oldest [] ip entry h = cc
get-oldest ((j, e) ∷ m) ip entry h = elim (Option-cases (oldest m)) [
  | inl last ↦ ground (arith, ip_beq_iff j ip)
  | inr ((k, f), more) ↦ ground (arith, ip_beq_iff j ip, get-oldest m k f)
]

pub oldest-none : (m : Entries) → oldest m ≡ none → m ≡ []
unfolding oldest
oldest-none [] h = refl
oldest-none ((j, e) ∷ m) h = ground arith

pub evict-IsUnique : (m : Entries) → IsUnique m → IsUnique (evict_oldest_if_full m)
unfolding evict_oldest_if_full
evict-IsUnique m u = elim (Option-cases (oldest m)) [
  | inl e ↦ ground arith
  | inr ((ip, entry), e) ↦ ground (arith, remove-IsUnique ip m u)
]

-- After an eviction there is room for one more.
pub length-evict-lt :
    (m : Entries) → length m ≤ max_entries → length (evict_oldest_if_full m) < max_entries
unfolding evict_oldest_if_full
length-evict-lt m h = elim (Option-cases (oldest m)) [
  | inl e ↦ ground (arith, oldest-none m e)
  | inr ((ip, entry), e) ↦ ground (arith, length-remove-lt ip m (get-oldest m ip entry e))
]

pub make_room-IsUnique : (ip : IpAddr) (m : Entries) → IsUnique m → IsUnique (make_room ip m)
unfolding make_room
make_room-IsUnique ip m u = ground (arith, evict-IsUnique m u)

length-insert-make_room-le :
    (ip : IpAddr) (entry : RateLimitEntry) (m : Entries)
    → length m ≤ max_entries
    → length (insert ip entry (make_room ip m)) ≤ max_entries
unfolding make_room
length-insert-make_room-le ip entry m h = elim (Option-cases (get ip m)) [
  | inl missing ↦
      ground (arith, length-evict-lt m h, length-insert ip entry (evict_oldest_if_full m))
  | inr (old, found) ↦ ground (arith, length-insert ip entry m)
]

-- The map that a method writes back.
pub insert-make_room-IsWellFormed :
    (ip : IpAddr) (entry : RateLimitEntry) (m : Entries)
    → IsWellFormed m
    → IsWellFormed (insert ip entry (make_room ip m))
insert-make_room-IsWellFormed ip entry m w = record {
  unique = insert-IsUnique ip entry (make_room ip m) (make_room-IsUnique ip m w.unique);
  bounded = fits;
}
  where
    fits : length (insert ip entry (make_room ip m)) ≤ max_entries
    fits = length-insert-make_room-le ip entry m w.bounded

pub clean_expired-IsWellFormed :
    (window swept : ℕ) (m : Entries) → IsWellFormed m → IsWellFormed (clean_expired window swept m)
unfolding clean_expired
clean_expired-IsWellFormed window swept m w = record {
  unique = retain-IsUnique _ m w.unique;
  bounded =
      omega
        (arith, w.bounded, length-retain-le (λ _ entry. ltb (swept - entry.window_start) window) m);
}

module _ (rl : MemoryRateLimiter) (swept now : ℕ) (ip : IpAddr) (w : IsWellFormed rl.entries) where
  check-IsWellFormed : IsWellFormed (check rl swept now ip).0.entries
  unfolding check
  check-IsWellFormed = clean_expired-IsWellFormed rl.window_duration swept rl.entries w

  record_attempt-IsWellFormed : IsWellFormed (record_attempt rl swept now ip).entries
  unfolding record_attempt
  record_attempt-IsWellFormed =
      insert-make_room-IsWellFormed ip _ (clean_expired rl.window_duration swept rl.entries)
        (clean_expired-IsWellFormed rl.window_duration swept rl.entries w)

  pub try-IsWellFormed : IsWellFormed (try_check_and_record rl swept now ip).0.entries
  unfolding try_check_and_record
  try-IsWellFormed =
      insert-make_room-IsWellFormed ip _ (clean_expired rl.window_duration swept rl.entries)
        (clean_expired-IsWellFormed rl.window_duration swept rl.entries w)

  reset-IsWellFormed : IsWellFormed (reset rl ip).entries
  unfolding reset
  reset-IsWellFormed = record {
    unique = remove-IsUnique ip rl.entries w.unique;
    bounded = omega (arith, w.bounded, length-remove-le ip rl.entries);
  }

step-IsWellFormed :
    (rl : MemoryRateLimiter) (c : Call) → IsWellFormed rl.entries → IsWellFormed (step rl c).entries
unfolding step
step-IsWellFormed rl (checks swept now ip) w = check-IsWellFormed rl swept now ip w
step-IsWellFormed rl (records swept now ip) w = record_attempt-IsWellFormed rl swept now ip w
step-IsWellFormed rl (tries swept now ip) w = try-IsWellFormed rl swept now ip w
step-IsWellFormed rl (resets ip) w = reset-IsWellFormed rl 0 0 ip w

run-IsWellFormed :
    (rl : MemoryRateLimiter) (cs : List Call)
    → IsWellFormed rl.entries
    → IsWellFormed (run rl cs).entries
unfolding run
run-IsWellFormed rl [] w = w
run-IsWellFormed rl (c ∷ cs) w = run-IsWellFormed (step rl c) cs (step-IsWellFormed rl c w)

-- After any sequence of calls on a new limiter, at any times, no address stands twice in the map,
-- and the map holds at most `MAX_ENTRIES` addresses.
pub run-new-IsWellFormed :
    (max_attempts window_seconds : ℕ) (cs : List Call)
    → IsWellFormed (run (new max_attempts window_seconds) cs).entries
unfolding new
run-new-IsWellFormed max_attempts window_seconds cs =
    run-IsWellFormed _ cs (record { unique = tt; bounded = omega arith })
