-- ===== src/RateLimiter/Memory/Agreement.antt =====
-- memory.rs: the methods agree with one another on what an address has left.
use app_home_services.Base.{
  ℕ, ◌-◌, ◌≤◌, ◌<◌, ◌≡◌, inl, inr, arith, ltb, Option-cases, none, some, if◌then◌else◌,
}
use app_home_services.Base.HashMap.{get, get-retain, get-remove}
use app_home_services.Net.Addr.{IpAddr, ip_eq, ip_beq}
use app_home_services.RateLimiter.Memory.{
  MemoryRateLimiter, Entries, clean_expired, oldest, make_room, evict_oldest_if_full, entry_or_new,
  spend, check, try_check_and_record, remaining_attempts, reset,
}
use app_home_services.RateLimiter.Memory.Capacity.{IsWellFormed}

-- An eviction for `ip` keeps the entry of `ip`, or that it has none.
get-make_room_self : (ip : IpAddr) (m : Entries) → get ip (make_room ip m) ≡ get ip m
unfolding make_room evict_oldest_if_full
get-make_room_self ip m = elim (Option-cases (get ip m)) [
  | inr (e, found) ↦ ground arith
  | inl missing ↦ elim (Option-cases (oldest m)) [
    | inl e ↦ ground arith
    | inr ((j, old), e) ↦ ground (arith, get-remove j ip m)
  ]
]

get-clean_expired :
    (window swept : ℕ) (ip : IpAddr) (m : Entries)
    → IsWellFormed m
    → get ip (clean_expired window swept m) ≡ elim (get ip m) [
      | none ↦ none
      | some e ↦ if ltb (swept - e.window_start) window then some e else none
    ]
unfolding clean_expired
get-clean_expired window swept ip m w = get-retain _ ip m w.unique

module _ (rl : MemoryRateLimiter) (swept now : ℕ) (ip : IpAddr) (w : IsWellFormed rl.entries)
    (some_allowed : 0 < rl.max_attempts) (clock : swept ≤ now) where
  check-eq-remaining : (check rl swept now ip).1 ≡ ltb 0 (remaining_attempts rl now ip)
  unfolding check remaining_attempts
  check-eq-remaining = elim (Option-cases (get ip rl.entries)) [
    | inl missing ↦ ground (arith, get-clean_expired rl.window_duration swept ip rl.entries w)
    | inr (e, found) ↦ ground (arith, get-clean_expired rl.window_duration swept ip rl.entries w)
  ]

  spent_entry :
      entry_or_new ip now (make_room ip (clean_expired rl.window_duration swept rl.entries))
      ≡ elim (get ip rl.entries) [
        | none ↦ record { attempts = 0; window_start = now }
        | some e ↦
            if ltb (swept - e.window_start) rl.window_duration
            then e
            else record { attempts = 0; window_start = now }
      ]
  unfolding entry_or_new
  spent_entry =
      rw
        (
          get-make_room_self ip (clean_expired rl.window_duration swept rl.entries),
          get-clean_expired rl.window_duration swept ip rl.entries w,
          entry_or_new,
        )
        (ground arith)

  try-eq-remaining : (try_check_and_record rl swept now ip).1 ≡ ltb 0 (remaining_attempts rl now ip)
  unfolding try_check_and_record remaining_attempts spend
  try-eq-remaining = rw spent_entry (ground arith)

-- With a limit of at least one and a clock that does not go back, `check` and
-- `try_check_and_record` let an address through exactly if `remaining_attempts` is not 0.
pub check_try_remaining :
    (rl : MemoryRateLimiter) (swept now : ℕ) (ip : IpAddr)
    → IsWellFormed rl.entries
    → 0 < rl.max_attempts
    → swept ≤ now
    → ((check rl swept now ip).1 ≡ ltb 0 (remaining_attempts rl now ip))
      × ((try_check_and_record rl swept now ip).1 ≡ ltb 0 (remaining_attempts rl now ip))
check_try_remaining rl swept now ip w p c =
    (check-eq-remaining rl swept now ip w p c, try-eq-remaining rl swept now ip w p c)

-- `reset` gives the address its whole budget back, and changes nothing for any other address.
pub remaining_attempts-reset :
    (rl : MemoryRateLimiter) (now : ℕ) (ip j : IpAddr)
    → remaining_attempts (reset rl ip) now j
      ≡ (if ip_beq ip j then rl.max_attempts else remaining_attempts rl now j)
unfolding remaining_attempts reset
remaining_attempts-reset rl now ip j = ground (arith, get-remove ip j rl.entries)
