-- ===== src/RateLimiter/Redis/Script.antt =====
-- What the scripts leave under the keys, and the counters read as windows.
use app_home_services.Base.{
  ℕ, ◌+◌, ◌^◌, ◌≤◌, ◌<◌, ◌≡◌, refl, Option, none, some, [], ◌∷◌, ◌++◌, ltb, nat_beq, sym, ap, ◌∙◌,
  ◌-◌, ◌==◌, ==-refl, if◌then◌else◌, arith, from_secs, Bool-cases, inl, inr, leb, Option-cases,
}
use app_home_services.Base.Text.{Text, text_eq}
use app_home_services.Net.Addr.{IpAddr, ip_eq}
use app_home_services.Redis.{Redis, Item, item, live, live_later, value_of, incremented, expiring}
use app_home_services.RateLimiter.FixedWindow.{Window, window, Windows, spent, recorded}
use app_home_services.RateLimiter.Redis.{
  RedisRateLimiter, key, incr_with_expire_script, try_check_and_record_script, as_u32, admits,
  rest_of,
}

pub append_cancel : (p s t : Text) → p ++ s ≡ p ++ t → s ≡ t
append_cancel [] s t h = h
append_cancel (c ∷ p) s t h = append_cancel p s t cc

module _ (redis : Redis) (display : IpAddr → Text) where
  -- What both scripts leave, and the count that they read.
  pub script_stores :
      (at : ℕ) (k : Text) (secs : ℕ) (s : redis.State) (n : ℕ)
      → value_of (incremented (live at (redis.stored k s))) ≡ some n
      → n < 2 ^ 63
      → ((incr_with_expire_script redis display at k secs s).0 ≡ some n)
        × ((j : Text)
            → live at (redis.stored j (incr_with_expire_script redis display at k secs s).1) ≡ (
                if k == j
                then (if nat_beq n 1
                    then live at
                        (expiring (at + from_secs secs) (incremented (live at (redis.stored k s))))
                    else incremented (live at (redis.stored k s)))
                else live at (redis.stored j s)))
  unfolding incr_with_expire_script
  script_stores at k secs s n h b =
      let e = redis.incr_reply at k s n h b in
      let stores = λ (j : Text). redis.incr_stores at k j s n e in
      elim (Bool-cases (nat_beq n 1)) [
        | inl first ↦ (
          rw (e, incr_with_expire_script) refl,
          λ j.
              rw (e, incr_with_expire_script)
                (ground (
                  arith,
                  first,
                  stores k,
                  stores j,
                  ==-refl k,
                  redis.expire_stores at k j secs (redis.incr at k s).1,
                )),
        )
        | inr later ↦ (
          rw (e, incr_with_expire_script) refl,
          λ j. rw (e, incr_with_expire_script) (ground (arith, later, stores j)),
        )
      ]

  -- The two scripts differ in what they answer.
  pub try_script_lem :
      (at : ℕ) (k : Text) (secs max_attempts : ℕ) (s : redis.State) (n : ℕ)
      → (incr_with_expire_script redis display at k secs s).0 ≡ some n
      → try_check_and_record_script redis display at k secs max_attempts s ≡ (
        some (if leb n max_attempts then 1 else 0),
        (incr_with_expire_script redis display at k secs s).1,
      )
  unfolding incr_with_expire_script try_check_and_record_script
  try_script_lem at k secs max_attempts s n h = elim (Option-cases (redis.incr at k s).0) [
    | inl refused ↦ ground (arith, refused)
    | inr (m, e) ↦ ground (arith, e)
  ]

  abbrev Server : Type 0
  Server = redis.State

  abbrev Limiter : Type 0
  Limiter = RedisRateLimiter redis display

  abbrev pub as_item : Option Window → Option Item
  as_item none = none
  as_item (some (window n closes)) = some (item n (some closes))

  abbrev pub count : Option Window → ℕ
  count none = 0
  count (some (window n _)) = n

  -- From the instant on, the counter of each address is the count of its window.
  abbrev pub Shows : ℕ → Text → Server → Windows → Type 0
  Shows now key_prefix s w =
      (ip : IpAddr)
      → live now (redis.stored (key redis display key_prefix ip) s) ≡ live now (as_item (w ip))

  -- Room for so many attempts more below 2^32.
  abbrev pub IsBelow : ℕ → Windows → Type 0
  IsBelow n w = (ip : IpAddr) → count (w ip) + n < 2 ^ 32

  pub Shows-later :
      (now later : ℕ) (key_prefix : Text) (s : Server) (w : Windows)
      → now ≤ later
      → Shows now key_prefix s w
      → Shows later key_prefix s w
  Shows-later now later key_prefix s w h shows ip =
      sym (live_later now later _ h) ∙ ap (live later) (shows ip) ∙ live_later now later _ h

  pub value_count :
      (at : ℕ) (x : Option Window)
      → count x < 2 ^ 32
      → as_u32 (value_of (live at (as_item x))) ≡ some (value_of (live at (as_item x)))
  value_count at none h = refl
  value_count at (some (window n closes)) h = ground arith

  pub admits_lem :
      (at budget : ℕ) (x : Option Window)
      → 0 < budget
      → admits redis display budget (value_of (live at (as_item x))) ≡ ltb (spent at x) budget
  admits_lem at budget none h = ground arith
  admits_lem at budget (some (window n closes)) h = ground arith

  pub rest_of_lem :
      (at budget : ℕ) (x : Option Window)
      → rest_of redis display budget (value_of (live at (as_item x))) ≡ budget - spent at x
  rest_of_lem at budget none = ground arith
  rest_of_lem at budget (some (window n closes)) = ground arith

  pub incremented_lem :
      (at : ℕ) (x : Option Window)
      → value_of (incremented (live at (as_item x))) ≡ some (spent at x + 1)
  incremented_lem at none = ground arith
  incremented_lem at (some (window n closes)) = ground arith

  pub recorded_lem :
      (at secs : ℕ) (x : Option Window)
      → (if nat_beq (spent at x + 1) 1
          then live at (expiring (at + from_secs secs) (incremented (live at (as_item x))))
          else incremented (live at (as_item x)))
        ≡ live at (as_item (some (recorded secs at x)))
  recorded_lem at secs none = ground arith
  recorded_lem at secs (some (window n closes)) = ground arith

  pub spent_le : (at : ℕ) (x : Option Window) → spent at x ≤ count x
  spent_le at none = omega arith
  spent_le at (some (window n closes)) = ground arith
