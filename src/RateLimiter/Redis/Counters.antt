-- ===== src/RateLimiter/Redis/Counters.antt =====
-- The commands of a call that is answered, on counters that show the windows.
use app_home_services.Base.{
  ℕ, Option, ◌+◌, ◌^◌, ◌<◌, ◌≡◌, refl, ◌∙◌, none, some, ◌++◌, ◌==◌, arith, Bool-cases, inl, inr,
}
use app_home_services.Base.Text.{Text, text, text_eq, text_beq_iff}
use app_home_services.Net.Addr.{IpAddr, ip_eq, ip_beq_iff}
use app_home_services.Redis.{Redis, live, value_of, incremented}
use app_home_services.RateLimiter.FixedWindow.{Window, window, Windows, spent, recorded, update}
use app_home_services.RateLimiter.Redis.{key, get_u32, delete, incr_with_expire_script}
use app_home_services.RateLimiter.Redis.Script.{
  append_cancel, script_stores, as_item, count, Shows, IsBelow, value_count, incremented_lem,
  recorded_lem, spent_le,
}

module _ (redis : Redis) (display : IpAddr → Text) where
  pub reset-IsBelow :
      (n : ℕ) (w : Windows) (ip : IpAddr)
      → IsBelow redis display (n + 1) w
      → IsBelow redis display n (update w ip none)
  reset-IsBelow n w ip below j = elim (Bool-cases (ip == j)) [
    | inl same ↦ rw same (omega (arith, below j))
    | inr other ↦ rw other (omega (arith, below j))
  ]

  pub recorded_le :
      (at secs n : ℕ) (x : Option Window)
      → count redis display x + (n + 1) < 2 ^ 32
      → count redis display (some (recorded secs at x)) + n < 2 ^ 32
  recorded_le at secs n none h = omega (arith, h)
  recorded_le at secs n (some (window m closes)) h = ground arith

  pub IsBelow-update :
      (at secs n : ℕ) (w : Windows) (ip : IpAddr)
      → IsBelow redis display (n + 1) w
      → IsBelow redis display n (update w ip (some (recorded secs at (w ip))))
  IsBelow-update at secs n w ip below j = elim (Bool-cases (ip == j)) [
    | inl same ↦ rw same (recorded_le at secs n (w ip) (below ip))
    | inr other ↦ rw other (omega (arith, below j))
  ]

  pub IsBelow-less :
      (n : ℕ) (w : Windows) → IsBelow redis display (n + 1) w → IsBelow redis display n w
  IsBelow-less n w below j = omega (arith, below j)

module _ (redis : Redis) (display : IpAddr → Text)
    (display_injective : (a b : IpAddr) → display a ≡ display b → a ≡ b) where
  -- Two addresses have two keys.
  pub key_beq :
      (key_prefix : Text) (a b : IpAddr)
      → (key redis display key_prefix a == key redis display key_prefix b) ≡ (a == b)
  unfolding key
  key_beq key_prefix a b = elim (Bool-cases (a == b)) [
    | inl same ↦ ground (
      arith,
      ip_beq_iff a b,
      text_beq_iff (key redis display key_prefix a) (key redis display key_prefix b),
    )
    | inr apart ↦
        elim (Bool-cases (key redis display key_prefix a == key redis display key_prefix b)) [
          | inl same ↦
              let e =
                (text_beq_iff (key redis display key_prefix a) (key redis display key_prefix b)).0
                  same in
              let e' = display_injective a b (
                append_cancel (text ":") (display a) (display b) (
                  append_cancel key_prefix (text ":" ++ display a) (text ":" ++ display b) (
                    append_cancel (text "ratelimit:") (key_prefix ++ (text ":" ++ display a))
                      (key_prefix ++ (text ":" ++ display b)) e))) in
              absurd (ground (arith, ip_beq_iff a b))
          | inr other ↦ rw (apart) other
        ]
  ]

  -- Reading a counter.
  pub read_lem :
      (at : ℕ) (key_prefix : Text) (s : redis.State) (w : Windows) (ip : IpAddr)
      → Shows redis display at key_prefix s w
      → count redis display (w ip) + 1 < 2 ^ 32
      → (get_u32 redis display at (key redis display key_prefix ip) s).0
        ≡ some (value_of (live at (as_item redis display (w ip))))
  unfolding get_u32
  read_lem at key_prefix s w ip shows below =
      rw (redis.get_reply at (key redis display key_prefix ip) s, shows ip)
        (value_count redis display at (w ip) (omega (arith, below)))

  pub read-Shows :
      (at : ℕ) (key_prefix : Text) (s : redis.State) (w : Windows) (ip : IpAddr)
      → Shows redis display at key_prefix s w
      → Shows redis display at key_prefix
          (get_u32 redis display at (key redis display key_prefix ip) s).1
          w
  unfolding get_u32
  read-Shows at key_prefix s w ip shows j = redis.get_keeps at _ _ s ∙ shows j

  -- Both scripts count one attempt more.
  pub script_lem :
      (at : ℕ) (key_prefix : Text) (secs : ℕ) (s : redis.State) (w : Windows) (ip : IpAddr)
      → Shows redis display at key_prefix s w
      → count redis display (w ip) + 1 < 2 ^ 32
      → ((incr_with_expire_script redis display at (key redis display key_prefix ip) secs s).0
          ≡ some (spent at (w ip) + 1))
        × Shows redis display at key_prefix
            (incr_with_expire_script redis display at (key redis display key_prefix ip) secs s).1
            (update w ip (some (recorded secs at (w ip))))
  script_lem at key_prefix secs s w ip shows below =
      let k = key redis display key_prefix ip in
      let e : value_of (incremented (live at (redis.stored k s))) ≡ some (spent at (w ip) + 1) =
        rw (shows ip) (incremented_lem redis display at (w ip)) in
      let (reply, stores) =
        script_stores redis display at k secs s (spent at (w ip) + 1) e
          (omega (arith, below, spent_le redis display at (w ip))) in
      (
        reply,
        λ j. elim (Bool-cases (ip == j)) [
          | inl same ↦
              stores (key redis display key_prefix j)
              ∙ rw (key_beq key_prefix ip j, same, shows ip)
                  (recorded_lem redis display at secs (w ip))
          | inr other ↦
              stores (key redis display key_prefix j)
              ∙ rw (key_beq key_prefix ip j, other) (shows j)
        ],
      )

  pub reset-Shows :
      (at : ℕ) (key_prefix : Text) (s : redis.State) (w : Windows) (ip : IpAddr)
      → Shows redis display at key_prefix s w
      → Shows redis display at key_prefix
          (delete redis display at (key redis display key_prefix ip) s).1
          (update w ip none)
  unfolding delete
  reset-Shows at key_prefix s w ip shows j =
      redis.del_stores at (key redis display key_prefix ip) (key redis display key_prefix j) s
      ∙ elim (Bool-cases (ip == j)) [
        | inl same ↦ rw (key_beq key_prefix ip j, same) refl
        | inr other ↦ rw (key_beq key_prefix ip j, other) (shows j)
      ]
