-- ===== src/Blacklist/Redis/Port.antt =====
-- The Redis revocation list keeps what the callers of the port rely on.
use app_home_services.Base.{
  ℕ, ◌+◌, ◌≤◌, ◌<◌, ◌≡◌, ◌≢◌, refl, sym, ap, ◌∙◌, true, false, Option, none, some, Uuid, nat_beq,
  ◌==◌, ==-refl, if◌then◌else◌, from_secs, subst, arith, Bool-cases, inl, inr,
}
use app_home_services.Base.Text.{Text, text, text_eq, text_beq_iff}
use app_home_services.Base.Outcome.{ok}
use app_home_services.Redis.{
  Redis, Item, item, live, live-some, exists_count, Link, delivers, fails, elapses, Outcome,
  replied, failed, elapsed, round_trip,
}
use app_home_services.Blacklist.Backend.{Backend}
use app_home_services.Blacklist.Redis.{
  RedisAccessTokenBlacklist, next_link, key, set_ex, exists, revoke, is_revoked, revoke_outcome,
  is_revoked_outcome, record_redis_error,
}
use app_home_services.RateLimiter.Redis.Script.{append_cancel}

-- The key of the token is there at least until the deadline.
abbrev pub Stands : ℕ → Option Item → Type 0
Stands deadline none = ⊥
Stands deadline (some (item v none)) = Unit
Stands deadline (some (item v (some d))) = deadline ≤ d

pub Stands-live :
    (now deadline : ℕ) (x : Option Item) → now < deadline → Stands deadline x → live now x ≡ x
Stands-live now deadline none h c = refl
Stands-live now deadline (some (item v none)) h c = refl
Stands-live now deadline (some (item v (some d))) h c = ground arith

-- It still stands in a state that reads the same.
Stands-same :
    (now deadline : ℕ) (x y : Option Item)
    → now < deadline
    → live now y ≡ live now x
    → Stands deadline x
    → Stands deadline y
Stands-same now deadline none y h e c = elim c [ ]
Stands-same now deadline (some a) y h e c =
    subst (Stands deadline) (sym (live-some now y a (e ∙ Stands-live now deadline (some a) h c))) c

pub Stands-less :
    (earlier later : ℕ) (x : Option Item) → earlier ≤ later → Stands later x → Stands earlier x
Stands-less earlier later none h c = c
Stands-less earlier later (some (item v none)) h c = tt
Stands-less earlier later (some (item v (some d))) h c = omega (arith, h, c)

module _ (redis : Redis) (display : Uuid → Text)
    (display_injective : (a b : Uuid) → display a ≡ display b → a ≡ b) where
  abbrev Blacklist : Type 0
  Blacklist = RedisAccessTokenBlacklist redis display

  abbrev pub Holds : Uuid → ℕ → Blacklist → Type 0
  Holds jti deadline b = Stands deadline (redis.stored (key redis display jti) b.server)

  -- Executed or not, answered or not.
  trip_cases {ℓ} :
      {A : Type ℓ} (P : redis.State → Type 0) (link : Link)
      (command : redis.State → Option A × redis.State) (s : redis.State)
      → P s
      → P (command s).1
      → P (round_trip link command s).1
  unfolding round_trip
  trip_cases P delivers command s before after = after
  trip_cases P (fails true) command s before after = after
  trip_cases P (fails false) command s before after = before
  trip_cases P (elapses true) command s before after = after
  trip_cases P (elapses false) command s before after = before

  revoke_server :
      (b : Blacklist) (o : Outcome (Unit {0}) × redis.State)
      → (revoke_outcome redis display b o).1.server ≡ o.1
  unfolding record_redis_error
  revoke_server b (replied _, s) = refl
  revoke_server b (failed, s) = refl
  revoke_server b (elapsed, s) = refl

  is_revoked_server :
      (b : Blacklist) (o : Outcome ℕ × redis.State)
      → (is_revoked_outcome redis display b o).1.server ≡ o.1
  unfolding record_redis_error
  is_revoked_server b (replied _, s) = refl
  is_revoked_server b (failed, s) = refl
  is_revoked_server b (elapsed, s) = refl

  abbrev the_key : Uuid → Text
  the_key = key redis display

  set_ex-Stands :
      (now : ℕ) (j : Uuid) (ttl_secs : ℕ) (s : redis.State)
      → 0 < ttl_secs
      → Stands
          (now + from_secs ttl_secs)
          (redis.stored (the_key j) (set_ex redis display now j ttl_secs s).1)
  unfolding set_ex
  set_ex-Stands now j ttl_secs s pos =
      let e = redis.set_ex_stores now (the_key j) (the_key j) 1 ttl_secs s in
      let e' : live now (redis.stored (the_key j) (redis.set_ex now (the_key j) 1 ttl_secs s))
          ≡ some (item 1 (some (now + from_secs ttl_secs))) =
        e ∙ rw (==-refl (the_key j)) (ground arith) in
      rw (live-some now _ _ e') (omega arith)

  set_ex_keeps :
      (now : ℕ) (j : Uuid) (ttl_secs : ℕ) (s : redis.State) (jti : Uuid) (deadline : ℕ)
      → now < deadline
      → 0 < ttl_secs
      → (j ≡ jti → deadline ≤ now + from_secs ttl_secs)
      → Stands deadline (redis.stored (the_key jti) s)
      → Stands deadline (redis.stored (the_key jti) (set_ex redis display now j ttl_secs s).1)
  unfolding set_ex key
  set_ex_keeps now j ttl_secs s jti deadline h pos longer c =
      elim (Bool-cases (the_key j == the_key jti)) [
        | inl same ↦
            let e = (text_beq_iff (the_key j) (the_key jti)).0 same in
            let j_eq = display_injective j jti (append_cancel (text "acl:revoked:") _ _ e) in
            Stands-less deadline (now + from_secs ttl_secs) _ (longer j_eq) (
              subst
                (λ k.
                  Stands (now + from_secs ttl_secs)
                    (redis.stored k (redis.set_ex now (the_key j) 1 ttl_secs s)))
                e (set_ex-Stands now j ttl_secs s pos))
        | inr other ↦
            Stands-same now deadline (redis.stored (the_key jti) s) _ h
              (redis.set_ex_stores now (the_key j) (the_key jti) 1 ttl_secs s ∙ rw other refl) c
      ]

  -- An answer of Ok means that the command was executed.
  revoke_answered :
      (now : ℕ) (jti : Uuid) (ttl_secs : ℕ) (b : Blacklist) (link : Link)
      → (revoke_outcome redis display b
          (round_trip link (set_ex redis display now jti ttl_secs) b.server)).0
        ≡ ok tt
      → (round_trip link (set_ex redis display now jti ttl_secs) b.server).1
        ≡ (set_ex redis display now jti ttl_secs b.server).1
  unfolding round_trip
  revoke_answered now jti ttl_secs b delivers h = refl
  revoke_answered now jti ttl_secs b (fails e) h = cc
  revoke_answered now jti ttl_secs b (elapses e) h = cc

  pub revoke-Holds :
      (now : ℕ) (jti : Uuid) (ttl_secs : ℕ) (b : Blacklist)
      → 0 < ttl_secs
      → (revoke redis display now jti ttl_secs b).0 ≡ ok tt
      → Holds jti (now + from_secs ttl_secs) (revoke redis display now jti ttl_secs b).1
  unfolding revoke
  revoke-Holds now jti ttl_secs b pos h = elim (Bool-cases (nat_beq ttl_secs 0)) [
    | inl zero ↦ absurd (ground arith)
    | inr more ↦
        let trip =
          round_trip (next_link redis display b.links) (set_ex redis display now jti ttl_secs)
            b.server in
        rw (more, revoke_server b trip)
          (rw
            (revoke_answered now jti ttl_secs b (next_link redis display b.links) (
              subst (λ c. (if c then (ok tt, b) else revoke_outcome redis display b trip).0 ≡ ok tt)
                more h))
            (set_ex-Stands now jti ttl_secs b.server pos))
  ]

  pub revoke_keeps :
      (now : ℕ) (j : Uuid) (ttl_secs : ℕ) (b : Blacklist) (jti : Uuid) (deadline : ℕ)
      → now < deadline
      → (j ≡ jti → (0 < ttl_secs) × (deadline ≤ now + from_secs ttl_secs))
      → Holds jti deadline b
      → Holds jti deadline (revoke redis display now j ttl_secs b).1
  unfolding revoke
  revoke_keeps now j ttl_secs b jti deadline h longer c = elim (Bool-cases (nat_beq ttl_secs 0)) [
    | inl none_left ↦ rw none_left c
    | inr more ↦
        rw
          (
            more,
            revoke_server b (
                round_trip (next_link redis display b.links) (set_ex redis display now j ttl_secs)
                  b.server),
          )
          (trip_cases (λ s. Stands deadline (redis.stored (the_key jti) s))
            (next_link redis display b.links) (set_ex redis display now j ttl_secs) b.server c
            (set_ex_keeps now j ttl_secs b.server jti deadline h (ground (arith, more))
              (λ e. (longer e).1) c))
  ]

  exists_holds :
      (now : ℕ) (j : Uuid) (s : redis.State) (jti : Uuid) (deadline : ℕ)
      → now < deadline
      → Stands deadline (redis.stored (the_key jti) s)
      → Stands deadline (redis.stored (the_key jti) (exists redis display now j s).1)
  unfolding exists
  exists_holds now j s jti deadline h c =
      Stands-same now deadline _ _ h (redis.exists_keeps now (the_key j) (the_key jti) s) c

  pub is_revoked_keeps :
      (now : ℕ) (j : Uuid) (b : Blacklist) (jti : Uuid) (deadline : ℕ)
      → now < deadline
      → Holds jti deadline b
      → Holds jti deadline (is_revoked redis display now j b).1
  unfolding is_revoked
  is_revoked_keeps now j b jti deadline h c =
      rw
        (is_revoked_server b
          (round_trip (next_link redis display b.links) (exists redis display now j) b.server))
        (trip_cases (λ s. Stands deadline (redis.stored (the_key jti) s))
          (next_link redis display b.links) (exists redis display now j) b.server c
          (exists_holds now j b.server jti deadline h c))

  Stands-exists : (deadline : ℕ) (x : Option Item) → Stands deadline x → exists_count x ≡ 1
  Stands-exists deadline none c = elim c [ ]
  Stands-exists deadline (some a) c = refl

  reported :
      (now : ℕ) (b : Blacklist) (jti : Uuid) (link : Link)
      → (redis.exists now (the_key jti) b.server).0 ≡ 1
      → (is_revoked_outcome redis display b
          (round_trip link (exists redis display now jti) b.server)).0
        ≢ ok false
  unfolding round_trip exists
  reported now b jti delivers one = rw one (λ h. cc)
  reported now b jti (fails e) one = λ h. cc
  reported now b jti (elapses e) one = λ h. cc

  pub is_revoked_reports :
      (now : ℕ) (b : Blacklist) (jti : Uuid) (deadline : ℕ)
      → now < deadline
      → Holds jti deadline b
      → (is_revoked redis display now jti b).0 ≢ ok false
  unfolding is_revoked
  is_revoked_reports now b jti deadline h c = reported now b jti (next_link redis display b.links) (
      redis.exists_reply now (the_key jti) b.server
      ∙ ap exists_count (Stands-live now deadline (redis.stored (the_key jti) b.server) h c)
      ∙ Stands-exists deadline (redis.stored (the_key jti) b.server) c)

  abbrev pub redis_backend : Backend
  redis_backend = record {
    State = Blacklist;
    revoke = revoke redis display;
    is_revoked = is_revoked redis display;
    Holds = Holds;
    revoke_holds = revoke-Holds;
    revoke_keeps = revoke_keeps;
    holds_less = λ b jti earlier later h c. Stands-less earlier later _ h c;
    is_revoked_keeps = is_revoked_keeps;
    is_revoked_reports = is_revoked_reports;
  }
