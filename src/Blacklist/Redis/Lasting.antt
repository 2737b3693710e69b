-- ===== src/Blacklist/Redis/Lasting.antt =====
-- A revocation that Redis has confirmed lasts through any calls on the list.
use app_home_services.Base.{ℕ, ◌+◌, ◌<◌, ◌≤◌, ◌≡◌, ◌≢◌, false, List, [], ◌∷◌, Uuid, from_secs}
use app_home_services.Base.Text.{Text}
use app_home_services.Base.Outcome.{ok}
use app_home_services.Redis.{Redis}
use app_home_services.Blacklist.Redis.{RedisAccessTokenBlacklist, revoke, is_revoked}
use app_home_services.Blacklist.Redis.Port.{
  Holds, revoke-Holds, revoke_keeps, is_revoked_keeps, is_revoked_reports,
}

pub data Call : Type 0 where
  revokes : ℕ → Uuid → ℕ → Call
  asks : ℕ → Uuid → Call

-- A call before the deadline of the token; another revocation of it lasts as long or longer.
abbrev pub IsHarmless : Uuid → ℕ → Call → Type 0
IsHarmless jti deadline (revokes now j ttl_secs) =
    (now < deadline) × (j ≡ jti → (0 < ttl_secs) × (deadline ≤ now + from_secs ttl_secs))
IsHarmless jti deadline (asks now j) = now < deadline

abbrev pub AreHarmless : Uuid → ℕ → List Call → Type 0
AreHarmless jti deadline [] = Unit
AreHarmless jti deadline (c ∷ cs) = IsHarmless jti deadline c × AreHarmless jti deadline cs

module _ (redis : Redis) (display : Uuid → Text) where
  abbrev Blacklist : Type 0
  Blacklist = RedisAccessTokenBlacklist redis display

  unfoldable pub step : Blacklist → Call → Blacklist
  step b (revokes now j ttl_secs) = (revoke redis display now j ttl_secs b).1
  step b (asks now j) = (is_revoked redis display now j b).1

  unfoldable pub run : Blacklist → List Call → Blacklist
  run b [] = b
  run b (c ∷ cs) = run (step b c) cs

module _ (redis : Redis) (display : Uuid → Text)
    (display_injective : (a b : Uuid) → display a ≡ display b → a ≡ b) where
  run-Holds :
      (jti : Uuid) (deadline : ℕ) (cs : List Call) (b : RedisAccessTokenBlacklist redis display)
      → AreHarmless jti deadline cs
      → Holds redis display display_injective jti deadline b
      → Holds redis display display_injective jti deadline (run redis display b cs)
  unfolding run step
  run-Holds jti deadline [] b h held = held
  run-Holds jti deadline (revokes now j ttl_secs ∷ cs) b h held =
      run-Holds jti deadline cs _ h.1 (
        revoke_keeps redis display display_injective now j ttl_secs b jti deadline h.0.0 h.0.1 held)
  run-Holds jti deadline (asks now j ∷ cs) b h held =
      run-Holds jti deadline cs _ h.1
        (is_revoked_keeps redis display display_injective now j b jti deadline h.0 held)

  -- Once `revoke` with a positive lifetime has answered Ok, the list does not report the token as
  -- valid before its deadline, whatever calls come in between and whichever of their round trips fail
  -- or time out, executed or not: calls before the deadline, and no shorter revocation of the token.
  pub is_revoked_while :
      (now until ttl_secs : ℕ) (jti : Uuid) (b : RedisAccessTokenBlacklist redis display)
      (cs : List Call)
      → 0 < ttl_secs
      → (revoke redis display now jti ttl_secs b).0 ≡ ok tt
      → AreHarmless jti (now + from_secs ttl_secs) cs
      → until < now + from_secs ttl_secs
      → (is_revoked redis display until jti
          (run redis display (revoke redis display now jti ttl_secs b).1 cs)).0
        ≢ ok false
  is_revoked_while now until ttl_secs jti b cs pos accepted harmless early =
      is_revoked_reports redis display display_injective until _ jti (now + from_secs ttl_secs)
        early
        (run-Holds jti (now + from_secs ttl_secs) cs _ harmless
          (revoke-Holds redis display display_injective now jti ttl_secs b pos accepted))
