-- ===== src/Blacklist/Redis.antt =====
-- `RedisAccessTokenBlacklist` (crates/infrastructure/src/access_token_blacklist/redis.rs) over any
-- Redis server, behind the port. A list says how the next round trips go; past its end they are
-- answered.
pub mod Port
pub mod Lasting
use app_home_services.Base.{
  ℕ, ◌+◌, ◌%◌, ◌^◌, ◌≤◌, ◌<◌, ◌≡◌, ◌≢◌, refl, sym, ap, ◌∙◌, Bool, true, false, Option, none, some,
  List, [], ◌∷◌, ◌++◌, Uuid, ltb, nat_beq, ◌==◌, ==-refl, if◌then◌else◌, from_secs, subst, arith,
  Bool-cases, inl, inr, ◌⊎◌,
}
use app_home_services.Base.Text.{Text, text, text_eq, text_beq_iff}
use app_home_services.Base.Outcome.{Result, ok, err}
use app_home_services.Redis.{
  Redis, Item, item, live, live-some, exists_count, Link, delivers, fails, elapses, Outcome,
  replied, failed, elapsed, round_trip,
}
use app_home_services.Blacklist.Backend.{Backend, BlacklistError, unavailable}

module _ (redis : Redis) (display : Uuid → Text) where
  pub record RedisAccessTokenBlacklist : Type 0 where
    pub server : redis.State
    pub links : List Link
    pub redis_error_count : ℕ

  abbrev pub next_link : List Link → Link
  next_link [] = delivers
  next_link (l ∷ _) = l

  abbrev pub later_links : List Link → List Link
  later_links [] = []
  later_links (_ ∷ rest) = rest

  unfoldable pub key : Uuid → Text
  key jti = text "acl:revoked:" ++ display jti

  unfoldable pub record_redis_error : RedisAccessTokenBlacklist → RedisAccessTokenBlacklist
  record_redis_error b = record b { redis_error_count = (b.redis_error_count + 1) % 2 ^ 64 }

  -- After a round trip.
  abbrev pub travelled : RedisAccessTokenBlacklist → redis.State → RedisAccessTokenBlacklist
  travelled b s = record {
    server = s;
    links = later_links b.links;
    redis_error_count = b.redis_error_count;
  }

  -- `conn.set_ex::<_, _, ()>(key, "1", ttl_secs)`
  unfoldable pub set_ex : ℕ → Uuid → ℕ → redis.State → Option (Unit {0}) × redis.State
  set_ex now jti ttl_secs s = (some tt, redis.set_ex now (key jti) 1 ttl_secs s)

  -- `conn.exists::<_, i64>(key)`
  unfoldable pub exists : ℕ → Uuid → redis.State → Option ℕ × redis.State
  exists now jti s = (some (redis.exists now (key jti) s).0, (redis.exists now (key jti) s).1)

  abbrev pub revoke_outcome :
      RedisAccessTokenBlacklist
      → Outcome (Unit {0}) × redis.State
      → Result (Unit {0}) BlacklistError × RedisAccessTokenBlacklist
  revoke_outcome b (replied _, s) = (ok tt, travelled b s)
  revoke_outcome b (failed, s) = (err unavailable, record_redis_error (travelled b s))
  revoke_outcome b (elapsed, s) = (err unavailable, record_redis_error (travelled b s))

  unfoldable pub revoke :
      ℕ
      → Uuid
      → ℕ
      → RedisAccessTokenBlacklist
      → Result (Unit {0}) BlacklistError × RedisAccessTokenBlacklist
  revoke now jti ttl_secs b =
      if nat_beq ttl_secs 0
      then (ok tt, b)
      else revoke_outcome b (round_trip (next_link b.links) (set_ex now jti ttl_secs) b.server)

  abbrev pub is_revoked_outcome :
      RedisAccessTokenBlacklist
      → Outcome ℕ × redis.State
      → Result Bool BlacklistError × RedisAccessTokenBlacklist
  is_revoked_outcome b (replied count, s) = (ok (ltb 0 count), travelled b s)
  is_revoked_outcome b (failed, s) = (err unavailable, record_redis_error (travelled b s))
  is_revoked_outcome b (elapsed, s) = (err unavailable, record_redis_error (travelled b s))

  unfoldable pub is_revoked :
      ℕ → Uuid → RedisAccessTokenBlacklist → Result Bool BlacklistError × RedisAccessTokenBlacklist
  is_revoked now jti b =
      is_revoked_outcome b (round_trip (next_link b.links) (exists now jti) b.server)
