-- ===== src/Blacklist/InMemory.antt =====
-- `MemoryAccessTokenBlacklist` (memory.rs) behind the port: it never fails, and keeps what the port's
-- callers rely on.
use app_home_services.Base.{
  ℕ, ◌+◌, ◌≤◌, ◌<◌, ◌≡◌, ◌≢◌, Bool, true, false, [], Uuid, nat_eq, from_secs, arith, Option-cases,
  inl, inr,
}
use native.Mathlib.Nat.{le_trans}
use app_home_services.Base.Outcome.{Result, ok}
use app_home_services.Base.HashMap.{IsUnique}
use app_home_services.Blacklist.Memory.{
  Revocations, revoke, is_revoked, revokes, rechecks, read_path, run, step,
}
use app_home_services.Blacklist.Memory.Revocation.{
  Covers, revoke-Covers, revoke-IsUnique, step-Covers, step-IsUnique, read_path-Covers,
}
use app_home_services.Blacklist.Backend.{Backend, BlacklistError}

-- `is_revoked` with no other task in between.
unfoldable pub asked : ℕ → Uuid → Revocations → Revocations × Bool
asked now jti entries = is_revoked now now jti [] entries

asked_cases :
    (P : Revocations → Type 0) (now : ℕ) (jti : Uuid) (entries : Revocations)
    → P entries
    → P (step entries (rechecks now jti))
    → P (asked now jti entries).0
unfolding asked is_revoked run step
asked_cases P now jti entries same looked = elim (Option-cases (read_path now jti entries)) [
  | inl slow ↦ rw (slow, is_revoked) looked
  | inr (answer, fast) ↦ rw (fast, is_revoked) same
]

pub asked-IsUnique :
    (now : ℕ) (jti : Uuid) (entries : Revocations)
    → IsUnique entries
    → IsUnique (asked now jti entries).0
asked-IsUnique now jti entries u =
    asked_cases (λ m. IsUnique m) now jti entries u (step-IsUnique 0 0 entries (rechecks now jti) u)

pub asked-Covers :
    (now : ℕ) (j : Uuid) (entries : Revocations) (jti : Uuid) (deadline : ℕ)
    → IsUnique entries
    → now < deadline
    → Covers deadline jti entries
    → Covers deadline jti (asked now j entries).0
asked-Covers now j entries jti deadline u h c =
    asked_cases (Covers deadline jti) now j entries c
      (step-Covers deadline jti entries (rechecks now j) u h c)

asked-true :
    (now : ℕ) (entries : Revocations) (jti : Uuid) (deadline : ℕ)
    → now < deadline
    → Covers deadline jti entries
    → (asked now jti entries).1 ≡ true
unfolding asked is_revoked
asked-true now entries jti deadline h c =
    rw (read_path-Covers deadline jti now entries h c, is_revoked)

pub revoked-Covers :
    (now : ℕ) (j : Uuid) (ttl_secs : ℕ) (entries : Revocations) (jti : Uuid) (deadline : ℕ)
    → IsUnique entries
    → now < deadline
    → (j ≡ jti → (0 < ttl_secs) × (deadline ≤ now + from_secs ttl_secs))
    → Covers deadline jti entries
    → Covers deadline jti (revoke now j ttl_secs entries)
unfolding step
revoked-Covers now j ttl_secs entries jti deadline u h longer c =
    step-Covers deadline jti entries (revokes now j ttl_secs) u (h, longer) c

-- The entries of a map whose keys are unique.
abbrev pub State : Type 0
State = (entries : Revocations) × IsUnique entries

pub reports :
    (now : ℕ) (entries : Revocations) (jti : Uuid) (deadline : ℕ)
    → now < deadline
    → Covers deadline jti entries
    → ◌≢◌ {A = Result Bool BlacklistError} (ok (asked now jti entries).1) (ok false)
reports now entries jti deadline h c = ground (arith, asked-true now entries jti deadline h c)

abbrev pub memory_backend : Backend
memory_backend = record {
  State = State;
  revoke = λ now jti ttl_secs s.
      (ok tt, (revoke now jti ttl_secs s.0, revoke-IsUnique now jti ttl_secs s.0 s.1));
  is_revoked = λ now jti s.
      (ok (asked now jti s.0).1, ((asked now jti s.0).0, asked-IsUnique now jti s.0 s.1));
  Holds = λ jti deadline s. Covers deadline jti s.0;
  revoke_holds = λ now jti ttl_secs s pos _. revoke-Covers now jti ttl_secs s.0 pos;
  revoke_keeps = λ now j ttl_secs s jti deadline h longer c.
      revoked-Covers now j ttl_secs s.0 jti deadline s.1 h longer c;
  holds_less = λ s jti earlier later h c. (c.0, c.1, c.2, le_trans h c.3);
  is_revoked_keeps = λ now j s jti deadline h c. asked-Covers now j s.0 jti deadline s.1 h c;
  is_revoked_reports = λ now s jti deadline h c. reports now s.0 jti deadline h c;
}
