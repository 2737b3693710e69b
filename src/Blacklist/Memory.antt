-- ===== src/Blacklist/Memory.antt =====
-- crates/infrastructure/src/access_token_blacklist/memory.rs. Instants and durations are numbers of
-- nanoseconds. `is_revoked` takes the read lock and then perhaps the write lock, and other tasks may
-- come in between: what each lock guards is a step of its own.
pub mod Revocation
use app_home_services.Base.{
  ℕ, ◌-◌, Bool, true, false, Option, none, some, List, [], ◌∷◌, ltb, if◌then◌else◌, length, Uuid,
  nat_eq, from_secs,
}
use app_home_services.Base.HashMap.{HashMap, get, remove, insert, retain}

pub record RevokedEntry : Type 0 where
  pub revoked_at : ℕ
  pub ttl : ℕ

abbrev pub Revocations : Type 0
Revocations = HashMap Uuid RevokedEntry

-- `now.duration_since(entry.revoked_at) < entry.ttl`
abbrev pub is_live : ℕ → RevokedEntry → Bool
is_live now entry = ltb (now - entry.revoked_at) entry.ttl

pub entry_count : Revocations → ℕ
entry_count entries = length entries

unfoldable pub revoke : ℕ → Uuid → ℕ → Revocations → Revocations
revoke now jti ttl_secs entries =
    insert jti (record { revoked_at = now; ttl = from_secs ttl_secs })
      (retain (λ _ entry. is_live now entry) entries)

-- Under the read lock; `none` falls through to the slow path.
unfoldable pub read_path : ℕ → Uuid → Revocations → Option Bool
read_path now jti entries = elim (get jti entries) [
  | none ↦ some false
  | some entry ↦ if is_live now entry then some true else none
]

-- Under the write lock, which looks again.
unfoldable pub write_path : ℕ → Uuid → Revocations → Revocations × Bool
write_path now jti entries = elim (get jti entries) [
  | none ↦ (entries, false)
  | some entry ↦ if is_live now entry then (entries, true) else (remove jti entries, false)
]

-- What another task does under the write lock.
pub data Locked : Type 0 where
  revokes : ℕ → Uuid → ℕ → Locked
  rechecks : ℕ → Uuid → Locked

unfoldable pub step : Revocations → Locked → Revocations
step entries (revokes now jti ttl_secs) = revoke now jti ttl_secs entries
step entries (rechecks now jti) = (write_path now jti entries).0

unfoldable pub run : Revocations → List Locked → Revocations
run entries [] = entries
run entries (l ∷ ls) = run (step entries l) ls

-- `is_revoked`, with what the other tasks do between its two locks.
unfoldable pub is_revoked : ℕ → ℕ → Uuid → List Locked → Revocations → Revocations × Bool
is_revoked read_at written_at jti between entries = elim (read_path read_at jti entries) [
  | some answer ↦ (run entries between, answer)
  | none ↦ write_path written_at jti (run entries between)
]
