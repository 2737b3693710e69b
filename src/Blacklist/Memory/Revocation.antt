-- ===== src/Blacklist/Memory/Revocation.antt =====
-- memory.rs: a revoked token is reported until its time is up, whatever else happens.
use app_home_services.Base.{
  ℕ, ◌+◌, ◌≤◌, ◌<◌, ◌≡◌, refl, ◌⊎◌, inl, inr, true, false, none, some, List, [], ◌∷◌, arith,
  nat_beq, nat_beq_iff, All, Uuid, nat_eq, from_secs, min, Option-cases, Bool-cases, ◌∙◌,
}
use app_home_services.Base.HashMap.{
  get, retain, insert, remove, IsUnique, get-insert, get-retain, get-remove, remove_absent,
  insert-IsUnique, retain-IsUnique, remove-IsUnique,
}
use app_home_services.Blacklist.Memory.{
  RevokedEntry, Revocations, is_live, revoke, read_path, write_path, Locked, revokes, rechecks,
  step, run, is_revoked,
}

-- The token is on the list until `deadline` at least.
abbrev pub Covers : ℕ → Uuid → Revocations → Type 0
Covers deadline jti entries =
    (e : RevokedEntry) × (get jti entries ≡ some e)
    × (0 < e.ttl)
    × (deadline ≤ e.revoked_at + e.ttl)

-- What another task may do while the token has to stay revoked: anything before the deadline, but
-- revoke the same token only for as long or longer.
abbrev pub Harmless : ℕ → Uuid → Locked → Type 0
Harmless deadline jti (revokes now j ttl_secs) =
    (now < deadline) × (j ≡ jti → (0 < ttl_secs) × (deadline ≤ now + from_secs ttl_secs))
Harmless deadline jti (rechecks now j) = now < deadline

pub revoke-Covers :
    (now : ℕ) (jti : Uuid) (ttl_secs : ℕ) (entries : Revocations)
    → 0 < ttl_secs
    → Covers (now + from_secs ttl_secs) jti (revoke now jti ttl_secs entries)
unfolding revoke
revoke-Covers now jti ttl_secs entries pos = (
  record { revoked_at = now; ttl = from_secs ttl_secs },
  get-insert jti jti _ (retain (λ _ entry. is_live now entry) entries) ∙ ground arith,
  omega arith,
  omega arith,
)

pub revoke-IsUnique :
    (now : ℕ) (jti : Uuid) (ttl_secs : ℕ) (entries : Revocations)
    → IsUnique entries
    → IsUnique (revoke now jti ttl_secs entries)
unfolding revoke
revoke-IsUnique now jti ttl_secs entries u =
    insert-IsUnique jti _ (retain (λ _ entry. is_live now entry) entries)
      (retain-IsUnique _ entries u)

module _ (deadline : ℕ) (jti : Uuid) where
  pub step-Covers :
      (entries : Revocations) (l : Locked)
      → IsUnique entries
      → Harmless deadline jti l
      → Covers deadline jti entries
      → Covers deadline jti (step entries l)
  unfolding step revoke write_path
  step-Covers entries (revokes now j ttl_secs) u h (e, found, pos, late) =
      let swept = retain (λ _ entry. is_live now entry) entries in
      let kept : get jti swept ≡ some e = get-retain _ jti entries u ∙ rw found (ground arith) in
      elim (Bool-cases (nat_beq j jti)) [
        | inl same ↦
            let again = h.1 ((nat_beq_iff j jti).0 same) in
            (
              record { revoked_at = now; ttl = from_secs ttl_secs },
              get-insert j jti _ swept ∙ rw same refl,
              omega (arith, again.0),
              again.1,
            )
        | inr other ↦ (e, get-insert j jti _ swept ∙ rw other kept, pos, late)
      ]
  step-Covers entries (rechecks now j) u h (e, found, pos, late) =
      elim (Bool-cases (nat_beq j jti)) [
        | inl same ↦ (e, ground (arith, nat_beq_iff j jti), pos, late)
        | inr other ↦ (e, ground (arith, get-remove j jti entries), pos, late)
      ]

  pub step-IsUnique :
      (entries : Revocations) (l : Locked) → IsUnique entries → IsUnique (step entries l)
  unfolding step write_path
  step-IsUnique entries (revokes now j ttl_secs) u = revoke-IsUnique now j ttl_secs entries u
  step-IsUnique entries (rechecks now j) u = ground (arith, remove-IsUnique j entries u)

  run-Covers :
      (entries : Revocations) (ls : List Locked)
      → IsUnique entries
      → All (Harmless deadline jti) ls
      → Covers deadline jti entries
      → IsUnique (run entries ls) × Covers deadline jti (run entries ls)
  unfolding run
  run-Covers entries [] u hs c = (u, c)
  run-Covers entries (l ∷ ls) u hs c =
      run-Covers (step entries l) ls (step-IsUnique entries l u) hs.1
        (step-Covers entries l u hs.0 c)

  -- The read path answers at once.
  pub read_path-Covers :
      (now : ℕ) (entries : Revocations)
      → now < deadline
      → Covers deadline jti entries
      → read_path now jti entries ≡ some true
  unfolding read_path
  read_path-Covers now entries h (e, found, pos, late) = rw (found, read_path) (ground arith)

  pub write_path-Covers :
      (now : ℕ) (entries : Revocations)
      → now < deadline
      → Covers deadline jti entries
      → write_path now jti entries ≡ (entries, true)
  unfolding write_path
  write_path-Covers now entries h (e, found, pos, late) = rw (found, write_path) (ground arith)

-- A token that is revoked for some time is reported as revoked by every later `is_revoked` within
-- that time, whatever other tasks do before it and between its two locks, as long as they revoke
-- the same token only for as long or longer.
pub is_revoked-revoke :
    (now read_at written_at : ℕ) (jti : Uuid) (ttl_secs : ℕ) (entries : Revocations)
    (before between : List Locked)
    → IsUnique entries
    → 0 < ttl_secs
    → read_at < now + from_secs ttl_secs
    → All (Harmless (now + from_secs ttl_secs) jti) before
    → All (Harmless (now + from_secs ttl_secs) jti) between
    → (is_revoked read_at written_at jti between (run (revoke now jti ttl_secs entries) before)).1
      ≡ true
unfolding is_revoked
is_revoked-revoke now read_at written_at jti ttl_secs entries before between u pos h hb hw =
    rw (read_path-Covers (now + from_secs ttl_secs) jti read_at _ h reached.1, is_revoked)
  where
    reached :
        IsUnique (run (revoke now jti ttl_secs entries) before)
        × Covers (now + from_secs ttl_secs) jti (run (revoke now jti ttl_secs entries) before)
    reached =
        run-Covers (now + from_secs ttl_secs) jti (revoke now jti ttl_secs entries) before
          (revoke-IsUnique now jti ttl_secs entries u) hb
          (revoke-Covers now jti ttl_secs entries pos)

-- A revocation that comes in after `is_revoked` has seen an expired entry, and before it takes the
-- write lock, is seen by it and is not removed.
pub is_revoked_between :
    (now read_at written_at : ℕ) (jti : Uuid) (ttl_secs : ℕ) (entries : Revocations)
    (after : List Locked)
    → IsUnique entries
    → read_path read_at jti entries ≡ none
    → 0 < ttl_secs
    → written_at < now + from_secs ttl_secs
    → All (Harmless (now + from_secs ttl_secs) jti) after
    → let r = is_revoked read_at written_at jti (revokes now jti ttl_secs ∷ after) entries in
      (r.1 ≡ true) × Covers (now + from_secs ttl_secs) jti r.0
unfolding is_revoked run step
is_revoked_between now read_at written_at jti ttl_secs entries after u stale pos h ha =
    let c =
      run-Covers (now + from_secs ttl_secs) jti (revoke now jti ttl_secs entries) after
        (revoke-IsUnique now jti ttl_secs entries u) ha
        (revoke-Covers now jti ttl_secs entries pos) in
    rw (stale, is_revoked)
      (rw (write_path-Covers (now + from_secs ttl_secs) jti written_at _ h c.1) (refl, c.1))

-- What `revoke` sweeps: afterwards every entry is live, or is the one just written.
retain-All-live :
    (now : ℕ) (jti : Uuid) (entries : Revocations)
    → All
        (λ kv. (kv.0 ≡ jti) ⊎ (is_live now kv.1 ≡ true))
        (retain (λ _ entry. is_live now entry) entries)
retain-All-live now jti [] = tt
retain-All-live now jti ((k, e) ∷ m) = elim (Bool-cases (is_live now e)) [
  | inl live ↦ rw live (inr live, retain-All-live now jti m)
  | inr over ↦ rw over (retain-All-live now jti m)
]

insert-All :
    (P : Uuid × RevokedEntry → Type 0) (k : Uuid) (e : RevokedEntry) (m : Revocations)
    → P (k, e)
    → All P m
    → All P (insert k e m)
insert-All P k e [] p h = (p, tt)
insert-All P k e ((j, f) ∷ m) p h = elim (Bool-cases (nat_beq j k)) [
  | inl same ↦ rw same (p, h.1)
  | inr other ↦ rw other (h.0, insert-All P k e m p h.1)
]

-- After `revoke` the list holds no entry whose time is up, but perhaps the one just written.
pub revoke_sweeps :
    (now : ℕ) (jti : Uuid) (ttl_secs : ℕ) (entries : Revocations)
    → All (λ kv. (kv.0 ≡ jti) ⊎ (is_live now kv.1 ≡ true)) (revoke now jti ttl_secs entries)
unfolding revoke
revoke_sweeps now jti ttl_secs entries =
    insert-All _ jti _ _ (inl refl) (retain-All-live now jti entries)

-- Once the time of a token's entry is up, `is_revoked` lets the token pass and removes the entry;
-- it lets a token pass that has no entry, and then leaves the list as it is.
pub is_revoked_over :
    (read_at written_at : ℕ) (jti : Uuid) (entries : Revocations)
    → ((e : RevokedEntry)
        → get jti entries ≡ some e
        → e.revoked_at + e.ttl ≤ min read_at written_at)
    → let r = is_revoked read_at written_at jti [] entries in
      (r.1 ≡ false) × (r.0 ≡ remove jti entries)
unfolding is_revoked read_path write_path run
is_revoked_over read_at written_at jti entries h = elim (Option-cases (get jti entries)) [
  | inl missing ↦ ground (arith, remove_absent jti entries missing)
  | inr (e, found) ↦ ground (arith, h e)
]
