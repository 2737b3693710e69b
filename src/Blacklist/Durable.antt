-- ===== src/Blacklist/Durable.antt =====
-- crates/infrastructure/src/access_token_blacklist/durable.rs over any backend. The table
-- `access_token_revocation_outbox` (migrations/009 and 010) is a map, its key the primary key `jti`;
-- an SQL statement is the function that its text says. Whether Postgres executes a statement is an
-- argument, and so are the readings of the process's clock and of Postgres's (`NOW()`).
pub mod Delivery
pub mod Rejection
pub mod Acceptance
pub mod Flushing
use app_home_services.Base.{
  ℕ, suc, ◌+◌, ◌-◌, ◌^◌, Bool, true, false, not, ◌&&◌, Option, none, some, List, [], ◌∷◌, map, ltb,
  leb, nat_beq, if◌then◌else◌, length, take, any_by, Uuid, nat_eq, from_secs,
}
use app_home_services.Base.Outcome.{Result, ok, err}
use app_home_services.Base.HashMap.{HashMap, get, contains_key, remove, insert, retain}
use app_home_services.Blacklist.Backend.{Backend, BlacklistError, unavailable}

abbrev pub flush_batch_size : ℕ
flush_batch_size = 500

pub record PendingEntry : Type 0 where
  pub added_at : ℕ
  pub ttl : ℕ

abbrev pub is_live : ℕ → PendingEntry → Bool
is_live now entry = ltb (now - entry.added_at) entry.ttl

pub record OutboxRow : Type 0 where
  pub ttl_secs : ℕ
  pub created_at : ℕ
  pub expires_at : ℕ

abbrev pub Outbox : Type 0
Outbox = HashMap Uuid OutboxRow

abbrev pub Pending : Type 0
Pending = HashMap Uuid PendingEntry

unfoldable pub prune_pending : ℕ → Pending → Pending
prune_pending now = retain λ _ entry. is_live now entry

-- `INSERT … ON CONFLICT (jti) DO NOTHING`. A lifetime that does not fit an i64 turns negative, which
-- the table's check refuses.
unfoldable pub journal : ℕ → Bool → Uuid → ℕ → Outbox → Result (Unit {0}) BlacklistError × Outbox
journal db_now executed jti ttl_secs outbox =
    if executed && ltb ttl_secs (2 ^ 63)
    then (
      ok tt,
      if contains_key jti outbox
          then outbox
          else insert jti
              (record {
                ttl_secs = ttl_secs;
                created_at = db_now;
                expires_at = db_now + from_secs ttl_secs;
              })
              outbox,
    )
    else (err unavailable, outbox)

-- `DELETE … WHERE expires_at <= NOW()`
unfoldable pub delete_expired : ℕ → Outbox → Outbox
delete_expired db_now = retain λ _ row. ltb db_now row.expires_at

-- `ORDER BY created_at`
unfoldable pub insert_by_age : Uuid × OutboxRow → List (Uuid × OutboxRow) → List (Uuid × OutboxRow)
insert_by_age r [] = r ∷ []
insert_by_age r (q ∷ rows) =
    if leb r.1.created_at q.1.created_at then r ∷ q ∷ rows else q ∷ insert_by_age r rows

unfoldable pub order_by_age : Outbox → List (Uuid × OutboxRow)
unfolding insert_by_age
order_by_age [] = []
order_by_age (r ∷ rows) = insert_by_age r (order_by_age rows)

-- `SELECT … ORDER BY created_at LIMIT $1`
unfoldable pub select_batch : Outbox → List (Uuid × OutboxRow)
unfolding order_by_age
select_batch outbox = take flush_batch_size (order_by_age outbox)

-- `flushed_set.contains(jti)`, and `jti = ANY($1)`
abbrev pub is_among : Uuid → List Uuid → Bool
is_among jti = any_by (λ j. nat_beq j jti)

-- `DELETE … WHERE jti = ANY($1)`
unfoldable pub delete_flushed : List Uuid → Outbox → Outbox
delete_flushed flushed = retain λ jti _. not (is_among jti flushed)

-- Which statements of one sweep Postgres executes.
pub record Statements : Type 0 where
  pub expiry_executed : Bool
  pub select_executed : Bool
  pub delete_executed : Bool

pub data DbError : Type 0 where
  failed : DbError

module _ (b : Backend) where
  pub record Durable : Type 0 where
    pub inner : b.State
    pub outbox : Outbox
    pub pending : Pending

  -- The loop of `flush_pending`: the flushed tokens, the number of rows that remain, and the backend.
  unfoldable pub send : ℕ → List (Uuid × OutboxRow) → b.State → List Uuid × ℕ × b.State
  send now [] s = ([], 0, s)
  send now ((jti, row) ∷ rows) s =
      let sent = b.revoke now jti row.ttl_secs s in
      let rest = send now rows sent.1 in
      elim sent.0 [ ok _ ↦ (jti ∷ rest.0, rest.1, rest.2) | err _ ↦ (rest.0, suc rest.1, rest.2) ]

  -- What follows the loop, once the rows of the flushed tokens are to go.
  unfoldable pub settle : ℕ → Bool → List Uuid → ℕ → Durable → Result ℕ DbError × Durable
  settle now executed [] remaining d = (ok remaining, d)
  settle now executed (j ∷ flushed) remaining d =
      if executed
      then (
        ok remaining,
        record d {
          outbox = delete_flushed (j ∷ flushed) d.outbox;
          pending =
              retain (λ jti entry. not (is_among jti (j ∷ flushed)) && is_live now entry) d.pending;
        },
      )
      else (err failed, d)

  unfoldable pub flush_pending : ℕ → ℕ → Statements → Durable → Result ℕ DbError × Durable
  flush_pending now db_now sql d =
      if not sql.expiry_executed
      then (err failed, d)
      else (let kept = delete_expired db_now d.outbox in
          if not sql.select_executed
          then (err failed, record d { outbox = kept })
          else (let sent = send now (select_batch kept) d.inner in
              settle now sql.delete_executed sent.0 sent.1
                (record d { inner = sent.2; outbox = kept })))

  unfoldable pub pending_count : ℕ → Durable → ℕ × Durable
  pending_count now d =
      let pruned = prune_pending now d.pending in (length pruned, record d { pending = pruned })

  unfoldable pub revoke :
      ℕ → ℕ → Bool → Uuid → ℕ → Durable → Result (Unit {0}) BlacklistError × Durable
  revoke now db_now executed jti ttl_secs d =
      let sent = b.revoke now jti ttl_secs d.inner in
      elim sent.0 [
        | ok _ ↦ (ok tt, record d { inner = sent.1 })
        | err _ ↦
            let written = journal db_now executed jti ttl_secs d.outbox in
            elim written.0 [
              | err e ↦ (err e, record d { inner = sent.1 })
              | ok _ ↦ (
                ok tt,
                record {
                  inner = sent.1;
                  outbox = written.1;
                  pending =
                      insert jti (record { added_at = now; ttl = from_secs ttl_secs }) d.pending;
                },
              )
            ]
      ]

  -- The backend is asked, once the lock on the pending set is gone.
  unfoldable pub ask_inner : ℕ → Uuid → Durable → Pending → Result Bool BlacklistError × Durable
  ask_inner now jti d pending =
      let asked = b.is_revoked now jti d.inner in
      (asked.0, record d { inner = asked.1; pending = pending })

  unfoldable pub is_revoked : ℕ → Uuid → Durable → Result Bool BlacklistError × Durable
  is_revoked now jti d = elim (get jti d.pending) [
    | none ↦ ask_inner now jti d d.pending
    | some entry ↦
        if is_live now entry then (ok true, d) else ask_inner now jti d (remove jti d.pending)
  ]

-- A call, with the readings of the clocks and Postgres's answers.
pub data Op : Type 0 where
  revokes : ℕ → ℕ → Bool → Uuid → ℕ → Op
  asks : ℕ → Uuid → Op
  flushes : ℕ → ℕ → Statements → Op
  counts : ℕ → Op

module _ (b : Backend) where
  unfoldable pub step : Durable b → Op → Durable b
  step d (revokes now db_now executed jti ttl_secs) =
      (revoke b now db_now executed jti ttl_secs d).1
  step d (asks now jti) = (is_revoked b now jti d).1
  step d (flushes now db_now sql) = (flush_pending b now db_now sql d).1
  step d (counts now) = (pending_count b now d).1

  unfoldable pub run : Durable b → List Op → Durable b
  run d [] = d
  run d (o ∷ os) = run (step d o) os
