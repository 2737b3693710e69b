-- ===== src/Blacklist/Durable/Flushing.antt =====
-- durable.rs: what a sweep of the flush worker does with the journaled revocations.
use app_home_services.Base.{
  ℕ, zero, suc, ◌+◌, ◌≤◌, ◌<◌, ◌≡◌, refl, sym, ap, ◌∙◌, subst, ◌⊎◌, inl, inr, Bool, true, false,
  not, some, List, [], ◌∷◌, map, arith, ltb, length, take, All, Uuid, nat_eq, from_secs, Bool-cases,
  ==-refl,
}
use app_home_services.Base.Outcome.{ok}
use app_home_services.Base.HashMap.{
  get, retain, IsUnique, get-retain, retain-IsUnique, length-retain-le,
}
use app_home_services.Blacklist.Backend.{Backend}
use app_home_services.Blacklist.Durable.{
  OutboxRow, Outbox, delete_expired, insert_by_age, order_by_age, select_batch, is_among,
  delete_flushed, Statements, Durable, send, settle, flush_pending,
}
use app_home_services.Blacklist.Durable.Delivery.{
  Delivers, send_flushed, rows_of_token, select_batch-All,
}

-- The token has its row in the table, or is on record with the backend for the row's lifetime.
abbrev pub IsSafe : (b : Backend) → ℕ → Uuid → OutboxRow → Durable b → Type 0
IsSafe b now jti row d =
    (get jti d.outbox ≡ some row) ⊎ b.Holds jti (now + from_secs row.ttl_secs) d.inner

settle-IsSafe :
    (b : Backend) (now : ℕ) (jti : Uuid) (row : OutboxRow) (executed : Bool) (flushed : List Uuid)
    (remaining : ℕ) (d : Durable b)
    → IsUnique d.outbox
    → get jti d.outbox ≡ some row
    → (is_among jti flushed ≡ true → b.Holds jti (now + from_secs row.ttl_secs) d.inner)
    → IsSafe b now jti row (settle b now executed flushed remaining d).1
unfolding settle delete_flushed
settle-IsSafe b now jti row executed [] remaining d u found landed = inl found
settle-IsSafe b now jti row false (j ∷ js) remaining d u found landed = inl found
settle-IsSafe b now jti row true (j ∷ js) remaining d u found landed =
    elim (Bool-cases (is_among jti (j ∷ js))) [
      | inl among ↦ inr (landed among)
      | inr not_among ↦ inl (get-retain _ jti d.outbox u ∙ rw found (rw not_among refl))
    ]

-- A sweep loses no revocation: whatever Postgres and the backend do, a row that has not expired is
-- still in the table afterwards, or the backend has the token on record for the row's lifetime.
pub flush_pending-IsSafe :
    (b : Backend) (now db_now : ℕ) (sql : Statements) (d : Durable b) (jti : Uuid) (row : OutboxRow)
    → IsUnique d.outbox
    → get jti d.outbox ≡ some row
    → db_now < row.expires_at
    → 0 < row.ttl_secs
    → IsSafe b now jti row (flush_pending b now db_now sql d).1
unfolding flush_pending delete_expired
flush_pending-IsSafe b now db_now sql d jti row u found unexpired pos =
    elim (Bool-cases sql.expiry_executed) [
      | inr e ↦ rw e (inl found)
      | inl e ↦ rw e (elim (Bool-cases sql.select_executed) [
        | inr e' ↦ rw e' (inl found')
        | inl e' ↦ rw e' (
            settle-IsSafe b now jti row sql.delete_executed sent.0 sent.1
              (record d { inner = sent.2; outbox = kept }) u' found'
              (send_flushed b jti deadline now (select_batch kept) d.inner (omega arith) rows))
      ])
    ]
  where
    kept : Outbox
    kept = retain (λ _ r. ltb db_now r.expires_at) d.outbox

    deadline : ℕ
    deadline = now + from_secs row.ttl_secs

    u' : IsUnique kept
    u' = retain-IsUnique _ d.outbox u

    found' : get jti kept ≡ some row
    found' = get-retain _ jti d.outbox u ∙ rw found (ground arith)

    rows : All (λ kv. kv.0 ≡ jti → Delivers deadline now kv.1) (select_batch kept)
    rows = select_batch-All _ kept (
        rows_of_token (Delivers deadline now) jti kept u' (λ r here.
          let same : row ≡ r = ground (arith, here, found') in
          subst (Delivers deadline now) same (pos, omega arith)))

    sent : List Uuid × ℕ × b.State
    sent = send b now (select_batch kept) d.inner

abbrev keys : List (Uuid × OutboxRow) → List Uuid
keys = map λ kv. kv.0

-- A backend that is up takes every row of the batch.
send_all :
    (b : Backend)
    → ((now : ℕ) (jti : Uuid) (ttl_secs : ℕ) (s : b.State)
        → (b.revoke now jti ttl_secs s).0 ≡ ok tt)
    → (now : ℕ) (rows : List (Uuid × OutboxRow)) (s : b.State)
    → ((send b now rows s).0 ≡ keys rows) × ((send b now rows s).1 ≡ 0)
unfolding send
send_all b up now [] s = (refl, refl)
send_all b up now ((j, row) ∷ rows) s =
    let rest = send_all b up now rows (b.revoke now j row.ttl_secs s).1 in
    rw (up now j row.ttl_secs s, send) (ap (◌∷◌ j) rest.0, rest.1)

is_among-insert_by_age :
    (k : Uuid) (r : Uuid × OutboxRow) (rows : List (Uuid × OutboxRow))
    → is_among k (keys (insert_by_age r rows)) ≡ is_among k (keys (r ∷ rows))
unfolding insert_by_age
is_among-insert_by_age k r [] = refl
is_among-insert_by_age k r (q ∷ rows) = ground (arith, is_among-insert_by_age k r rows)

is_among-order_by_age :
    (k : Uuid) (rows : Outbox) → is_among k (keys (order_by_age rows)) ≡ is_among k (keys rows)
unfolding order_by_age
is_among-order_by_age k [] = refl
is_among-order_by_age k (r ∷ rows) =
    is_among-insert_by_age k r (order_by_age rows) ∙ ground (arith, is_among-order_by_age k rows)

length-insert_by_age :
    (r : Uuid × OutboxRow) (rows : List (Uuid × OutboxRow))
    → length (insert_by_age r rows) ≡ suc (length rows)
unfolding insert_by_age
length-insert_by_age r [] = refl
length-insert_by_age r (q ∷ rows) = ground (arith, length-insert_by_age r rows)

length-order_by_age : (rows : Outbox) → length (order_by_age rows) ≡ length rows
unfolding order_by_age
length-order_by_age [] = refl
length-order_by_age (r ∷ rows) =
    length-insert_by_age r (order_by_age rows) ∙ ap suc (length-order_by_age rows)

take_whole : (n : ℕ) (rows : List (Uuid × OutboxRow)) → length rows ≤ n → take n rows ≡ rows
take_whole zero [] h = refl
take_whole zero (r ∷ rows) h = absurd (omega arith)
take_whole (suc n) [] h = refl
take_whole (suc n) (r ∷ rows) h = ap (◌∷◌ r) (take_whole n rows (omega arith))

retain_nothing :
    (p : Uuid → Bool) (rows : Outbox)
    → ((k : Uuid) → is_among k (keys rows) ≡ true → p k ≡ false)
    → retain (λ k _. p k) rows ≡ []
retain_nothing p [] h = refl
retain_nothing p ((k, row) ∷ rows) h =
    rw (h k (rw (==-refl k))) (retain_nothing p rows (λ j here. h j (ground (arith, here))))

retain_all : (rows : Outbox) → retain (λ _ _. true) rows ≡ rows
retain_all [] = refl
retain_all (r ∷ rows) = ap (◌∷◌ r) (retain_all rows)

settle_drains :
    (b : Backend) (now : ℕ) (flushed : List Uuid) (d : Durable b)
    → ((k : Uuid) → is_among k (keys d.outbox) ≡ true → is_among k flushed ≡ true)
    → let r = settle b now true flushed 0 d in (r.0 ≡ ok 0) × (r.1.outbox ≡ [])
unfolding settle delete_flushed
settle_drains b now [] d h = (
  refl,
  sym (retain_all d.outbox)
      ∙ retain_nothing (λ _. true) d.outbox (λ k here. absurd (ground (arith, h k here))),
)
settle_drains b now (j ∷ js) d h = (refl, retain_nothing _ d.outbox (λ k here. ap not (h k here)))

-- With Postgres and the backend up, one sweep over a backlog of at most `FLUSH_BATCH_SIZE` rows
-- empties the table, and reports that nothing remains.
pub flush_pending_drains :
    (b : Backend) (now db_now : ℕ) (d : Durable b)
    → ((now : ℕ) (jti : Uuid) (ttl_secs : ℕ) (s : b.State)
        → (b.revoke now jti ttl_secs s).0 ≡ ok tt)
    → length d.outbox ≤ 500
    → let sql : Statements = record {
      expiry_executed = true;
      select_executed = true;
      delete_executed = true;
    } in
      let r = flush_pending b now db_now sql d in (r.0 ≡ ok 0) × (r.1.outbox ≡ [])
unfolding flush_pending delete_expired select_batch
flush_pending_drains b now db_now d up short =
    let kept : Outbox = retain (λ _ row. ltb db_now row.expires_at) d.outbox in
    let fits : length (order_by_age kept) ≤ 500 = omega (
      arith,
      length-order_by_age kept,
      length-retain-le (λ _ row. ltb db_now row.expires_at) d.outbox,
    ) in
    let whole = take_whole 500 (order_by_age kept) fits in
    let sent = send_all b up now (order_by_age kept) d.inner in
    rw (whole, sent.0, sent.1)
      (settle_drains b now (keys (order_by_age kept)) _
        (λ k here. is_among-order_by_age k kept ∙ here))
