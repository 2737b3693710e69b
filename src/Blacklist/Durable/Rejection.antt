-- ===== src/Blacklist/Durable/Rejection.antt =====
-- durable.rs: a token whose revocation was accepted stays rejected by this instance.
use app_home_services.Base.{
  ℕ, ◌+◌, ◌≤◌, ◌<◌, ◌≡◌, ◌∙◌, ◌⊎◌, inl, inr, Bool, true, false, some, List, [], ◌∷◌, arith, All,
  Uuid, nat_eq, Bool-cases,
}
use app_home_services.Base.HashMap.{get, IsUnique, get-retain, get-retain_present, retain-IsUnique}
use app_home_services.Blacklist.Backend.{Backend}
use app_home_services.Blacklist.Durable.{
  PendingEntry, OutboxRow, Outbox, Pending, delete_expired, select_batch, is_among, delete_flushed,
  Statements, Durable, send, settle, flush_pending,
}
use app_home_services.Blacklist.Durable.Delivery.{
  Delivers, send-Holds, send_flushed, rows_of_token, select_batch-All,
}

module _ (b : Backend) (jti : Uuid) (deadline : ℕ) where
  -- The pending set rejects the token until the deadline.
  abbrev pub IsPending : Pending → Type 0
  IsPending pending =
      (e : PendingEntry) × (get jti pending ≡ some e)
      × (0 < e.ttl)
      × (deadline ≤ e.added_at + e.ttl)

  -- If the table has a row of the token, its delivery from `now` on is in time.
  abbrev pub IsDeliverable : ℕ → Outbox → Type 0
  IsDeliverable now outbox =
      (row : OutboxRow) → get jti outbox ≡ some row → Delivers deadline now row

  -- The instance rejects the token until the deadline.
  abbrev pub Rejects : ℕ → Durable b → Type 0
  Rejects now d =
      IsUnique d.outbox
      × IsUnique d.pending
      × IsDeliverable now d.outbox
      × (b.Holds jti deadline d.inner ⊎ IsPending d.pending)

  pub Rejects-later :
      (now later : ℕ) (d : Durable b) → now ≤ later → Rejects now d → Rejects later d
  Rejects-later now later d h (uo, up, good, how) =
      (uo, up, (λ row found. let g = good row found in (g.0, omega arith)), how)

  delete_expired-IsDeliverable :
      (now db_now : ℕ) (outbox : Outbox)
      → IsUnique outbox
      → IsDeliverable now outbox
      → IsDeliverable now (delete_expired db_now outbox)
  unfolding delete_expired
  delete_expired-IsDeliverable now db_now outbox u good row found =
      good row (get-retain_present _ jti outbox u found)

  delete_expired-IsUnique :
      (db_now : ℕ) (outbox : Outbox) → IsUnique outbox → IsUnique (delete_expired db_now outbox)
  unfolding delete_expired
  delete_expired-IsUnique db_now outbox u = retain-IsUnique _ outbox u

  settle-Rejects :
      (now : ℕ) (executed : Bool) (flushed : List Uuid) (remaining : ℕ) (d : Durable b)
      → now < deadline
      → (is_among jti flushed ≡ true → b.Holds jti deadline d.inner)
      → Rejects now d
      → Rejects now (settle b now executed flushed remaining d).1
  unfolding settle delete_flushed
  settle-Rejects now executed [] remaining d h landed r = r
  settle-Rejects now false (j ∷ js) remaining d h landed r = r
  settle-Rejects now true (j ∷ js) remaining d h landed (uo, up, good, how) = (
    retain-IsUnique _ d.outbox uo,
    retain-IsUnique _ d.pending up,
    (λ row found. good row (get-retain_present _ jti d.outbox uo found)),
    elim (Bool-cases (is_among jti (j ∷ js))) [
      | inl among ↦ inl (landed among)
      | inr not_among ↦ elim how [
        | inl held ↦ inl held
        | inr (e, found, pos, late) ↦
            inr (e, get-retain _ jti d.pending up ∙ rw (found, not_among) (ground arith), pos, late)
      ]
    ],
  )

  pub flush_pending-Rejects :
      (now db_now : ℕ) (sql : Statements) (d : Durable b)
      → now < deadline
      → Rejects now d
      → Rejects now (flush_pending b now db_now sql d).1
  unfolding flush_pending
  flush_pending-Rejects now db_now sql d h (uo, up, good, how) =
      elim (Bool-cases sql.expiry_executed) [
        | inr e ↦ rw e (uo, up, good, how)
        | inl e ↦ rw e (elim (Bool-cases sql.select_executed) [
          | inr e' ↦ rw e' (uo', up, good', how)
          | inl e' ↦ rw e' (
              settle-Rejects now sql.delete_executed sent.0 sent.1
                (record d { inner = sent.2; outbox = kept }) h landed (uo', up, good', how'))
        ])
      ]
    where
      kept : Outbox
      kept = delete_expired db_now d.outbox

      uo' : IsUnique kept
      uo' = delete_expired-IsUnique db_now d.outbox uo

      good' : IsDeliverable now kept
      good' = delete_expired-IsDeliverable now db_now d.outbox uo good

      rows : All (λ kv. kv.0 ≡ jti → Delivers deadline now kv.1) (select_batch kept)
      rows = select_batch-All _ kept (rows_of_token (Delivers deadline now) jti kept uo' good')

      sent : List Uuid × ℕ × b.State
      sent = send b now (select_batch kept) d.inner

      landed : is_among jti sent.0 ≡ true → b.Holds jti deadline sent.2
      landed = send_flushed b jti deadline now (select_batch kept) d.inner h rows

      how' : b.Holds jti deadline sent.2 ⊎ IsPending d.pending
      how' = elim how [
        | inl held ↦ inl (send-Holds b jti deadline now (select_batch kept) d.inner h rows held)
        | inr waiting ↦ inr waiting
      ]
