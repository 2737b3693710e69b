-- ===== src/Blacklist/Durable/Delivery.antt =====
-- durable.rs: a revocation that was accepted is not forgotten, neither by this instance nor by the
-- table, and reaches the backend once that is up again.
use app_home_services.Base.{
  ℕ, zero, suc, ◌+◌, ◌≤◌, ◌<◌, ◌≡◌, subst, inl, inr, true, some, List, [], ◌∷◌, arith, leb, nat_beq,
  nat_beq_iff, take, All, Uuid, nat_eq, from_secs, Bool-cases,
}
use app_home_services.Base.Outcome.{ok, Result-cases}
use app_home_services.Base.HashMap.{get, IsUnique}
use app_home_services.Blacklist.Backend.{Backend}
use app_home_services.Blacklist.Durable.{
  OutboxRow, Outbox, insert_by_age, order_by_age, select_batch, is_among, send,
}

module _ (P : Uuid × OutboxRow → Type 0) where
  insert_by_age-All :
      (r : Uuid × OutboxRow) (rows : List (Uuid × OutboxRow))
      → P r
      → All P rows
      → All P (insert_by_age r rows)
  unfolding insert_by_age
  insert_by_age-All r [] p h = (p, tt)
  insert_by_age-All r (q ∷ rows) p h = elim (Bool-cases (leb r.1.created_at q.1.created_at)) [
    | inl older ↦ rw older (p, h)
    | inr newer ↦ rw newer (h.0, insert_by_age-All r rows p h.1)
  ]

  order_by_age-All : (rows : Outbox) → All P rows → All P (order_by_age rows)
  unfolding order_by_age
  order_by_age-All [] h = tt
  order_by_age-All (r ∷ rows) h =
      insert_by_age-All r (order_by_age rows) h.0 (order_by_age-All rows h.1)

  take-All : (n : ℕ) (rows : List (Uuid × OutboxRow)) → All P rows → All P (take n rows)
  take-All zero rows h = tt
  take-All (suc n) [] h = tt
  take-All (suc n) (r ∷ rows) h = (h.0, take-All n rows h.1)

  pub select_batch-All : (rows : Outbox) → All P rows → All P (select_batch rows)
  unfolding select_batch
  select_batch-All rows h = take-All 500 (order_by_age rows) (order_by_age-All rows h)

-- What the table has for a token is all that it holds of it.
pub rows_of_token :
    (P : OutboxRow → Type 0) (jti : Uuid) (outbox : Outbox)
    → IsUnique outbox
    → ((row : OutboxRow) → get jti outbox ≡ some row → P row)
    → All (λ kv. kv.0 ≡ jti → P kv.1) outbox
rows_of_token P jti [] u h = tt
rows_of_token P jti ((k, row) ∷ m) u h = (
  (λ e. h row (ground (arith, nat_beq_iff k jti))),
  rows_of_token P jti m u.1 (λ r found. h r (ground (arith, nat_beq_iff k jti, u.0))),
)

-- A row whose delivery at `now` or later keeps the token on record until the deadline.
abbrev pub Delivers : ℕ → ℕ → OutboxRow → Type 0
Delivers deadline now row = (0 < row.ttl_secs) × (deadline ≤ now + from_secs row.ttl_secs)

module _ (b : Backend) (jti : Uuid) (deadline : ℕ) where
  -- One row of the loop.
  send_row :
      (now : ℕ) (j : Uuid) (row : OutboxRow) (s : b.State)
      → now < deadline
      → (j ≡ jti → Delivers deadline now row)
      → (b.revoke now j row.ttl_secs s).0 ≡ ok tt
      → j ≡ jti
      → b.Holds jti deadline (b.revoke now j row.ttl_secs s).1
  send_row now j row s h good sent same =
      let g = good same in
      b.holds_less _ jti deadline (now + from_secs row.ttl_secs) g.1 (
        subst (λ k. b.Holds k (now + from_secs row.ttl_secs) (b.revoke now j row.ttl_secs s).1) same
          (b.revoke_holds now j row.ttl_secs s g.0 sent))

  pub send-Holds :
      (now : ℕ) (rows : List (Uuid × OutboxRow)) (s : b.State)
      → now < deadline
      → All (λ kv. kv.0 ≡ jti → Delivers deadline now kv.1) rows
      → b.Holds jti deadline s
      → b.Holds jti deadline (send b now rows s).2
  unfolding send
  send-Holds now [] s h good held = held
  send-Holds now ((j, row) ∷ rows) s h good held =
      let rest =
        send-Holds now rows (b.revoke now j row.ttl_secs s).1 h good.1
          (b.revoke_keeps now j row.ttl_secs s jti deadline h good.0 held) in
      elim (Result-cases (b.revoke now j row.ttl_secs s).0) [
        | inl (_, sent) ↦ rw (sent, send) rest
        | inr (_, down) ↦ rw (down, send) rest
      ]

  pub send_flushed :
      (now : ℕ) (rows : List (Uuid × OutboxRow)) (s : b.State)
      → now < deadline
      → All (λ kv. kv.0 ≡ jti → Delivers deadline now kv.1) rows
      → is_among jti (send b now rows s).0 ≡ true
      → b.Holds jti deadline (send b now rows s).2
  unfolding send
  send_flushed now [] s h good among = cc
  send_flushed now ((j, row) ∷ rows) s h good among =
      elim (Result-cases (b.revoke now j row.ttl_secs s).0) [
        | inl (tt, sent) ↦
            rw (sent, send)
              (elim (Bool-cases (nat_beq j jti)) [
                | inl same ↦
                    send-Holds now rows (b.revoke now j row.ttl_secs s).1 h good.1
                      (send_row now j row s h good.0 sent ((nat_beq_iff j jti).0 same))
                | inr other ↦
                    send_flushed now rows (b.revoke now j row.ttl_secs s).1 h good.1
                      (ground (arith, among))
              ])
        | inr (_, down) ↦
            rw (down, send)
              (send_flushed now rows (b.revoke now j row.ttl_secs s).1 h good.1
                (rw (down, send) at among))
      ]
