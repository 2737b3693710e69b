-- ===== src/Blacklist/Durable/Acceptance.antt =====
-- durable.rs: each method keeps a revoked token rejected, and so does any sequence of calls.
use app_home_services.Base.{
  ℕ, ◌+◌, ◌^◌, ◌≤◌, ◌<◌, ◌≡◌, refl, ◌∙◌, ◌≢◌, ◌⊎◌, inl, inr, Bool, false, ◌&&◌, some, List, [], ◌∷◌,
  arith, ltb, nat_beq, nat_beq_iff, Uuid, nat_eq, from_secs, Bool-cases, Option-cases,
}
use app_home_services.Base.Outcome.{ok, Result-cases}
use app_home_services.Base.HashMap.{
  get, contains_key, remove, insert, IsUnique, get-insert, get-retain, get-remove, insert-IsUnique,
  retain-IsUnique, remove-IsUnique,
}
use app_home_services.Blacklist.Backend.{Backend}
use app_home_services.Blacklist.Durable.{
  PendingEntry, is_live, OutboxRow, Outbox, Pending, prune_pending, journal, Durable, revoke,
  ask_inner, is_revoked, pending_count, Op, revokes, asks, flushes, counts, step, run,
}
use app_home_services.Blacklist.Durable.Delivery.{Delivers}
use app_home_services.Blacklist.Durable.Rejection.{
  IsPending, IsDeliverable, Rejects, Rejects-later, flush_pending-Rejects,
}

module _ (b : Backend) (jti : Uuid) (deadline : ℕ) where
  -- Only an entry that is over is removed, and the one of the token is not.
  remove-IsPending :
      (now : ℕ) (j : Uuid) (pending : Pending) (entry : PendingEntry)
      → now < deadline
      → get j pending ≡ some entry
      → is_live now entry ≡ false
      → IsPending b jti deadline pending
      → IsPending b jti deadline (remove j pending)
  remove-IsPending now j pending entry h there over (e, found, pos, late) =
      (e, ground (arith, get-remove j jti pending, nat_beq_iff j jti), pos, late)

  is_revoked-Rejects :
      (now : ℕ) (j : Uuid) (d : Durable b)
      → now < deadline
      → Rejects b jti deadline now d
      → Rejects b jti deadline now (is_revoked b now j d).1
  unfolding is_revoked ask_inner
  is_revoked-Rejects now j d h (uo, up, good, how) = elim (Option-cases (get j d.pending)) [
    | inl missing ↦
        rw (missing, is_revoked)
          (
            uo,
            up,
            good,
            elim how [
              | inl held ↦ inl (b.is_revoked_keeps now j d.inner jti deadline h held)
              | inr waiting ↦ inr waiting
            ],
          )
    | inr (entry, found) ↦
        rw (found, is_revoked)
          (elim (Bool-cases (is_live now entry)) [
            | inl live ↦ rw live (uo, up, good, how)
            | inr over ↦ rw over (
              uo,
              remove-IsUnique j d.pending up,
              good,
              elim how [
                | inl held ↦ inl (b.is_revoked_keeps now j d.inner jti deadline h held)
                | inr waiting ↦ inr (remove-IsPending now j d.pending entry h found over waiting)
              ],
            )
          ])
  ]

  -- Asked before the deadline, the instance does not call the token valid.
  is_revoked-ne-false :
      (now : ℕ) (d : Durable b)
      → now < deadline
      → Rejects b jti deadline now d
      → (is_revoked b now jti d).0 ≢ ok false
  unfolding is_revoked ask_inner
  is_revoked-ne-false now d h (uo, up, good, inl held) =
      ground (arith, b.is_revoked_reports now d.inner jti deadline h held)
  is_revoked-ne-false now d h (uo, up, good, inr (e, found, pos, late)) = ground arith

  pending_count-Rejects :
      (now : ℕ) (d : Durable b)
      → now < deadline
      → Rejects b jti deadline now d
      → Rejects b jti deadline now (pending_count b now d).1
  unfolding pending_count prune_pending
  pending_count-Rejects now d h (uo, up, good, how) = (
    uo,
    retain-IsUnique _ d.pending up,
    good,
    elim how [
      | inl held ↦ inl held
      | inr (e, found, pos, late) ↦
          inr (e, get-retain _ jti d.pending up ∙ rw found (ground arith), pos, late)
    ],
  )

  insert-IsPending :
      (now : ℕ) (j : Uuid) (ttl_secs : ℕ) (pending : Pending)
      → (j ≡ jti → (0 < ttl_secs) × (deadline ≤ now + from_secs ttl_secs))
      → (j ≡ jti) ⊎ IsPending b jti deadline pending
      → IsPending b jti deadline
          (insert j (record { added_at = now; ttl = from_secs ttl_secs }) pending)
  insert-IsPending now j ttl_secs pending longer how = elim (Bool-cases (nat_beq j jti)) [
    | inl same ↦
        let g = longer ((nat_beq_iff j jti).0 same) in
        (
          record { added_at = now; ttl = from_secs ttl_secs },
          get-insert j jti _ pending ∙ rw same refl,
          omega (arith, g.0),
          g.1,
        )
    | inr other ↦ elim how [
      | inl same ↦ absurd (ground (arith, nat_beq_iff j jti))
      | inr (e, found, pos, late) ↦ (e, get-insert j jti _ pending ∙ rw other found, pos, late)
    ]
  ]

  insert-IsDeliverable :
      (now : ℕ) (j : Uuid) (new : OutboxRow) (outbox : Outbox)
      → (j ≡ jti → Delivers deadline now new)
      → IsDeliverable b jti deadline now outbox
      → IsDeliverable b jti deadline now (insert j new outbox)
  insert-IsDeliverable now j new outbox fresh good row here = elim (Bool-cases (nat_beq j jti)) [
    | inl same ↦
        let g = fresh ((nat_beq_iff j jti).0 same) in
        ground (arith, get-insert j jti new outbox, g.0, g.1)
    | inr other ↦ good row (ground (arith, get-insert j jti new outbox))
  ]

  journal-IsDeliverable :
      (now db_now : ℕ) (executed : Bool) (j : Uuid) (ttl_secs : ℕ) (outbox : Outbox)
      → (j ≡ jti → (0 < ttl_secs) × (deadline ≤ now + from_secs ttl_secs))
      → IsUnique outbox
      → IsDeliverable b jti deadline now outbox
      → IsUnique (journal db_now executed j ttl_secs outbox).1
        × IsDeliverable b jti deadline now (journal db_now executed j ttl_secs outbox).1
  unfolding journal
  journal-IsDeliverable now db_now executed j ttl_secs outbox longer u good =
      elim (Bool-cases (executed && ltb ttl_secs (2 ^ 63))) [
        | inr refused ↦ rw refused (u, good)
        | inl written ↦ rw written (elim (Bool-cases (contains_key j outbox)) [
          | inl old ↦ rw old (u, good)
          | inr new ↦
              rw new (insert-IsUnique j _ outbox u, insert-IsDeliverable now j _ outbox longer good)
        ])
      ]

  revoke-Rejects :
      (now db_now : ℕ) (executed : Bool) (j : Uuid) (ttl_secs : ℕ) (d : Durable b)
      → now < deadline
      → (j ≡ jti → (0 < ttl_secs) × (deadline ≤ now + from_secs ttl_secs))
      → Rejects b jti deadline now d
      → Rejects b jti deadline now (revoke b now db_now executed j ttl_secs d).1
  unfolding revoke
  revoke-Rejects now db_now executed j ttl_secs d h longer (uo, up, good, how) =
      elim (Result-cases (b.revoke now j ttl_secs d.inner).0) [
        | inl (_, sent) ↦ rw (sent, revoke) (uo, up, good, how')
        | inr (_, down) ↦
            rw (down, revoke)
              (elim (Result-cases (journal db_now executed j ttl_secs d.outbox).0) [
                | inl (_, written) ↦ rw written (
                  new.0,
                  insert-IsUnique j _ d.pending up,
                  new.1,
                  elim how [
                    | inl held ↦
                        inl (b.revoke_keeps now j ttl_secs d.inner jti deadline h longer held)
                    | inr waiting ↦
                        inr (insert-IsPending now j ttl_secs d.pending longer (inr waiting))
                  ],
                )
                | inr (_, refused) ↦ rw refused (uo, up, good, how')
              ])
      ]
    where
      how' :
          b.Holds jti deadline (b.revoke now j ttl_secs d.inner).1
          ⊎ IsPending b jti deadline d.pending
      how' = elim how [
        | inl held ↦ inl (b.revoke_keeps now j ttl_secs d.inner jti deadline h longer held)
        | inr waiting ↦ inr waiting
      ]

      new :
          IsUnique (journal db_now executed j ttl_secs d.outbox).1
          × IsDeliverable b jti deadline now (journal db_now executed j ttl_secs d.outbox).1
      new = journal-IsDeliverable now db_now executed j ttl_secs d.outbox longer uo good

  abbrev pub time : Op → ℕ
  time (revokes now _ _ _ _) = now
  time (asks now _) = now
  time (flushes now _ _) = now
  time (counts now) = now

  -- Another revocation of the same token is for as long or longer.
  abbrev pub Harmless : Op → Type 0
  Harmless (revokes now _ _ j ttl_secs) =
      j ≡ jti → (0 < ttl_secs) × (deadline ≤ now + from_secs ttl_secs)
  Harmless (asks _ _) = Unit
  Harmless (flushes _ _ _) = Unit
  Harmless (counts _) = Unit

  -- Harmless calls at times that do not go back, from `now` up to `until`.
  abbrev pub Between : ℕ → ℕ → List Op → Type 0
  Between now until [] = now ≤ until
  Between now until (o ∷ os) = (now ≤ time o) × Harmless o × Between (time o) until os

  step-Rejects :
      (o : Op) (d : Durable b)
      → time o < deadline
      → Harmless o
      → Rejects b jti deadline (time o) d
      → Rejects b jti deadline (time o) (step b d o)
  unfolding step
  step-Rejects (revokes now db_now executed j ttl_secs) d h longer r =
      revoke-Rejects now db_now executed j ttl_secs d h longer r
  step-Rejects (asks now j) d h _ r = is_revoked-Rejects now j d h r
  step-Rejects (flushes now db_now sql) d h _ r =
      flush_pending-Rejects b jti deadline now db_now sql d h r
  step-Rejects (counts now) d h _ r = pending_count-Rejects now d h r

  Between-le : (now until : ℕ) (os : List Op) → Between now until os → now ≤ until
  Between-le now until [] h = h
  Between-le now until (o ∷ os) (h, _, rest) = omega (arith, Between-le (time o) until os rest)

  pub run-Rejects :
      (now until : ℕ) (os : List Op) (d : Durable b)
      → until < deadline
      → Between now until os
      → Rejects b jti deadline now d
      → Rejects b jti deadline until (run b d os)
  unfolding run
  run-Rejects now until [] d h later r = Rejects-later b jti deadline now until d later r
  run-Rejects now until (o ∷ os) d h (later, harmless, rest) r =
      run-Rejects (time o) until os (step b d o) h rest (
        step-Rejects o d (omega (arith, Between-le (time o) until os rest)) harmless
          (Rejects-later b jti deadline now (time o) d later r))

-- A revocation that is accepted, by the backend or by the journal, makes the instance reject.
revoke_accepted :
    (b : Backend) (now db_now : ℕ) (executed : Bool) (jti : Uuid) (ttl_secs : ℕ) (d : Durable b)
    → 0 < ttl_secs
    → IsUnique d.outbox
    → IsUnique d.pending
    → IsDeliverable b jti (now + from_secs ttl_secs) now d.outbox
    → (revoke b now db_now executed jti ttl_secs d).0 ≡ ok tt
    → Rejects b jti (now + from_secs ttl_secs) now (revoke b now db_now executed jti ttl_secs d).1
unfolding revoke
revoke_accepted b now db_now executed jti ttl_secs d pos uo up good accepted =
    elim (Result-cases (b.revoke now jti ttl_secs d.inner).0) [
      | inl (tt, sent) ↦
          rw (sent, revoke) (uo, up, good, inl (b.revoke_holds now jti ttl_secs d.inner pos sent))
      | inr (_, down) ↦
          rw (down, revoke)
            (elim (Result-cases (journal db_now executed jti ttl_secs d.outbox).0) [
              | inl (_, written) ↦ rw written (
                new.0,
                insert-IsUnique jti _ d.pending up,
                new.1,
                inr (
                    insert-IsPending b jti (now + from_secs ttl_secs) now jti ttl_secs d.pending
                      (λ _. (pos, omega arith)) (inl refl)),
              )
              | inr (_, refused) ↦ absurd (ground (arith, accepted, down, refused))
            ])
    ]
  where
    new :
        IsUnique (journal db_now executed jti ttl_secs d.outbox).1
        × IsDeliverable b jti
            (now + from_secs ttl_secs)
            now
            (journal db_now executed jti ttl_secs d.outbox).1
    new =
        journal-IsDeliverable b jti (now + from_secs ttl_secs) now db_now executed jti ttl_secs
          d.outbox (λ _. (pos, omega arith)) uo good

-- Once `revoke` has answered Ok, the instance does not call the token valid before its time is up,
-- whatever calls come in between, whether the backend and Postgres answer or not, and whatever
-- Postgres's clock says. The clock of the process does not go back, other revocations of the token
-- last as long or longer, and so do those of it that the table holds already.
pub is_revoked_after-revoke :
    (b : Backend) (now until db_now : ℕ) (executed : Bool) (jti : Uuid) (ttl_secs : ℕ)
    (d : Durable b) (os : List Op)
    → 0 < ttl_secs
    → IsUnique d.outbox
    → IsUnique d.pending
    → IsDeliverable b jti (now + from_secs ttl_secs) now d.outbox
    → (revoke b now db_now executed jti ttl_secs d).0 ≡ ok tt
    → until < now + from_secs ttl_secs
    → Between b jti (now + from_secs ttl_secs) now until os
    → (is_revoked b until jti (run b (revoke b now db_now executed jti ttl_secs d).1 os)).0
      ≢ ok false
is_revoked_after-revoke b now until db_now executed jti ttl_secs d os pos uo up good accepted h
      times =
    is_revoked-ne-false b jti (now + from_secs ttl_secs) until _ h (
      run-Rejects b jti (now + from_secs ttl_secs) now until os _ h times
        (revoke_accepted b now db_now executed jti ttl_secs d pos uo up good accepted))
