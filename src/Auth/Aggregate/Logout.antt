-- ===== src/Auth/Aggregate/Logout.antt =====
-- crates/auth/src/domain/aggregate.rs: the ends of sessions, one and all of a user, and the cap.
use app_home_services.Base.{
  ℕ, Bool, subst, ltb, ◌&&◌, ◌≡◌, refl, sym, ap, ◌↔◌, inl, inr, ◌<◌, true, false, some, List, [],
  ◌∷◌, ◌++◌, map, All, filter_by, length, Option-cases, Bool-cases, arith, Uuid,
}
use app_home_services.Base.Outcome.{ok, Result-cases}
use app_home_services.Values.AuthMethod.{AuthMethod}
use app_home_services.Values.HashedPassword.{HashedPassword}
use app_home_services.Values.Events.{Event, user_logged_out}
use app_home_services.Auth.Entities.{Session, NewSession, is_expired, invalidate}
use app_home_services.Auth.Aggregate.{
  UserAggregate, find_session, invalidate_session, is_current, add_session, end_session,
  end_sessions, invalidate_all_active_sessions,
}

-- The event of a session that is ended.
abbrev pub logged_out : ℕ → UserAggregate → Session → Event
logged_out now self s = user_logged_out (record {
  user_id = self.user.id;
  session_id = s.id;
  method = s.auth_method;
  occurred_at = now;
})

append_assoc {ℓ} : {A : Type ℓ} (xs ys zs : List A) → (xs ++ ys) ++ zs ≡ xs ++ (ys ++ zs)
append_assoc [] ys zs = refl
append_assoc (x ∷ xs) ys zs = ap (λ l. x ∷ l) (append_assoc xs ys zs)

append_empty {ℓ} : {A : Type ℓ} (xs : List A) → xs ++ [] ≡ xs
append_empty [] = refl
append_empty (x ∷ xs) = ap (λ l. x ∷ l) (append_empty xs)

invalidate_inactive : (s : Session) → s.is_active ≡ false → invalidate s ≡ s
unfolding invalidate
invalidate_inactive s h =
    ap
      (λ b. record {
        id = s.id;
        user_id = s.user_id;
        refresh_token_hash = s.refresh_token_hash;
        expires_at = s.expires_at;
        is_active = b;
        created_at = s.created_at;
        auth_method = s.auth_method;
      })
      (sym h)

every_invalidated : (ss : List Session) → All (λ s. s.is_active ≡ false) (map invalidate ss)
unfolding invalidate
every_invalidated [] = tt
every_invalidated (s ∷ ss) = (refl, every_invalidated ss)

module _ (now : ℕ) (self : UserAggregate) where
  end_sessions_lem :
      (ss : List Session) (events : List Event)
      → end_sessions now self ss events
        ≡ (map invalidate ss, events ++ map (logged_out now self) (filter_by (λ s. s.is_active) ss))
  unfolding end_sessions end_session invalidate
  end_sessions_lem [] events = ap (λ e. ([], e)) (sym (append_empty events))
  end_sessions_lem (s ∷ ss) events = elim (Bool-cases (s.is_active)) [
    | inl active ↦
        rw
          (
            active,
            end_sessions_lem ss (events ++ logged_out now self s ∷ []),
            append_assoc events (logged_out now self s ∷ [])
                (map (logged_out now self) (filter_by (λ t. t.is_active) ss)),
          )
          refl
    | inr inactive ↦ rw (inactive, end_sessions_lem ss events, invalidate_inactive s inactive) refl
  ]

  -- Afterwards every session of the aggregate is ended, nothing else of it has changed, and a
  -- logout event has been added for each session that was active, in their order, and for no other.
  pub invalidate_all_active_sessions_lem :
      (invalidate_all_active_sessions now self ≡ record {
        user = self.user;
        sessions = map invalidate (self.sessions);
        pending_events =
            self.pending_events
            ++ map (logged_out now self) (filter_by (λ s. s.is_active) (self.sessions));
      })
      × All (λ s. s.is_active ≡ false) ((invalidate_all_active_sessions now self).sessions)
  unfolding invalidate_all_active_sessions
  invalidate_all_active_sessions_lem = (
    rw (end_sessions_lem (self.sessions) (self.pending_events)) refl,
    rw (end_sessions_lem (self.sessions) (self.pending_events)) (every_invalidated (self.sessions)),
  )

  -- A logout goes through exactly if the session is there, belongs to the user, is active and has
  -- not expired.
  pub invalidate_session_iff :
      (id : Uuid)
      → ((m : AuthMethod) × (out : UserAggregate) × (invalidate_session now self id ≡ ok (m, out)))
        ↔ ((s : Session) × (find_session id (self.sessions) ≡ some s)
            × (s.user_id ≡ self.user.id)
            × (s.is_active ≡ true)
            × (now < s.expires_at))
  unfolding invalidate_session is_expired
  invalidate_session_iff id = (
    λ (m, out, h). elim (Option-cases (find_session id (self.sessions))) [
      | inl f ↦ absurd (ground arith)
      | inr (s, f) ↦ (s, f, ground arith, ground arith, ground arith)
    ],
    λ (s, f, own, active, fresh). elim (Result-cases (invalidate_session now self id)) [
      | inl ((m, out), e) ↦ (m, out, e)
      | inr (e, h) ↦ absurd (ground arith)
    ],
  )

  is_current_lem : (s : Session) → is_current now s ≡ (s.is_active && ltb now (s.expires_at))
  unfolding is_current is_expired
  is_current_lem s = ground arith

  counted :
      (id : Uuid) (hash : HashedPassword) (expires_at : ℕ) (m : AuthMethod)
      → ((n : NewSession) × (out : UserAggregate) × (add_session now self id hash expires_at m
            ≡ ok (n, out)))
        ↔ (length (filter_by (is_current now) (self.sessions)) < 25)
  unfolding add_session
  counted id hash expires_at m = (
    λ (n, out, h). ground arith,
    λ room. elim (Result-cases (add_session now self id hash expires_at m)) [
      | inl ((n, out), e) ↦ (n, out, e)
      | inr (e, h) ↦ absurd (ground arith)
    ],
  )

  -- A further session is let in exactly while fewer than 25 of the sessions are active and have an
  -- expiry that lies ahead.
  pub add_session_iff :
      (id : Uuid) (hash : HashedPassword) (expires_at : ℕ) (m : AuthMethod)
      → ((n : NewSession) × (out : UserAggregate) × (add_session now self id hash expires_at m
            ≡ ok (n, out)))
        ↔ (length (filter_by (λ s. s.is_active && ltb now (s.expires_at)) (self.sessions)) < 25)
  unfolding add_session
  add_session_iff id hash expires_at m =
      subst
        (λ (p : Session → Bool).
          ((n : NewSession) × (out : UserAggregate) × (add_session now self id hash expires_at m
              ≡ ok (n, out)))
          ↔ (length (filter_by p (self.sessions)) < 25))
        (λ i s. is_current_lem s i) (counted id hash expires_at m)
