-- ===== src/Auth/Aggregate/Rotation.antt =====
-- crates/auth/src/domain/aggregate.rs: what a rotation needs, and what it leaves.
use app_home_services.Base.{
  ℕ, ◌≡◌, refl, ◌↔◌, inl, inr, ◌<◌, Bool, true, false, some, List, [], ◌∷◌, Option-cases, nat_beq,
  arith, Uuid,
}
use app_home_services.Base.Outcome.{ok, err, Result-cases}
use app_home_services.Values.HashedPassword.{HashedPassword}
use app_home_services.Auth.Entities.{
  session_invalidated, Session, NewSession, is_expired, invalidate,
}
use app_home_services.Auth.Aggregate.{
  UserAggregate, find_session, invalidate_first, with_sessions, push_event, rotate_session,
}

pub find_session-invalidate_first :
    (id : Uuid) (ss : List Session) (s : Session)
    → find_session id ss ≡ some s
    → find_session id (invalidate_first id ss) ≡ some (invalidate s)
unfolding find_session invalidate_first invalidate
find_session-invalidate_first id [] s h = cc
find_session-invalidate_first id (t ∷ ss) s h =
    ground (arith, find_session-invalidate_first id ss s)

-- Another session is left as it is.
pub find_session-invalidate_first_other :
    (id j : Uuid) (ss : List Session)
    → nat_beq id j ≡ false
    → find_session j (invalidate_first id ss) ≡ find_session j ss
unfolding find_session invalidate_first invalidate
find_session-invalidate_first_other id j [] h = refl
find_session-invalidate_first_other id j (t ∷ ss) h =
    ground (arith, find_session-invalidate_first_other id j ss)

-- What a rotation needs.
pub IsRotatable : ℕ → UserAggregate → Uuid → Bool → Type 0
IsRotatable now self id token_matches =
    (s : Session) × (find_session id (self.sessions) ≡ some s)
    × (s.is_active ≡ true)
    × (now < s.expires_at)
    × (token_matches ≡ true)

module _ (now : ℕ) (self : UserAggregate) (id : Uuid) (token_matches : Bool) (new_id : Uuid)
    (hash : HashedPassword) (expires_at : ℕ) where
  -- What a success says.
  rotated :
      (n : NewSession) (out : UserAggregate)
      → rotate_session now self id token_matches new_id hash expires_at ≡ ok (n, out)
      → IsRotatable now self id token_matches × (out.sessions ≡ invalidate_first id (self.sessions))
  unfolding rotate_session IsRotatable is_expired with_sessions push_event
  rotated n out h = elim (Option-cases (find_session id (self.sessions))) [
    | inl f ↦ absurd (ground arith)
    | inr (s, f) ↦ ((s, f, ground arith, ground arith, ground arith), ground arith)
  ]

  -- A rotation succeeds exactly if the session is there, active and not expired, and the token is
  -- the one whose hash is stored.
  pub rotate_session_iff :
      ((n : NewSession) × (out : UserAggregate) × (rotate_session now self id token_matches new_id
            hash expires_at
          ≡ ok (n, out)))
      ↔ IsRotatable now self id token_matches
  unfolding rotate_session IsRotatable is_expired
  rotate_session_iff = (
    λ (n, out, h). (rotated n out h).0,
    λ (s, f, active, fresh, matches).
        elim (Result-cases (rotate_session now self id token_matches new_id hash expires_at)) [
          | inl ((n, out), e) ↦ (n, out, e)
          | inr (e, h) ↦ absurd (ground arith)
        ],
  )

  -- Reuse of a token that is rotated away, or any token of an ended session, is reported as
  -- such, whatever the comparison of the token said.
  pub rotate_session_reuse :
      (s : Session)
      → find_session id (self.sessions) ≡ some s
      → s.is_active ≡ false
      → rotate_session now self id token_matches new_id hash expires_at ≡ err session_invalidated
  unfolding rotate_session
  rotate_session_reuse s f a = rw (f, a) refl

  -- A session is rotated at most once: after a success, every further try with it, at any time and
  -- with any token, is answered as a reuse, and the rotation touched no other session.
  pub rotate-rotate_session :
      (n : NewSession) (out : UserAggregate)
      → rotate_session now self id token_matches new_id hash expires_at ≡ ok (n, out)
      → ((later : ℕ) (matches : Bool) (new_id' : Uuid) (hash' : HashedPassword) (expires_at' : ℕ)
          → rotate_session later out id matches new_id' hash' expires_at' ≡ err session_invalidated)
        × ((j : Uuid)
            → nat_beq id j ≡ false
            → find_session j (out.sessions) ≡ find_session j (self.sessions))
  unfolding rotate_session with_sessions push_event IsRotatable invalidate
  rotate-rotate_session n out h =
      let ((s, f, _, _, _), swept) = rotated n out h in
      (
        λ later matches new_id' hash' expires_at'.
            rw (swept, find_session-invalidate_first id (self.sessions) s f) refl,
        λ j other. rw swept (find_session-invalidate_first_other id j (self.sessions) other),
      )
