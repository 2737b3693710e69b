-- ===== src/Auth/UseCases/Refresh.antt =====
-- crates/auth/src/application/use_cases/refresh_token.rs: the reuse of a refresh token.
use app_home_services.Base.{
  ◌≡◌, sym, ◌∙◌, ap, subst, ◌≢◌, inl, inr, false, Option, none, some, List, [], map, All, arith,
  Uuid,
}
use app_home_services.Base.Text.{Text}
use app_home_services.Base.Outcome.{Result, ok, err, ok_or}
use app_home_services.Auth.Entities.{
  AuthError, session_invalidated, invalid_credentials, user_not_found, token_verification_failed,
  session_not_found, session_expired, invalid_refresh_token, rate_limited, token_generation_failed,
  internal_error, Session, NewSession,
}
use app_home_services.Auth.Aggregate.{
  UserAggregate, find_session, rotate_session, invalidate_all_active_sessions,
}
use app_home_services.Auth.Store.{Db, Query, lift, ◌>>=◌}
use app_home_services.Auth.Store.Rows.{into_session, collect}
use app_home_services.Auth.Store.UserRepo.{save_aggregate, rows_of}
use app_home_services.Auth.Store.Frames.{
  bind_err, bind_failed, lift-IsReadOnly, bind-IsReadOnly, find_aggregate_by_id-IsReadOnly,
  IsReadOnly,
}
use app_home_services.Auth.Store.Saving.{saved_tables, inserted, ended}
use app_home_services.Auth.Store.Coverage.{
  loaded_rows, collect_ids, invalidated_ids-invalidate_all_active_sessions, user_rows_ended,
}
use app_home_services.Auth.Tokens.{
  Crypto, JwtServiceImpl, RefreshTokenClaims, TokenPair, generate_token_pair,
  validate_refresh_token,
}
use app_home_services.Auth.UseCases.Verified.{present}
use app_home_services.Auth.UseCases.{
  Draws, AuthSettings, hash_refresh_token, compare_token, on_rotation, refresh_token, timestamp,
  expires_at,
}
use app_home_services.Auth.UseCases.Login.{hash_refresh_token-IsReadOnly}
use app_home_services.Auth.UseCases.Quiet.{
  IsQuiet, bind-IsQuiet, lift-IsQuiet, save_aggregate-IsQuiet, find_aggregate_by_id-IsQuiet,
  hash_refresh_token-IsQuiet, compare_token-IsQuiet, tokens_quiet, claims_quiet,
}
use app_home_services.Auth.UseCases.Found.{found_sessions}

-- A step that cannot report a reuse succeeded, if one is reported.
past {ℓ κ} :
    {A : Type ℓ} {B : Type κ} (m : Query A) (k : A → Query B) (db : Db)
    → IsQuiet m
    → ((m >>= k) db).0 ≡ err session_invalidated
    → (a : A) × ((m db).0 ≡ ok a)
      × ((k a (m db).1).0 ≡ err session_invalidated)
      × ((m >>= k) db ≡ k a (m db).1)
past m k db q h = elim (bind_err m k db h) [
  | inl e ↦ absurd (q.quiet db e)
  | inr (a, e, e', same) ↦ (a, e, e', same)
]

-- If the computation reports a reuse, on tables that hold the user's sessions, it has ended them.
record IsRevoking {ℓ} {A : Type ℓ} (id : Uuid) (ss : List Session) (m : Query A) : Type ℓ where
  revokes :
      (db : Db)
      → collect into_session (rows_of id (db.tables)) ≡ ok ss
      → (m db).0 ≡ err session_invalidated
      → All (λ r. r.user_id ≡ id → r.is_active ≡ false) ((m db).1.tables.sessions)

bind-IsRevoking {ℓ κ} :
    {A : Type ℓ} {B : Type κ} (id : Uuid) (ss : List Session) (m : Query A) (k : A → Query B)
    → IsQuiet m
    → IsReadOnly m
    → ((a : A) → IsRevoking id ss (k a))
    → IsRevoking id ss (m >>= k)
bind-IsRevoking id ss m k quiet reads rest = record {
  revokes = λ db loaded h.
      let (a, _, h₁, same) = past m k db quiet h in
      subst (λ p. All (λ r. r.user_id ≡ id → r.is_active ≡ false) (p.1.tables.sessions)) (sym same)
        ((rest a).revokes (m db).1
          (ap (λ t. collect into_session (rows_of id t)) (reads.keeps db) ∙ loaded) h₁);
}

present_quiet : (o : Option UserAggregate) → ok_or o user_not_found ≢ err session_invalidated
present_quiet none h = ground arith
present_quiet (some a) h = ground arith

module _ (crypto : Crypto) (jwt : JwtServiceImpl) (settings : AuthSettings) (draws : Draws) where
  -- A reuse is reported only after every session of the aggregate has been saved as ended.
  reported :
      (a : UserAggregate) (r : Result (NewSession × UserAggregate) AuthError) (db : Db)
      → (on_rotation crypto jwt settings draws a r db).0 ≡ err session_invalidated
      → let save = save_aggregate (draws.now) (invalidate_all_active_sessions (draws.now) a) [] in
        ((save db).0 ≡ ok tt) × ((on_rotation crypto jwt settings draws a r db).1 ≡ (save db).1)
  unfolding on_rotation lift
  reported a (ok x) db h = absurd (ground arith)
  reported a (err session_invalidated) db h = elim (bind_err _ _ db h) [
    | inl e ↦ absurd ((save_aggregate-IsQuiet _ _ _).quiet db e)
    | inr (t, e, _, same) ↦ (e, ap (λ p. p.1) same)
  ]
  reported a (err invalid_credentials) db h = absurd (ground arith)
  reported a (err user_not_found) db h = absurd (ground arith)
  reported a (err token_verification_failed) db h = absurd (ground arith)
  reported a (err session_not_found) db h = absurd (ground arith)
  reported a (err session_expired) db h = absurd (ground arith)
  reported a (err invalid_refresh_token) db h = absurd (ground arith)
  reported a (err rate_limited) db h = absurd (ground arith)
  reported a (err token_generation_failed) db h = absurd (ground arith)
  reported a (err (internal_error t)) db h = absurd (ground arith)

  compare_token-IsReadOnly :
      (token : Text) (o : Option Session)
      → IsReadOnly (compare_token crypto jwt settings draws token o)
  unfolding compare_token
  compare_token-IsReadOnly token none = lift-IsReadOnly _
  compare_token-IsReadOnly token (some s) =
      bind-IsReadOnly _ _ (lift-IsReadOnly _) (λ r. lift-IsReadOnly _)

  -- After such a save every row of the user is off.
  every_ended :
      (id : Uuid) (a : UserAggregate) (db : Db)
      → collect into_session (rows_of id (db.tables)) ≡ ok (a.sessions)
      → let save = save_aggregate (draws.now) (invalidate_all_active_sessions (draws.now) a) [] in
        (save db).0 ≡ ok tt
        → All (λ r. r.user_id ≡ id → r.is_active ≡ false) ((save db).1.tables.sessions)
  unfolding inserted
  every_ended id a db loaded saved =
      subst (All (λ r. r.user_id ≡ id → r.is_active ≡ false))
        (sym (
          ap (λ t. t.sessions) (saved_tables _ _ [] db saved)
          ∙ ap (λ ids. map (ended ids) (db.tables.sessions))
              (invalidated_ids-invalidate_all_active_sessions (draws.now) a
                ∙ collect_ids _ _ loaded)))
        (user_rows_ended id (db.tables.sessions) _ (loaded_rows id (db.tables)))

  on_rotation-IsRevoking {κ} :
      {B : Type κ} (id : Uuid) (a : UserAggregate)
      (r : Result (NewSession × UserAggregate) AuthError) (k : NewSession × UserAggregate → Query B)
      → ((x : NewSession × UserAggregate) → IsQuiet (k x))
      → IsRevoking id (a.sessions) (on_rotation crypto jwt settings draws a r >>= k)
  on_rotation-IsRevoking id a r k quiet = record {
    revokes = λ db loaded h. elim (bind_err (on_rotation crypto jwt settings draws a r) k db h) [
      | inl e ↦
          let (saved, same) = reported a r db e in
          subst (λ d. All (λ r. r.user_id ≡ id → r.is_active ≡ false) (d.tables.sessions))
            (sym (bind_failed (on_rotation crypto jwt settings draws a r) k db e ∙ same))
            (every_ended id a db loaded saved)
      | inr (x, _, e, _) ↦ absurd ((quiet x).quiet _ e)
    ];
  }

  -- What follows the loading of the aggregate, for some answer.
  rest-IsRevoking {κ} :
      {B : Type κ} (token : Text) (claims : RefreshTokenClaims) (loaded : UserAggregate)
      (k : TokenPair → NewSession × UserAggregate → Query B)
      → ((t : TokenPair) (x : NewSession × UserAggregate) → IsQuiet (k t x))
      → IsRevoking (claims.sub) (loaded.sessions) (
          lift (
            generate_token_pair crypto jwt
              (timestamp crypto jwt settings draws)
              (draws.jti)
              (claims.sub)
              (draws.session_id))
          >>= λ token_pair.
              hash_refresh_token crypto jwt settings draws
                (draws.first_task)
                (token_pair.refresh_token)
              >>= λ refresh_hash.
                  compare_token crypto jwt settings draws token
                    (find_session (claims.session_id) (loaded.sessions))
                  >>= λ token_matches.
                      on_rotation crypto jwt settings draws loaded (
                        rotate_session
                          (draws.now)
                          loaded
                          (claims.session_id)
                          token_matches
                          (draws.session_id)
                          refresh_hash
                          (expires_at crypto jwt settings draws))
                      >>= k token_pair)
  rest-IsRevoking token claims loaded k quiet =
      bind-IsRevoking _ _ _ _ (lift-IsQuiet _ (tokens_quiet crypto jwt settings draws _ _ _ _))
        (lift-IsReadOnly _)
        (λ pair.
          bind-IsRevoking _ _ _ _ (hash_refresh_token-IsQuiet crypto jwt settings draws _ _)
            (hash_refresh_token-IsReadOnly crypto jwt settings draws _ _)
            (λ hash.
              bind-IsRevoking _ _ _ _ (compare_token-IsQuiet crypto jwt settings draws token _)
                (compare_token-IsReadOnly token _)
                (λ matches. on_rotation-IsRevoking _ loaded _ (k pair) (quiet pair))))

  -- Once a refresh has been answered as the reuse of a token, no session of the user that the
  -- token names is active in the table any more.
  pub refresh_token_reuse :
      (token : Text) (db : Db)
      → (refresh_token crypto jwt settings draws token db).0 ≡ err session_invalidated
      → (claims : RefreshTokenClaims) × (validate_refresh_token crypto jwt
            (timestamp crypto jwt settings draws)
            token
          ≡ ok claims)
        × All
            (λ r. r.user_id ≡ claims.sub → r.is_active ≡ false)
            ((refresh_token crypto jwt settings draws token db).1.tables.sessions)
  unfolding refresh_token lift
  refresh_token_reuse token db h =
      let (claims, c, h₁, s₁) =
        past _ _ db (lift-IsQuiet _ (claims_quiet crypto jwt settings draws _ token)) h in
      let (found, f, h₂, s₂) = past _ _ _ (find_aggregate_by_id-IsQuiet (claims.sub)) h₁ in
      let (loaded, l, h₃, s₃) = past _ _ _ (lift-IsQuiet _ (present_quiet found)) h₂ in
      (
        claims,
        c,
        subst (λ p. All (λ r. r.user_id ≡ claims.sub → r.is_active ≡ false) (p.1.tables.sessions))
            (sym (s₁ ∙ s₂ ∙ s₃))
            ((rest-IsRevoking token claims loaded _ (λ t x.
                bind-IsQuiet _ _ (save_aggregate-IsQuiet _ _ _)
                  (λ _. lift-IsQuiet _ (λ e. ground arith)))).revokes
              _
              (ap (λ t. collect into_session (rows_of (claims.sub) t))
                  ((find_aggregate_by_id-IsReadOnly (claims.sub)).keeps db)
                ∙ found_sessions (claims.sub) db loaded
                    (f ∙ ap ok (present found user_not_found l)))
              h₃),
      )
