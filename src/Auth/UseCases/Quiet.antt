-- ===== src/Auth/UseCases/Quiet.antt =====
-- crates/auth/src/application/use_cases/refresh_token.rs: which steps cannot report a reuse.
use app_home_services.Base.{
  ℕ, ◌≡◌, refl, ◌≢◌, inl, inr, Option, none, some, List, [], ◌∷◌, Option-cases, arith, Uuid,
}
use app_home_services.Base.Text.{Text}
use app_home_services.Base.Outcome.{Result, ok, err, Result-cases}
use app_home_services.Values.AuthMethod
use app_home_services.Values.Email
use app_home_services.Values.AuthProvider
use app_home_services.Values.HashedPassword
use app_home_services.Auth.Entities.{AuthError, session_invalidated, Session, NewSession, User}
use app_home_services.Auth.Aggregate.{UserAggregate}
use app_home_services.Auth.Store.{
  Tables, Db, Query, UserRow, SessionRow, lift, statement, select, transaction, roll_back, ◌>>=◌,
  ◌>>◌, next_fault,
}
use app_home_services.Auth.Store.Rows.{into_user, into_session, collect, transpose, map_option}
use app_home_services.Auth.Store.UserRepo.{
  find_by_id, find_aggregate_by_id, with_sessions_of, load_aggregate, save_aggregate,
  insert_sessions, insert_session, deactivate_ids, marker,
}
use app_home_services.Auth.Store.Frames.{bind_err}
use app_home_services.Auth.Tokens.{
  Crypto, JwtServiceImpl, generate_token_pair, validate_refresh_token,
}
use app_home_services.Auth.UseCases.{
  Draws, AuthSettings, run_bounded, hash_refresh_token, compare_token,
}

-- The computation does not report a reuse.
pub record IsQuiet {ℓ} {A : Type ℓ} (m : Query A) : Type ℓ where
  pub quiet : (db : Db) → (m db).0 ≢ err session_invalidated

pub bind-IsQuiet {ℓ κ} :
    {A : Type ℓ} {B : Type κ} (m : Query A) (k : A → Query B)
    → IsQuiet m
    → ((a : A) → IsQuiet (k a))
    → IsQuiet (m >>= k)
bind-IsQuiet m k hm hk = record {
  quiet = λ db h. elim (bind_err m k db h) [
    | inl e ↦ hm.quiet db e
    | inr (a, _, e, _) ↦ (hk a).quiet _ e
  ];
}

pub lift-IsQuiet {ℓ} :
    {A : Type ℓ} (r : Result A AuthError) → r ≢ err session_invalidated → IsQuiet (lift r)
unfolding lift
lift-IsQuiet r h = record { quiet = λ db. h }

statement_quiet {ℓ} :
    {A : Type ℓ} (run : Tables → Option (A × Tables)) (db : Db) (f : Option Text)
    → next_fault (db.faults) ≡ f
    → (statement run db).0 ≢ err session_invalidated
unfolding statement
statement_quiet run db none e h = elim (Option-cases (run (db.tables))) [
  | inl r ↦ ground arith
  | inr ((b, t), r) ↦ ground arith
]
statement_quiet run db (some t) e h = ground arith

pub statement-IsQuiet {ℓ} :
    {A : Type ℓ} (run : Tables → Option (A × Tables)) → IsQuiet (statement run)
statement-IsQuiet run = record {
  quiet = λ db. statement_quiet run db (next_fault (db.faults)) refl;
}

select-IsQuiet {ℓ} : {A : Type ℓ} (read : Tables → A) → IsQuiet (select read)
unfolding select
select-IsQuiet read = statement-IsQuiet _

rolled {ℓ} :
    {A : Type ℓ} (before : Tables) (r : Result A AuthError) (db : Db) {e : AuthError}
    → (roll_back before (r, db)).0 ≡ err e
    → r ≡ err e
rolled before (ok a) db h = cc
rolled before (err x) db h = ground arith

insert_sessions-IsQuiet : (now : ℕ) (ns : List NewSession) → IsQuiet (insert_sessions now ns)
unfolding insert_sessions insert_session ◌>>◌
insert_sessions-IsQuiet now [] = lift-IsQuiet _ (λ h. ground arith)
insert_sessions-IsQuiet now (s ∷ ns) =
    bind-IsQuiet _ _ (statement-IsQuiet _) (λ _. insert_sessions-IsQuiet now ns)

deactivate_ids-IsQuiet : (ids : List Uuid) → IsQuiet (deactivate_ids ids)
unfolding deactivate_ids ◌>>◌
deactivate_ids-IsQuiet [] = lift-IsQuiet _ (λ h. ground arith)
deactivate_ids-IsQuiet (id ∷ ids) =
    bind-IsQuiet _ _ (statement-IsQuiet _) (λ _. deactivate_ids-IsQuiet ids)

pub save_aggregate-IsQuiet :
    (now : ℕ) (a : UserAggregate) (ns : List NewSession) → IsQuiet (save_aggregate now a ns)
unfolding save_aggregate transaction marker ◌>>◌
save_aggregate-IsQuiet now a ns = record {
  quiet = λ db h.
      (bind-IsQuiet _ _
          (bind-IsQuiet _ _
            (bind-IsQuiet _ _ (select-IsQuiet _) (λ _. insert_sessions-IsQuiet now ns))
            (λ _. deactivate_ids-IsQuiet _))
          (λ _. select-IsQuiet _)).quiet
        db (rolled (db.tables) _ _ h);
}

into_session_quiet : (r : SessionRow) → into_session r ≢ err session_invalidated
unfolding into_session
into_session_quiet r h = elim (Result-cases (HashedPassword.new (r.refresh_token_hash))) [
  | inl (hash, e) ↦ elim (Result-cases (AuthMethod.try_from (r.auth_method))) [
    | inl (method, f) ↦ ground arith
    | inr (x, f) ↦ ground arith
  ]
  | inr (x, e) ↦ ground arith
]

into_user_quiet : (r : UserRow) → into_user r ≢ err session_invalidated
unfolding into_user
into_user_quiet r h = elim (Result-cases (Email.new (r.email))) [
  | inl (email, e) ↦ elim (Result-cases (AuthProvider.try_from (r.auth_provider))) [
    | inl (provider, p) ↦
        elim (Result-cases (transpose (map_option HashedPassword.new (r.password_hash)))) [
          | inl (hash, f) ↦ ground arith
          | inr (x, f) ↦ ground arith
        ]
    | inr (x, p) ↦ ground arith
  ]
  | inr (x, e) ↦ ground arith
]

collect_quiet : (rows : List SessionRow) → collect into_session rows ≢ err session_invalidated
collect_quiet [] h = ground arith
collect_quiet (r ∷ rows) h = elim (Result-cases (into_session r)) [
  | inl (s, e) ↦ elim (Result-cases (collect into_session rows)) [
    | inl (rest, f) ↦ ground arith
    | inr (x, f) ↦ ground (arith, collect_quiet rows)
  ]
  | inr (x, e) ↦ ground (arith, into_session_quiet r)
]

found_quiet : (o : Option UserRow) → transpose (map_option into_user o) ≢ err session_invalidated
found_quiet none h = ground arith
found_quiet (some r) h = elim (Result-cases (into_user r)) [
  | inl (u, e) ↦ ground arith
  | inr (x, e) ↦ ground (arith, into_user_quiet r)
]

load_aggregate-IsQuiet : (user : User) → IsQuiet (load_aggregate user)
unfolding load_aggregate
load_aggregate-IsQuiet user = bind-IsQuiet _ _ (select-IsQuiet _) (λ rows.
    bind-IsQuiet _ _ (lift-IsQuiet _ (collect_quiet rows))
      (λ s. lift-IsQuiet _ (λ h. ground arith)))

with_sessions_of-IsQuiet : (o : Option User) → IsQuiet (with_sessions_of o)
unfolding with_sessions_of
with_sessions_of-IsQuiet none = lift-IsQuiet _ (λ h. ground arith)
with_sessions_of-IsQuiet (some user) =
    bind-IsQuiet _ _ (load_aggregate-IsQuiet user) (λ a. lift-IsQuiet _ (λ h. ground arith))

pub find_aggregate_by_id-IsQuiet : (id : Uuid) → IsQuiet (find_aggregate_by_id id)
unfolding find_aggregate_by_id find_by_id
find_aggregate_by_id-IsQuiet id =
    bind-IsQuiet _ _ (bind-IsQuiet _ _ (select-IsQuiet _) (λ row. lift-IsQuiet _ (found_quiet row)))
      with_sessions_of-IsQuiet

ran_quiet {ℓ} :
    {A : Type ℓ} (task : Option Text) (a : A) → run_bounded task a ≢ err session_invalidated
unfolding run_bounded
ran_quiet none a h = ground arith
ran_quiet (some t) a h = ground arith

module _ (crypto : Crypto) (jwt : JwtServiceImpl) (settings : AuthSettings) (draws : Draws) where
  pub hash_refresh_token-IsQuiet :
      (task : Option Text) (token : Text)
      → IsQuiet (hash_refresh_token crypto jwt settings draws task token)
  unfolding hash_refresh_token
  hash_refresh_token-IsQuiet task token =
      bind-IsQuiet _ _ (lift-IsQuiet _ (ran_quiet task _)) (λ hashed.
        bind-IsQuiet _ _ (lift-IsQuiet _ (λ h. ground (arith, Result-cases hashed)))
          (λ hash. lift-IsQuiet _ (λ h. ground (arith, Result-cases (HashedPassword.new hash)))))

  pub compare_token-IsQuiet :
      (token : Text) (o : Option Session)
      → IsQuiet (compare_token crypto jwt settings draws token o)
  unfolding compare_token
  compare_token-IsQuiet token none = lift-IsQuiet _ (λ h. ground arith)
  compare_token-IsQuiet token (some s) =
      bind-IsQuiet _ _ (lift-IsQuiet _ (ran_quiet _ _)) (λ r. lift-IsQuiet _ (λ h. ground arith))

  pub tokens_quiet :
      (now : ℕ) (jti sub id : Uuid)
      → generate_token_pair crypto jwt now jti sub id ≢ err session_invalidated
  unfolding generate_token_pair
  tokens_quiet now jti sub id h = ground arith

  pub claims_quiet :
      (now : ℕ) (token : Text)
      → validate_refresh_token crypto jwt now token ≢ err session_invalidated
  unfolding validate_refresh_token
  claims_quiet now token h =
      ground (arith, Result-cases (crypto.decode_refresh now (jwt.issuer) (jwt.audience) token))
