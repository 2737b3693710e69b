-- ===== src/Auth/Store/Coverage.antt =====
-- crates/auth/src/adapters/postgres_user_repo.rs: the sessions that an aggregate is loaded with are
-- all the rows of the user.
use app_home_services.Base.{
  ℕ, ◌≡◌, refl, ◌∙◌, ap, inl, inr, true, false, not, ◌||◌, List, [], ◌∷◌, map, All, filter_by,
  nat_beq, nat_beq_iff, arith, Uuid, Bool-cases,
}
use app_home_services.Base.Outcome.{ok, Result-cases}
use app_home_services.Values.HashedPassword
use app_home_services.Values.AuthMethod
use app_home_services.Auth.Entities.{Session, invalidate}
use app_home_services.Auth.Aggregate.{UserAggregate, invalidate_all_active_sessions}
use app_home_services.Auth.Aggregate.Logout.{invalidate_all_active_sessions_lem}
use app_home_services.Auth.Store.{SessionRow, Tables}
use app_home_services.Auth.Store.Rows.{collect, into_session}
use app_home_services.Auth.Store.UserRepo.{rows_of, order_by_newest, insert_by_age, invalidated_ids}
use app_home_services.Auth.Store.Saving.{is_one_of, ended}

abbrev pub row_ids : List SessionRow → List Uuid
row_ids rows = map (λ r. r.id) rows

weaken {ℓ} :
    {A : Type ℓ} {P Q : A → Type 0} (xs : List A) → ((a : A) → P a → Q a) → All P xs → All Q xs
weaken [] f h = tt
weaken (x ∷ xs) f h = (f x h.0, weaken xs f h.1)

inserted_ids :
    (r s : SessionRow) (rows : List SessionRow)
    → is_one_of (row_ids (insert_by_age s rows)) r
      ≡ (nat_beq (r.id) (s.id) || is_one_of (row_ids rows) r)
unfolding is_one_of
inserted_ids r s [] = refl
inserted_ids r s (t ∷ rows) = ground (arith, inserted_ids r s rows)

ordered_ids :
    (r : SessionRow) (rows : List SessionRow)
    → is_one_of (row_ids (order_by_newest rows)) r ≡ is_one_of (row_ids rows) r
unfolding is_one_of order_by_newest
ordered_ids r [] = refl
ordered_ids r (s ∷ rows) =
    inserted_ids r s (order_by_newest rows)
    ∙ ap (λ b. nat_beq (r.id) (s.id) || b) (ordered_ids r rows)

filtered_ids :
    (user_id : Uuid) (rows : List SessionRow)
    → All
        (λ r.
          r.user_id ≡ user_id
          → is_one_of (row_ids (filter_by (λ s. nat_beq (s.user_id) user_id) rows)) r ≡ true)
        rows
unfolding is_one_of
filtered_ids user_id [] = tt
filtered_ids user_id (s ∷ rows) = (
  λ own. ground (arith, nat_beq_iff (s.user_id) user_id, nat_beq_iff (s.id) (s.id)),
  weaken rows (λ r h own. ground (arith, h own)) (filtered_ids user_id rows),
)

-- Every row of the user is one of those that are loaded.
pub loaded_rows :
    (user_id : Uuid) (t : Tables)
    → All (λ r. r.user_id ≡ user_id → is_one_of (row_ids (rows_of user_id t)) r ≡ true) (t.sessions)
unfolding rows_of
loaded_rows user_id t =
    weaken (t.sessions)
      (λ r h own. ordered_ids r (filter_by (λ s. nat_beq (s.user_id) user_id) (t.sessions)) ∙ h own)
      (filtered_ids user_id (t.sessions))

into_session_id : (r : SessionRow) (s : Session) → into_session r ≡ ok s → s.id ≡ r.id
unfolding into_session
into_session_id r s h = elim (Result-cases (HashedPassword.new (r.refresh_token_hash))) [
  | inl (hash, e) ↦ elim (Result-cases (AuthMethod.try_from (r.auth_method))) [
    | inl (method, f) ↦ ground arith
    | inr (x, f) ↦ absurd (ground arith)
  ]
  | inr (x, e) ↦ absurd (ground arith)
]

-- A session keeps the id of its row.
pub collect_ids :
    (rows : List SessionRow) (ss : List Session)
    → collect into_session rows ≡ ok ss
    → map (λ s. s.id) ss ≡ row_ids rows
collect_ids [] [] h = refl
collect_ids [] (s ∷ ss) h = cc
collect_ids (r ∷ rows) ss h = elim (Result-cases (into_session r)) [
  | inl (s, e) ↦ elim (Result-cases (collect into_session rows)) [
    | inl (rest, f) ↦ ground (arith, into_session_id r s e, collect_ids rows rest f)
    | inr (x, f) ↦ absurd (ground arith)
  ]
  | inr (x, e) ↦ absurd (ground arith)
]

ended_ids :
    (ss : List Session)
    → map (λ s. s.id) (filter_by (λ s. not (s.is_active)) (map invalidate ss)) ≡ map (λ s. s.id) ss
unfolding invalidate
ended_ids [] = refl
ended_ids (s ∷ ss) = ap (λ l. s.id ∷ l) (ended_ids ss)

-- Once every session is ended, every one of them is saved as such.
pub invalidated_ids-invalidate_all_active_sessions :
    (now : ℕ) (a : UserAggregate)
    → invalidated_ids (invalidate_all_active_sessions now a) ≡ map (λ s. s.id) (a.sessions)
unfolding invalidated_ids
invalidated_ids-invalidate_all_active_sessions now a =
    ap (λ x. map (λ s. s.id) (filter_by (λ s. not (s.is_active)) (x.sessions)))
      ((invalidate_all_active_sessions_lem now a).0)
    ∙ ended_ids (a.sessions)

ended_user :
    (ids : List Uuid) (r : SessionRow) {user_id : Uuid}
    → (ended ids r).user_id ≡ user_id
    → r.user_id ≡ user_id
unfolding ended
ended_user ids r h = elim (Bool-cases (is_one_of ids r)) [
  | inl e ↦ ground arith
  | inr e ↦ ground arith
]

-- The rows of the user are off once the rows with the ids of the aggregate are.
pub user_rows_ended :
    (user_id : Uuid) (rows : List SessionRow) (ids : List Uuid)
    → All (λ r. r.user_id ≡ user_id → is_one_of ids r ≡ true) rows
    → All (λ r. r.user_id ≡ user_id → r.is_active ≡ false) (map (ended ids) rows)
unfolding ended
user_rows_ended user_id [] ids h = tt
user_rows_ended user_id (r ∷ rows) ids h = (
  λ own. elim (Bool-cases (is_one_of ids r)) [
    | inl e ↦ rw e refl
    | inr e ↦ absurd (ground (arith, h.0 (ended_user ids r own)))
  ],
  user_rows_ended user_id rows ids h.1,
)
