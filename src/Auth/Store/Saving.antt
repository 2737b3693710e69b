-- ===== src/Auth/Store/Saving.antt =====
-- crates/auth/src/adapters/postgres_user_repo.rs: what `save_aggregate` leaves in the tables.
use app_home_services.Base.{
  ℕ, ◌≡◌, refl, sym, ◌∙◌, ap, inl, inr, Bool, not, ◌&&◌, filter_by, Bool-cases, Option, none, some,
  List, [], ◌∷◌, map, any_by, Option-cases, if◌then◌else◌, nat_beq, arith, Uuid,
}
use app_home_services.Base.Text.{Text}
use app_home_services.Base.Outcome.{Result, ok, err}
use app_home_services.Auth.Entities.{AuthError, Session, NewSession}
use app_home_services.Auth.Aggregate.{UserAggregate}
use app_home_services.Auth.Store.{
  SessionRow, Tables, Db, lift, statement, transaction, roll_back, ◌>>◌, next_fault,
}
use app_home_services.Auth.Store.UserRepo.{
  insert_row, new_row, insert_session, insert_sessions, deactivated, deactivate_where,
  deactivate_ids, invalidated_ids, marker, save_aggregate,
}
use app_home_services.Auth.Store.Frames.{bind_ok, select-IsReadOnly}

statement_ok_at {ℓ} :
    {A : Type ℓ} (run : Tables → Option (A × Tables)) (db : Db) {a : A} (f : Option Text)
    → next_fault (db.faults) ≡ f
    → (statement run db).0 ≡ ok a
    → run (db.tables) ≡ some (a, (statement run db).1.tables)
unfolding statement
statement_ok_at run db {a} none e h = elim (Option-cases (run (db.tables))) [
  | inl r ↦ absurd (ground arith)
  | inr ((b, t), r) ↦ ground arith
]
statement_ok_at run db {a} (some t) e h = absurd (ground arith)

unfoldable pub is_one_of : List Uuid → SessionRow → Bool
is_one_of ids r = any_by (λ id. nat_beq (r.id) id) ids

-- The rows with one of the ids are switched off.
unfoldable pub ended : List Uuid → SessionRow → SessionRow
ended ids r = if is_one_of ids r then deactivated r else r

-- The new rows come first.
unfoldable pub inserted : ℕ → List NewSession → List SessionRow → List SessionRow
inserted now [] rows = rows
inserted now (s ∷ rest) rows = inserted now rest (new_row now s ∷ rows)

map_unchanged :
    (f : SessionRow → SessionRow) (rows : List SessionRow)
    → ((r : SessionRow) → f r ≡ r)
    → map f rows ≡ rows
map_unchanged f [] h = refl
map_unchanged f (r ∷ rows) h = rw (h r, map_unchanged f rows h) refl

map_twice :
    (f g k : SessionRow → SessionRow) (rows : List SessionRow)
    → ((r : SessionRow) → g (f r) ≡ k r)
    → map g (map f rows) ≡ map k rows
map_twice f g k [] h = refl
map_twice f g k (r ∷ rows) h = rw (h r, map_twice f g k rows h) refl

ended_twice :
    (id : Uuid) (rest : List Uuid) (r : SessionRow)
    → ended rest (if nat_beq (r.id) id then deactivated r else r) ≡ ended (id ∷ rest) r
unfolding ended is_one_of
ended_twice id rest r = ground arith

-- The tables with other sessions.
abbrev pub with_rows : Tables → List SessionRow → Tables
with_rows t rows = record { users = t.users; user_actions = t.user_actions; sessions = rows }

-- The row of a session of the aggregate that is no longer active.
abbrev pub is_ended_in : UserAggregate → SessionRow → Bool
is_ended_in a r = any_by (λ s. not (s.is_active) && nat_beq (r.id) (s.id)) (a.sessions)

ids_of_ended :
    (ss : List Session) (r : SessionRow)
    → any_by
        (λ id. nat_beq (r.id) id)
        (map (λ (s : Session). s.id) (filter_by (λ s. not (s.is_active)) ss))
      ≡ any_by (λ s. not (s.is_active) && nat_beq (r.id) (s.id)) ss
ids_of_ended [] r = refl
ids_of_ended (s ∷ ss) r = elim (Bool-cases (s.is_active)) [
  | inl on ↦ rw on (ids_of_ended ss r)
  | inr off ↦ rw (off, ids_of_ended ss r) refl
]

ended-invalidated_ids :
    (a : UserAggregate) (r : SessionRow)
    → ended (invalidated_ids a) r ≡ (if is_ended_in a r then deactivated r else r)
unfolding ended is_one_of invalidated_ids
ended-invalidated_ids a r =
    ap (λ (b : Bool). if b then deactivated r else r) (ids_of_ended (a.sessions) r)

row_inserted :
    (row : SessionRow) (t after : Tables) {u : Unit {0}}
    → insert_row row t ≡ some (u, after)
    → after ≡ with_rows t (row ∷ t.sessions)
unfolding insert_row
row_inserted row t after h = ground arith

rows_deactivated :
    (p : SessionRow → Bool) (t after : Tables) {u : Unit {0}}
    → deactivate_where p t ≡ some (u, after)
    → after ≡ with_rows t (map (λ r. if p r then deactivated r else r) (t.sessions))
unfolding deactivate_where
rows_deactivated p t after h = ground arith

deactivated_ids :
    (ids : List Uuid) (db : Db) {t : Unit {0}}
    → (deactivate_ids ids db).0 ≡ ok t
    → (deactivate_ids ids db).1.tables
      ≡ with_rows (db.tables) (map (ended ids) (db.tables.sessions))
unfolding deactivate_ids lift ended is_one_of ◌>>◌
deactivated_ids [] db h =
    ap (with_rows (db.tables)) (sym (map_unchanged _ (db.tables.sessions) (λ r. refl)))
deactivated_ids (id ∷ rest) db h =
    let (_, e, h₁, same) = bind_ok _ _ db h in
    let at = statement_ok_at (deactivate_where (λ r. nat_beq (r.id) id)) db _ refl e in
    ap (λ p. p.1.tables) same
    ∙ deactivated_ids rest _ h₁
    ∙ ap (λ (t : Tables). with_rows t (map (ended rest) (t.sessions)))
        (rows_deactivated _ (db.tables) _ at)
    ∙ ap (with_rows (db.tables))
        (map_twice _ (ended rest) (ended (id ∷ rest)) (db.tables.sessions) (ended_twice id rest))

inserted_sessions :
    (now : ℕ) (ns : List NewSession) (db : Db) {t : Unit {0}}
    → (insert_sessions now ns db).0 ≡ ok t
    → (insert_sessions now ns db).1.tables
      ≡ with_rows (db.tables) (inserted now ns (db.tables.sessions))
unfolding insert_sessions lift inserted insert_session ◌>>◌
inserted_sessions now [] db h = refl
inserted_sessions now (s ∷ ns) db h =
    let (_, e, h₁, same) = bind_ok _ _ db h in
    let at = statement_ok_at (insert_row (new_row now s)) db _ refl e in
    ap (λ p. p.1.tables) same
    ∙ inserted_sessions now ns _ h₁
    ∙ ap (λ (t : Tables). with_rows t (inserted now ns (t.sessions)))
        (row_inserted _ (db.tables) _ at)

committed {ℓ} :
    {A : Type ℓ} (before : Tables) (r : Result A AuthError) (db : Db) {a : A}
    → (roll_back before (r, db)).0 ≡ ok a
    → (r ≡ ok a) × (roll_back before (r, db) ≡ (r, db))
committed before (ok b) db h = (h, refl)
committed before (err e) db h = cc

pub saved_tables :
    (now : ℕ) (a : UserAggregate) (ns : List NewSession) (db : Db) {t : Unit {0}}
    → (save_aggregate now a ns db).0 ≡ ok t
    → (save_aggregate now a ns db).1.tables
      ≡ with_rows
          (db.tables)
          (map (ended (invalidated_ids a)) (inserted now ns (db.tables.sessions)))
unfolding save_aggregate transaction marker ◌>>◌
saved_tables now a ns db h =
    let (run, same) = committed (db.tables) _ _ h in
    let (_, e₃, h₃, s₃) = bind_ok _ _ db run in
    let (_, e₂, h₂, s₂) = bind_ok _ _ db e₃ in
    let (_, e₁, h₁, s₁) = bind_ok _ _ db e₂ in
    let before =
      ap (λ p. p.1.tables) s₁
      ∙ inserted_sessions now ns _ h₁
      ∙ ap (λ (t : Tables). with_rows t (inserted now ns (t.sessions)))
          ((select-IsReadOnly _).keeps db) in
    ap (λ p. p.1.tables) (same ∙ s₃)
    ∙ (select-IsReadOnly _).keeps _
    ∙ ap (λ p. p.1.tables) s₂
    ∙ deactivated_ids (invalidated_ids a) _ h₂
    ∙ ap (λ (t : Tables). with_rows t (map (ended (invalidated_ids a)) (t.sessions))) before

-- A save that succeeds has put the new sessions into the table of sessions and switched off the rows of
-- those sessions of the aggregate that are not active. It has changed no other row of any table.
pub save_aggregate_lem :
    (now : ℕ) (a : UserAggregate) (ns : List NewSession) (db : Db) {t : Unit {0}}
    → (save_aggregate now a ns db).0 ≡ ok t
    → (save_aggregate now a ns db).1.tables ≡ record {
      users = db.tables.users;
      user_actions = db.tables.user_actions;
      sessions =
          map
            (λ r. if is_ended_in a r then deactivated r else r)
            (inserted now ns (db.tables.sessions));
    }
save_aggregate_lem now a ns db h =
    saved_tables now a ns db h
    ∙ ap (with_rows (db.tables)) (
        ap (λ (f : SessionRow → SessionRow). map f (inserted now ns (db.tables.sessions)))
          (λ i r. ended-invalidated_ids a r i))
