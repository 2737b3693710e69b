-- ===== src/Profiles/RoundTrip.antt =====
-- What an update stores is what is read after it.
use app_home_services.Base.{
  ℕ, ◌≡◌, refl, sym, subst, ap, ◌∙◌, inl, inr, true, false, Bool-cases, if◌then◌else◌, Bool, ◌&&◌,
  Option, none, some, arith, ◌++◌, Option-cases, nat_beq_iff, Uuid, ltb, nat_eq,
}
use app_home_services.Base.Text.{Text, trim, is_empty, len}
use app_home_services.Base.HashMap.{HashMap, get, insert, get-insert}
use app_home_services.Base.Outcome.{ok_or, Result, ok, err, Result-cases, map_err}
use app_home_services.Base.Fallible.{proceed, lift, proceed-ok}
use app_home_services.Admin.Store.{next_fault, later_faults}
use app_home_services.Profiles.{
  internal_error, invalid_value, not_found, map_ok, ProfileError, UserProfile, ProfileDb, Query,
  trimmed, new_avatar_url, new_bio, read_column, profile_of, row_of, found_of, statement,
  find_by_user_id, upsert, save, get_profile, requested, avatar_of, bio_of, is_none, update_profile,
  update_over,
}
use app_home_services.Profiles.Storing.{trim-trim}

-- `new` accepts what it has accepted, and keeps it.
pub IsSettled : (Text → Result Text Text) → Type 0
IsSettled new = (s t : Text) → new s ≡ ok t → (is_empty t ≡ false) × (new t ≡ ok t)

-- What `new` accepts is trimmed, not empty and short enough.
trimmed_ok :
    (most : ℕ) (empty long s t : Text)
    → trimmed most empty long s ≡ ok t
    → (trim s ≡ t) × (is_empty (trim s) ≡ false) × (ltb most (len (trim s)) ≡ false)
unfolding trimmed
trimmed_ok most empty long s t h = ground arith

trimmed-IsSettled : (most : ℕ) (empty long : Text) → IsSettled (trimmed most empty long)
unfolding trimmed IsSettled
trimmed-IsSettled most empty long s t h =
    let (same, full, short) = trimmed_ok most empty long s t h in
    subst (λ (u : Text). (is_empty u ≡ false) × (trimmed most empty long u ≡ ok u)) same
      (full, rw (trim-trim s, full, short) refl)

field_ok :
    (prefix : Text) (r : Result Text Text) {t : Option Text}
    → map_err (λ e. invalid_value (prefix ++ e)) (map_ok some r) ≡ ok t
    → (u : Text) × (r ≡ ok u) × (some u ≡ t)
field_ok prefix (ok u) h = (u, refl, cc)
field_ok prefix (err e) h = cc

module _ (new : Text → Result Text Text) (settled : IsSettled new) where
  read_column-read_column :
      (x : Option Text) → read_column new (read_column new x) ≡ read_column new x
  unfolding IsSettled
  read_column-read_column none = refl
  read_column-read_column (some s) = elim (Bool-cases (is_empty s)) [
    | inl e ↦ rw e refl
    | inr full ↦ elim (Result-cases (new s)) [
      | inl (t, good) ↦ rw (full, good, (settled s t good).0, (settled s t good).1) refl
      | inr (e, bad) ↦ rw (full, bad) refl
    ]
  ]

  requested_stored :
      (prefix : Text) (val kept : Option Text) (t : Option Text)
      → read_column new kept ≡ kept
      → requested new prefix val kept ≡ ok t
      → read_column new t ≡ t
  unfolding IsSettled requested
  requested_stored prefix none kept t h e = cc
  requested_stored prefix (some val) kept t h e = elim (Bool-cases (is_empty val)) [
    | inl cleared ↦
        let same : none ≡ t = ground arith in
        subst (λ (x : Option Text). read_column new x ≡ x) same refl
    | inr full ↦
        let (u, good, same) = field_ok prefix (new val) (ground arith) in
        subst (λ (x : Option Text). read_column new x ≡ x) same
          (rw ((settled val u good).0, (settled val u good).1) refl)
  ]

-- Both texts read back as they are.
IsStored : UserProfile → Type 0
IsStored p = profile_of p ≡ p

ok_pair :
    {A : Type 0} {a b : A} {s t : ProfileDb}
    → Path (Result A ProfileError × ProfileDb) (ok a, s) (ok b, t)
    → (a ≡ b) × (s ≡ t)
ok_pair h = (cc, cc)

err_pair :
    {A : Type 0} {P : Type 0} {e : ProfileError} {b : A} {s t : ProfileDb}
    → Path (Result A ProfileError × ProfileDb) (err e, s) (ok b, t)
    → P
err_pair h = cc

statement_fine :
    {A : Type 0} (run : HashMap Uuid UserProfile → A × HashMap Uuid UserProfile) (db : ProfileDb)
    → next_fault db.faults ≡ none
    → statement run db ≡ (
      ok (run db.user_profiles).0,
      record { user_profiles = (run db.user_profiles).1; faults = later_faults db.faults },
    )
unfolding statement
statement_fine run db fine = rw (fine, statement) refl

failed_statement :
    {A : Type 0} (run : HashMap Uuid UserProfile → A × HashMap Uuid UserProfile) (db : ProfileDb)
    (e : Text)
    → next_fault db.faults ≡ some e
    → statement run db ≡ (
      err (internal_error e),
      record { user_profiles = db.user_profiles; faults = later_faults db.faults },
    )
unfolding statement
failed_statement run db e bad = rw (bad, statement) refl

statement_ok :
    {A : Type 0} (run : HashMap Uuid UserProfile → A × HashMap Uuid UserProfile)
    (db db' : ProfileDb) (a : A)
    → statement run db ≡ (ok a, db')
    → ((run db.user_profiles).0 ≡ a) × ((run db.user_profiles).1 ≡ db'.user_profiles)
unfolding statement
statement_ok run db db' a h = elim (Option-cases (next_fault db.faults)) [
  | inl fine ↦
      let (same, after) = ok_pair (sym (statement_fine run db fine) ∙ h) in
      (same, ap (λ (d : ProfileDb). d.user_profiles) after)
  | inr (e, bad) ↦ err_pair (sym (failed_statement run db e bad) ∙ h)
]

found_stored :
    (o : Option UserProfile)
    → (read_column new_avatar_url (avatar_of (found_of o)) ≡ avatar_of (found_of o))
      × (read_column new_bio (bio_of (found_of o)) ≡ bio_of (found_of o))
found_stored none = (refl, refl)
found_stored (some r) = (
  read_column-read_column new_avatar_url (trimmed-IsSettled _ _ _) r.avatar_url,
  read_column-read_column new_bio (trimmed-IsSettled _ _ _) r.bio,
)

saved :
    (q p : UserProfile) (db db' : ProfileDb)
    → save q db ≡ (ok p, db')
    → (q ≡ p) × (get q.user_id db'.user_profiles ≡ some (row_of p))
unfolding save upsert
saved q p db db' h =
    let (_, db1, written, rest) = proceed-ok _ (upsert q db) h in
    let (same, last) = ok_pair rest in
    let (_, rows) = statement_ok _ db db1 _ written in
    let found : get q.user_id (insert q.user_id (row_of q) db.user_profiles) ≡ some (row_of q) =
      get-insert q.user_id q.user_id (row_of q) db.user_profiles
      ∙ rw ((nat_beq_iff q.user_id q.user_id).1 refl) refl in
    (
      same,
      ap (λ (d : ProfileDb). get q.user_id d.user_profiles) (sym last)
          ∙ ap (get q.user_id) (sym rows)
          ∙ found
          ∙ ap (λ x. some (row_of x)) same,
    )

-- What is read of a stored profile.
read_back :
    (user_id : Uuid) (p : UserProfile) (db : ProfileDb)
    → get user_id db.user_profiles ≡ some p
    → IsStored p
    → next_fault db.faults ≡ none
    → (get_profile user_id db).0 ≡ ok p
unfolding get_profile find_by_user_id statement IsStored
read_back user_id p db h stored fine =
    ap (λ r. (proceed (λ found. lift (ok_or found (not_found user_id))) r).0)
      (statement_fine (λ rows. (found_of (get user_id rows), rows)) db fine)
    ∙ ap (λ o. ok_or (found_of o) (not_found user_id)) h
    ∙ ap ok stored

fields-IsStored :
    (now : ℕ) (user_id : Uuid) (avatar_url bio : Option Text)
    → read_column new_avatar_url avatar_url ≡ avatar_url
    → read_column new_bio bio ≡ bio
    → IsStored (record { user_id = user_id; avatar_url = avatar_url; bio = bio; updated_at = now })
unfolding IsStored
fields-IsStored now user_id avatar_url bio a b =
    λ i. record { user_id = user_id; avatar_url = a i; bio = b i; updated_at = now }

update_over-IsStored :
    (now : ℕ) (user_id : Uuid) (avatar_url bio : Option Text) (o : Option UserProfile)
    (db db' : ProfileDb) (p : UserProfile)
    → update_over now user_id avatar_url bio (found_of o) db ≡ (ok p, db')
    → IsStored p × (get user_id db'.user_profiles ≡ some (row_of p))
unfolding update_over IsStored
update_over-IsStored now user_id avatar_url bio o db db' p h =
    let (a, db2, ha, h2) = proceed-ok _ (requested _ _ avatar_url (avatar_of (found_of o)), db) h in
    let (b, db3, hb, h3) = proceed-ok _ (requested _ _ bio (bio_of (found_of o)), db2) h2 in
    let (same, found) = saved _ p db3 db' h3 in
    let a_stored : read_column new_avatar_url a ≡ a =
      requested_stored new_avatar_url (trimmed-IsSettled _ _ _) _ avatar_url _ a (found_stored o).0
        (ap (λ (r : Result (Option Text) ProfileError × ProfileDb). r.0) ha) in
    let b_stored : read_column new_bio b ≡ b =
      requested_stored new_bio (trimmed-IsSettled _ _ _) _ bio _ b (found_stored o).1
        (ap (λ (r : Result (Option Text) ProfileError × ProfileDb). r.0) hb) in
    (subst IsStored same (fields-IsStored now user_id a b a_stored b_stored), found)

passed :
    (b : Bool) (e : ProfileError) (m : Query UserProfile) (db db' : ProfileDb) (p : UserProfile)
    → (if b then lift (err e) else m) db ≡ (ok p, db')
    → m db ≡ (ok p, db')
passed true e m db db' p h = err_pair h
passed false e m db db' p h = h

update_profile-IsStored :
    (now : ℕ) (user_id : Uuid) (avatar_url bio : Option Text) (db db' : ProfileDb) (p : UserProfile)
    → update_profile now user_id avatar_url bio db ≡ (ok p, db')
    → IsStored p × (get user_id db'.user_profiles ≡ some (row_of p))
unfolding update_profile find_by_user_id IsStored
update_profile-IsStored now user_id avatar_url bio db db' p h =
    let start = passed (is_none avatar_url && is_none bio) _ _ db db' p h in
    let (existing, db1, found, rest) =
      proceed-ok (update_over now user_id avatar_url bio) (find_by_user_id user_id db) start in
    update_over-IsStored now user_id avatar_url bio (get user_id db.user_profiles) db1 db' p (
      ap (λ (o : Option UserProfile). update_over now user_id avatar_url bio o db1)
        (statement_ok _ db db1 existing found).0
      ∙ rest)

-- Once an update has succeeded, a read of the same user whose statement is executed returns the profile
-- that the update returned, with its time in whole microseconds.
pub get_profile-update_profile :
    (now : ℕ) (user_id : Uuid) (avatar_url bio : Option Text) (db db' : ProfileDb) (p : UserProfile)
    → update_profile now user_id avatar_url bio db ≡ (ok p, db')
    → next_fault db'.faults ≡ none
    → (get_profile user_id db').0 ≡ ok (row_of p)
unfolding IsStored
get_profile-update_profile now user_id avatar_url bio db db' p h fine =
    let (stored, found) = update_profile-IsStored now user_id avatar_url bio db db' p h in
    read_back user_id (row_of p) db' found (ap row_of stored) fine
