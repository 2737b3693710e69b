-- ===== src/Admin/Directory.antt =====
-- crates/auth/src/adapters/postgres_user_directory.rs; its errors are told apart no further than the
-- repository that asks it does.
pub mod Order
use app_home_services.Base.{
  ℕ, ◌^◌, Bool, ◌&&◌, ◌||◌, Option, List, [], ◌∷◌, Uuid, ltb, nat_beq, if◌then◌else◌, find_by,
  length, take, drop,
}
use app_home_services.Base.Text.{text}
use app_home_services.Base.Outcome.{err}
use app_home_services.Base.Fallible.{lift}
use app_home_services.Admin.Role.{internal_error}
use app_home_services.Admin.Store.{UserSummary, Query, select}

-- The first of two rows by `created_at DESC, id DESC`.
unfoldable pub comes_before : UserSummary → UserSummary → Bool
comes_before a b =
    ltb b.created_at a.created_at || (nat_beq a.created_at b.created_at && ltb b.id a.id)

unfoldable pub insert_newest : UserSummary → List UserSummary → List UserSummary
insert_newest a [] = a ∷ []
insert_newest a (b ∷ rest) =
    let later = insert_newest a rest in if comes_before b a then b ∷ later else a ∷ b ∷ rest

-- `ORDER BY created_at DESC, id DESC`
unfoldable pub newest_first : List UserSummary → List UserSummary
newest_first [] = []
newest_first (a ∷ rest) = insert_newest a (newest_first rest)

unfoldable pub get_user_summary : Uuid → Query (Option UserSummary)
get_user_summary user_id = select λ db. find_by (λ u. nat_beq u.id user_id) db.users

-- `LIMIT … OFFSET …`, where the offset fits an i64.
unfoldable pub list_user_summaries : ℕ → ℕ → Query (List UserSummary)
list_user_summaries limit offset =
    if ltb offset (2 ^ 63)
    then select (λ db. take limit (drop offset (newest_first db.users)))
    else lift
        (err (internal_error (text "Internal error: pagination offset exceeds PostgreSQL range")))

unfoldable pub count_users : Query ℕ
count_users = select λ db. length db.users
