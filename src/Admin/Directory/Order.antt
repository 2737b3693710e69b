-- ===== src/Admin/Directory/Order.antt =====
-- The order of the users: all of them, the newest first.
use app_home_services.Base.{
  ◌≤◌, ◌<◌, ◌≡◌, ◌⊎◌, inl, inr, true, false, Bool-cases, List, [], ◌∷◌, All, arith,
}
use mathlib.Core.List.{Perm}
use mathlib.Core.List.Perm
use app_home_services.Admin.Store.{UserSummary}
use app_home_services.Admin.Directory.{comes_before, insert_newest, newest_first}

-- The first was made later than the second, or at the same time with no smaller id.
abbrev pub IsNewer : UserSummary → UserSummary → Type 0
IsNewer a b = (b.created_at < a.created_at) ⊎ ((b.created_at ≡ a.created_at) × (b.id ≤ a.id))

-- Each user is newer than those that follow.
abbrev pub IsNewestFirst : List UserSummary → Type 0
IsNewestFirst [] = Unit {0}
IsNewestFirst (a ∷ rest) = All (IsNewer a) rest × IsNewestFirst rest

insert_newest-perm : (a : UserSummary) (l : List UserSummary) → Perm (insert_newest a l) (a ∷ l)
unfolding insert_newest
insert_newest-perm a [] = Perm.rfl
insert_newest-perm a (b ∷ rest) = elim (Bool-cases (comes_before b a)) [
  | inl yes_ ↦
      rw (yes_, insert_newest)
        (Perm.trans (Perm.cons b (insert_newest-perm a rest)) (Perm.swap a b rest))
  | inr no_ ↦ rw (no_, insert_newest) Perm.rfl
]

pub newest_first-perm : (l : List UserSummary) → Perm (newest_first l) l
unfolding newest_first
newest_first-perm [] = Perm.rfl
newest_first-perm (a ∷ rest) =
    Perm.trans (insert_newest-perm a (newest_first rest)) (Perm.cons a (newest_first-perm rest))

IsNewer-trans : (a b c : UserSummary) → IsNewer a b → IsNewer b c → IsNewer a c
IsNewer-trans a b c h k = grind arith

comes_before-IsNewer : (a b : UserSummary) → comes_before a b ≡ true → IsNewer a b
unfolding comes_before
comes_before-IsNewer a b h = grind arith

comes_after-IsNewer : (a b : UserSummary) → comes_before b a ≡ false → IsNewer a b
unfolding comes_before
comes_after-IsNewer a b h = grind arith

All-IsNewer :
    (a b : UserSummary) (l : List UserSummary) → IsNewer a b → All (IsNewer b) l → All (IsNewer a) l
All-IsNewer a b [] h k = tt
All-IsNewer a b (c ∷ l) h (k, ks) = (IsNewer-trans a b c h k, All-IsNewer a b l h ks)

insert_newest-All :
    (b a : UserSummary) (l : List UserSummary)
    → IsNewer b a
    → All (IsNewer b) l
    → All (IsNewer b) (insert_newest a l)
unfolding insert_newest
insert_newest-All b a [] h k = (h, tt)
insert_newest-All b a (c ∷ l) h (k, ks) = elim (Bool-cases (comes_before c a)) [
  | inl before ↦ rw (before, insert_newest) (k, insert_newest-All b a l h ks)
  | inr after ↦ rw (after, insert_newest) (h, (k, ks))
]

insert_newest-IsNewestFirst :
    (a : UserSummary) (l : List UserSummary) → IsNewestFirst l → IsNewestFirst (insert_newest a l)
unfolding insert_newest
insert_newest-IsNewestFirst a [] h = (tt, tt)
insert_newest-IsNewestFirst a (b ∷ rest) (below, sorted) = elim (Bool-cases (comes_before b a)) [
  | inl before ↦
      rw (before, insert_newest)
        (
          insert_newest-All b a rest (comes_before-IsNewer b a before) below,
          insert_newest-IsNewestFirst a rest sorted,
        )
  | inr after ↦
      let newer = comes_after-IsNewer a b after in
      rw (after, insert_newest) ((newer, All-IsNewer a b rest newer below), (below, sorted))
]

pub newest_first-IsNewestFirst : (l : List UserSummary) → IsNewestFirst (newest_first l)
unfolding newest_first
newest_first-IsNewestFirst [] = tt
newest_first-IsNewestFirst (a ∷ rest) =
    insert_newest-IsNewestFirst a (newest_first rest) (newest_first-IsNewestFirst rest)
