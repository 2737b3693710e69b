-- ===== src/Base/Split.antt =====
-- Texts taken apart at a separator.
use app_home_services.Base.Tests.{nat_beq, nat_beq_iff, Bool-cases}
use Prim.Native.Nat.{ℕ}
use mathlib.Core.Path.{◌≡◌, refl}
use mathlib.Core.Logic.{inl, inr}
use mathlib.Core.Bool.{true, false}
use mathlib.Core.List.{[], ◌∷◌, ◌++◌}
use native.Mathlib.Omega.{arith}
use app_home_services.Base.Text.{Text, split, split_pieces, contains_char}

nat_beq_same : (n : ℕ) → nat_beq n n ≡ true
nat_beq_same n = (nat_beq_iff n n).1 refl

pieces-append :
    (sep : ℕ) (u v : Text)
    → split_pieces sep (u ++ sep ∷ v)
      ≡ ((split_pieces sep u).0, (split_pieces sep u).1 ++ split sep v)
pieces-append sep [] v = rw (nat_beq_same sep) refl
pieces-append sep (c ∷ u) v = elim (Bool-cases (nat_beq c sep)) [
  | inl e ↦ rw (e, pieces-append sep u v) refl
  | inr e ↦ rw (e, pieces-append sep u v) refl
]

-- A separator separates.
pub split-append : (sep : ℕ) (u v : Text) → split sep (u ++ sep ∷ v) ≡ split sep u ++ split sep v
split-append sep u v = rw (pieces-append sep u v) refl

one_piece : (sep : ℕ) (s : Text) → contains_char sep s ≡ false → split_pieces sep s ≡ (s, [])
one_piece sep [] h = refl
one_piece sep (c ∷ s) h = elim (Bool-cases (nat_beq c sep)) [
  | inl e ↦ absurd (ground (arith, nat_beq_iff c sep, nat_beq_iff sep c))
  | inr e ↦ rw (e, one_piece sep s (ground arith)) refl
]

-- A text without the separator is one piece.
pub split_plain : (sep : ℕ) (s : Text) → contains_char sep s ≡ false → split sep s ≡ s ∷ []
split_plain sep s h = rw (one_piece sep s h) refl
