-- ===== src/Profiles/Storing.antt =====
-- A trimmed text trims to itself, so that what `new` accepts it accepts again.
use app_home_services.Base.{
  ◌≡◌, refl, sym, ap, ◌∙◌, inl, inr, true, not, Bool-cases, Bool, [], ◌∷◌, ◌++◌, reverse, arith,
}
use mathlib.Core.List.{reverse-append, reverse-reverse}
use app_home_services.Base.Text.{Text, trim, trim_start, is_whitespace}

-- A text that does not begin with white space.
abbrev plain_head : Text → Bool
plain_head [] = true
plain_head (c ∷ s) = not (is_whitespace c)

plain_head-trim_start : (s : Text) → plain_head (trim_start s) ≡ true
unfolding trim_start
plain_head-trim_start [] = refl
plain_head-trim_start (c ∷ s) = elim (Bool-cases (is_whitespace c)) [
  | inl white ↦ rw (white, trim_start) (plain_head-trim_start s)
  | inr plain ↦ rw (plain, trim_start) (ap not plain)
]

trim_start-plain : (s : Text) → plain_head s ≡ true → trim_start s ≡ s
unfolding trim_start
trim_start-plain [] h = refl
trim_start-plain (c ∷ s) h = ground arith

plain_head-append : (u v : Text) → plain_head (u ++ v) ≡ true → plain_head u ≡ true
plain_head-append [] v h = refl
plain_head-append (c ∷ u) v h = h

-- What is cut off is in front.
cut_off : (s : Text) → (front : Text) × (s ≡ front ++ trim_start s)
unfolding trim_start
cut_off [] = ([], refl)
cut_off (c ∷ s) = elim (Bool-cases (is_whitespace c)) [
  | inl white ↦
      let (front, e) = cut_off s in (c ∷ front, rw (white, trim_start) (ap (λ (t : Text). c ∷ t) e))
  | inr plain ↦ ([], rw (plain, trim_start) refl)
]

pub trim-trim : (s : Text) → trim (trim s) ≡ trim s
unfolding trim
trim-trim s =
    let w : Text = trim_start s in
    let v : Text = trim_start (reverse w) in
    let (front, e) = cut_off (reverse w) in
    let whole : reverse v ++ reverse front ≡ w =
      sym (reverse-append front v) ∙ ap reverse (sym e) ∙ reverse-reverse w in
    let plain : plain_head (reverse v) ≡ true =
      plain_head-append (reverse v) (reverse front) (rw whole (plain_head-trim_start s)) in
    ap (λ (t : Text). reverse (trim_start (reverse t))) (trim_start-plain (reverse v) plain)
    ∙ ap (λ (t : Text). reverse (trim_start t)) (reverse-reverse v)
    ∙ ap reverse (trim_start-plain v (plain_head-trim_start (reverse w)))
