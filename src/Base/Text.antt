-- ===== src/Base/Text.antt =====
-- Rust's `str` and `String` as the list of their code points. `len` counts the bytes of UTF-8.
use Prim.Native.Char.{code}
use Prim.Native.Nat.{ℕ, ◌+◌, ◌-◌, ◌*◌}
use Prim.Native.String.{String}
use mathlib.Core.Path.{◌≡◌}
use mathlib.Core.Logic.{◌↔◌}
use mathlib.Core.Bool.{Bool, true, false, ◌&&◌, ◌||◌}
use mathlib.Core.List.{List, [], ◌∷◌, ◌++◌, reverse}
use mathlib.Core.Option.{Option, none, some}
use native.Mathlib.Omega.{arith}
use app_home_services.Base.Tests.{ltb, leb, nat_beq, PartialEq, if◌then◌else◌}

abbrev pub Text : Type 0
Text = List ℕ

-- The text of a literal.
abbrev pub text : String → Text
text String.[] = []
text (String.◌∷◌ ch rest) = code ch ∷ text rest

abbrev pub text_beq : Text → Text → Bool
text_beq [] [] = true
text_beq [] (_ ∷ _) = false
text_beq (_ ∷ _) [] = false
text_beq (c ∷ s) (d ∷ t) = nat_beq c d && text_beq s t

pub text_beq_iff : (s t : Text) → (text_beq s t ≡ true) ↔ (s ≡ t)
text_beq_iff [] [] = ground arith
text_beq_iff [] (d ∷ t) = ground arith
text_beq_iff (c ∷ s) [] = ground arith
text_beq_iff (c ∷ s) (d ∷ t) = ground (arith, text_beq_iff s t)

instance abbrev pub text_eq : PartialEq Text
text_eq = record { eq = text_beq; eq_iff = text_beq_iff }

-- The bytes that UTF-8 takes for a code point.
abbrev pub utf8_width : ℕ → ℕ
utf8_width c = if ltb c 0x80 then 1 else if ltb c 0x800 then 2 else if ltb c 0x10000 then 3 else 4

-- `str::len`
abbrev pub len : Text → ℕ
len [] = 0
len (c ∷ s) = utf8_width c + len s

-- `str::is_empty`
abbrev pub is_empty : Text → Bool
is_empty [] = true
is_empty (_ ∷ _) = false

-- `str::contains`, of a character
abbrev pub contains_char : ℕ → Text → Bool
contains_char c [] = false
contains_char c (d ∷ s) = nat_beq c d || contains_char c s

-- `char::is_whitespace`: the code points with the property White_Space
unfoldable pub is_whitespace : ℕ → Bool
is_whitespace c =
    (leb 9 c && leb c 13)
    || nat_beq c 32
    || nat_beq c 0x85
    || nat_beq c 0xA0
    || nat_beq c 0x1680
    || (leb 0x2000 c && leb c 0x200A)
    || nat_beq c 0x2028
    || nat_beq c 0x2029
    || nat_beq c 0x202F
    || nat_beq c 0x205F
    || nat_beq c 0x3000

-- `str::trim_start`
unfoldable pub trim_start : Text → Text
trim_start [] = []
trim_start (c ∷ s) = if is_whitespace c then trim_start s else c ∷ s

-- `str::trim`
unfoldable pub trim : Text → Text
trim s = reverse (trim_start (reverse (trim_start s)))

-- The pieces of `str::split`, of a character: the first, and those after it.
abbrev pub split_cons : Bool → ℕ → Text × List Text → Text × List Text
split_cons true c (piece, rest) = ([], piece ∷ rest)
split_cons false c (piece, rest) = (c ∷ piece, rest)

abbrev pub split_pieces : ℕ → Text → Text × List Text
split_pieces sep [] = ([], [])
split_pieces sep (c ∷ s) = split_cons (nat_beq c sep) c (split_pieces sep s)

-- `str::split`, of a character
abbrev pub split : ℕ → Text → List Text
split sep s = (split_pieces sep s).0 ∷ (split_pieces sep s).1

-- The value of a row of decimal digits, after those read already.
abbrev pub digits : ℕ → Text → Option ℕ
digits acc [] = some acc
digits acc (c ∷ s) =
    let rest = digits (acc * 10 + (c - 48)) s in if leb 48 c && leb c 57 then rest else none

-- `str::parse`, of an unsigned number below the bound: digits, after a `+` (0x2B) or none.
unfoldable pub parse_digits : ℕ → Text → Option ℕ
parse_digits bound [] = none
parse_digits bound (c ∷ s) = elim (digits 0 (c ∷ s)) [
  | none ↦ none
  | some n ↦ if ltb n bound then some n else none
]

unfoldable pub parse_unsigned : ℕ → Text → Option ℕ
parse_unsigned bound [] = none
parse_unsigned bound (c ∷ s) =
    if nat_beq c 0x2B then parse_digits bound s else parse_digits bound (c ∷ s)

-- `str::strip_prefix`
abbrev pub strip_prefix : Text → Text → Option Text
strip_prefix [] s = some s
strip_prefix (_ ∷ _) [] = none
strip_prefix (c ∷ prefix) (d ∷ s) =
    let rest = strip_prefix prefix s in if nat_beq c d then rest else none

pub strip_prefix_iff : (prefix s t : Text) → (strip_prefix prefix s ≡ some t) ↔ (s ≡ prefix ++ t)
strip_prefix_iff [] s t = ground arith
strip_prefix_iff (c ∷ prefix) [] t = ground arith
strip_prefix_iff (c ∷ prefix) (d ∷ s) t = ground (arith, strip_prefix_iff prefix s t)
