-- ===== src/Config/Env.antt =====
-- `std::env::var`, and the numbers that settings parse.
use app_home_services.Base.{ℕ, ◌-◌, ◌+◌, ◌^◌, Option, none, some, [], ◌∷◌, nat_beq, if◌then◌else◌}
use app_home_services.Base.Text.{Text, parse_digits, parse_unsigned}
use app_home_services.Base.Outcome.{Result, ok, err}

pub data Var : Type 0 where
  set : Text → Var
  not_present not_unicode : Var

-- The environment of the process.
abbrev pub Env : Type 0
Env = Text → Var

-- `.ok()`
abbrev pub present : Var → Option Text
present (set value) = some value
present not_present = none
present not_unicode = none

-- `.unwrap_or_else(|_| …)`
abbrev pub or_default : Var → Text → Text
or_default (set value) d = value
or_default not_present d = d
or_default not_unicode d = d

-- The errors of start-up, by the text they start with: a variable that must be set, that must be a
-- number, and so on.
pub data ConfigError : Type 0 where
  must_be_set must_be_number must_be_unicode : Text → ConfigError
  must_be_at_least must_be_at_most : Text → ℕ → ℕ → ConfigError
  too_few_unique_characters : ℕ → ConfigError
  known_weak_password : ConfigError
  too_few_classes : ℕ → ConfigError
  not_a_valid_url : ConfigError
  plaintext_database : ConfigError
  not_a_flag : Text → ConfigError
  half_configured_tls : Text → Text → ConfigError

-- `.map_err(|_| "… must be set")`
abbrev pub required : Env → Text → Result Text ConfigError
required env name = elim (present (env name)) [
  | none ↦ err (must_be_set name)
  | some value ↦ ok value
]

-- `parse().map_err(|_| "… must be a valid number")`
abbrev pub number {ℓ} : {A : Type ℓ} → Text → Option A → Result A ConfigError
number name none = err (must_be_number name)
number name (some n) = ok n

-- `unwrap_or_else(|_| default).parse().map_err(…)`, of an unsigned number below the bound.
abbrev pub unsigned_or : Env → Text → ℕ → Text → Result ℕ ConfigError
unsigned_or env name bound d = number name (parse_unsigned bound (or_default (env name) d))

-- The same where a value that is not Unicode is an error, too.
abbrev pub strict_or : Text → ℕ → ℕ → Var → Result ℕ ConfigError
strict_or name bound d (set value) = number name (parse_unsigned bound value)
strict_or name bound d not_present = ok d
strict_or name bound d not_unicode = err (must_be_unicode name)

-- Integers: `pos n` is n, `negsuc n` is -(n + 1).
pub data ℤ : Type 0 where
  pos negsuc : ℕ → ℤ

-- `parse::<i64>()`
abbrev pub negated : ℕ → ℤ
negated n = if nat_beq n 0 then pos 0 else negsuc (n - 1)

abbrev pub as_pos : Option ℕ → Option ℤ
as_pos none = none
as_pos (some n) = some (pos n)

abbrev pub as_neg : Option ℕ → Option ℤ
as_neg none = none
as_neg (some n) = some (negated n)

unfoldable pub parse_i64 : Text → Option ℤ
parse_i64 [] = none
parse_i64 (c ∷ s) =
    if nat_beq c 0x2D
    then as_neg (parse_digits (2 ^ 63 + 1) s)
    else as_pos (parse_unsigned (2 ^ 63) (c ∷ s))
