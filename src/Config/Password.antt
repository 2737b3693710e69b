-- ===== src/Config/Password.antt =====
-- The strength of secrets (crates/auth/src/config/auth_settings.rs). `str::to_lowercase` is a
-- parameter; the lengths are in bytes.
use app_home_services.Base.{
  ℕ, ◌+◌, ◌/◌, ◌≤◌, ◌≡◌, max, Bool, false, not, ◌&&◌, ◌||◌, List, [], ◌∷◌, ltb, leb, any_by,
  if◌then◌else◌, length, filter_by, arith,
}
use app_home_services.Base.Text.{Text, text, text_beq, len, contains_char}
use app_home_services.Base.Outcome.{Result, ok, fail_if, ◌>>◌}
use app_home_services.Config.Env.{
  ConfigError, must_be_at_least, too_few_unique_characters, known_weak_password, too_few_classes,
}

abbrev pub min_jwt_secret_len : ℕ
min_jwt_secret_len = 32

abbrev pub min_unique_chars : ℕ
min_unique_chars = 8

abbrev pub min_default_password_len : ℕ
min_default_password_len = 12

abbrev pub recommended_default_password_len : ℕ
recommended_default_password_len = 16

-- The size of the `HashSet` of the characters.
unfoldable pub unique_chars : Text → ℕ
unique_chars [] = 0
unique_chars (c ∷ s) = let rest = unique_chars s in if contains_char c s then rest else rest + 1

unfoldable pub validate_jwt_secret : Text → Result (Unit {0}) ConfigError
validate_jwt_secret secret =
    fail_if (ltb (len secret) min_jwt_secret_len)
      (must_be_at_least (text "JWT_SECRET") min_jwt_secret_len (len secret))
    >> fail_if (ltb (unique_chars secret) min_unique_chars)
        (too_few_unique_characters (unique_chars secret))

unfoldable pub jwt_secret_low_entropy_warning : Text → Bool
jwt_secret_low_entropy_warning secret =
    ltb (unique_chars secret) (max (len secret / 10) min_unique_chars)

abbrev pub known_weak_passwords : List Text
known_weak_passwords =
    text "password"
    ∷ text "password1"
    ∷ text "password123"
    ∷ text "admin"
    ∷ text "admin123"
    ∷ text "administrator"
    ∷ text "12345678"
    ∷ text "123456789"
    ∷ text "1234567890"
    ∷ text "qwerty123"
    ∷ text "qwertyuiop"
    ∷ text "letmein123"
    ∷ text "welcome123"
    ∷ text "changeme"
    ∷ text "changeme123"
    ∷ text "changethis"
    ∷ text "default123"
    ∷ text "rootroot"
    ∷ text "p@ssw0rd"
    ∷ text "password1!"
    ∷ []

-- `is_ascii_lowercase`, `is_ascii_uppercase`, `is_ascii_digit`
abbrev pub is_lower : ℕ → Bool
is_lower c = leb 97 c && leb c 122

abbrev pub is_upper : ℕ → Bool
is_upper c = leb 65 c && leb c 90

abbrev pub is_digit : ℕ → Bool
is_digit c = leb 48 c && leb c 57

-- `!c.is_ascii_alphanumeric()`
abbrev pub is_symbol : ℕ → Bool
is_symbol c = not (is_lower c || is_upper c || is_digit c)

-- How many of the four kinds of characters there are.
unfoldable pub class_count : Text → ℕ
class_count password = length (
    filter_by (λ present. present)
      (any_by is_lower password
        ∷ any_by is_upper password
        ∷ any_by is_digit password
        ∷ any_by is_symbol password
        ∷ []))

unfoldable pub is_known_weak : (Text → Text) → Text → Bool
is_known_weak to_lowercase password =
    any_by (λ weak. text_beq (to_lowercase password) weak) known_weak_passwords

unfoldable pub validate_default_user_password : (Text → Text) → Text → Result (Unit {0}) ConfigError
validate_default_user_password to_lowercase password =
    fail_if (ltb (len password) min_default_password_len)
      (must_be_at_least (text "DEFAULT_USER_PASSWORD") min_default_password_len (len password))
    >> fail_if (is_known_weak to_lowercase password) known_weak_password
    >> fail_if (ltb (class_count password) 3) (too_few_classes (class_count password))

unfoldable pub default_user_password_below_recommended_length : Text → Bool
default_user_password_below_recommended_length password =
    ltb (len password) recommended_default_password_len

-- A secret that gets through.
pub record IsStrongSecret (secret : Text) : Type 0 where
  pub long : min_jwt_secret_len ≤ len secret
  pub varied : min_unique_chars ≤ unique_chars secret

-- A password that gets through.
pub record IsStrongPassword (to_lowercase : Text → Text) (password : Text) : Type 0 where
  pub long : min_default_password_len ≤ len password
  pub uncommon : is_known_weak to_lowercase password ≡ false
  pub mixed : 3 ≤ class_count password

pub validate_jwt_secret_strong :
    (secret : Text) → validate_jwt_secret secret ≡ ok tt → IsStrongSecret secret
unfolding validate_jwt_secret
validate_jwt_secret_strong secret h = record { long = ground arith; varied = ground arith }

pub validate_default_user_password_strong :
    (to_lowercase : Text → Text) (password : Text)
    → validate_default_user_password to_lowercase password ≡ ok tt
    → IsStrongPassword to_lowercase password
unfolding validate_default_user_password
validate_default_user_password_strong to_lowercase password h = record {
  long = ground arith;
  uncommon = ground arith;
  mixed = ground arith;
}
