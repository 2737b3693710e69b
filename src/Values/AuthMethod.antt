-- ===== src/Values/AuthMethod.antt =====
-- crates/shared/src/domain/value_objects/auth_method.rs: `AuthMethod` and its text.
use app_home_services.Base.{◌≡◌, refl, ◌++◌, if◌then◌else◌, ◌==◌, arith}
use app_home_services.Base.Text.{Text, text, text_eq, text_beq_iff}
use app_home_services.Base.Outcome.{Result, ok, err}

pub data AuthMethod : Type 0 where
  password google_oauth : AuthMethod

-- `as_str`
unfoldable pub as_str : AuthMethod → Text
as_str password = text "password"
as_str google_oauth = text "google_oauth"

-- `TryFrom<&str>`
unfoldable pub try_from : Text → Result AuthMethod Text
try_from value =
    if value == text "password"
    then ok password
    else if value == text "google_oauth"
    then ok google_oauth
    else err (text "Invalid auth method: " ++ value)

pub try_from-as_str : (x : AuthMethod) → try_from (as_str x) ≡ ok x
unfolding try_from as_str
try_from-as_str password = refl
try_from-as_str google_oauth = refl

-- Only the texts of the variants are read.
pub try_from_reads : (s : Text) (x : AuthMethod) → try_from s ≡ ok x → s ≡ as_str x
unfolding try_from as_str
try_from_reads s password h =
    ground (arith, text_beq_iff s (text "password"), text_beq_iff s (text "google_oauth"))
try_from_reads s google_oauth h =
    ground (arith, text_beq_iff s (text "password"), text_beq_iff s (text "google_oauth"))
