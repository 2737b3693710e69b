-- ===== src/Values/AuthProvider.antt =====
-- crates/shared/src/domain/value_objects/auth_provider.rs: `AuthProvider` and its text.
use app_home_services.Base.{◌≡◌, refl, ◌++◌, if◌then◌else◌, ◌==◌, arith}
use app_home_services.Base.Text.{Text, text, text_eq, text_beq_iff}
use app_home_services.Base.Outcome.{Result, ok, err}

pub data AuthProvider : Type 0 where
  local google : AuthProvider

-- `as_str`
unfoldable pub as_str : AuthProvider → Text
as_str local = text "local"
as_str google = text "google"

-- `TryFrom<&str>`
unfoldable pub try_from : Text → Result AuthProvider Text
try_from value =
    if value == text "local"
    then ok local
    else if value == text "google"
    then ok google
    else err (text "Invalid auth provider: " ++ value)

pub try_from-as_str : (x : AuthProvider) → try_from (as_str x) ≡ ok x
unfolding try_from as_str
try_from-as_str local = refl
try_from-as_str google = refl

-- Only the texts of the variants are read.
pub try_from_reads : (s : Text) (x : AuthProvider) → try_from s ≡ ok x → s ≡ as_str x
unfolding try_from as_str
try_from_reads s local h =
    ground (arith, text_beq_iff s (text "local"), text_beq_iff s (text "google"))
try_from_reads s google h =
    ground (arith, text_beq_iff s (text "local"), text_beq_iff s (text "google"))
