-- ===== src/Values/EventType.antt =====
-- crates/shared/src/domain/value_objects/event_type.rs: `EventType` and its text.
use app_home_services.Base.{◌≡◌, refl, ◌++◌, if◌then◌else◌, ◌==◌, arith}
use app_home_services.Base.Text.{Text, text, text_eq, text_beq_iff}
use app_home_services.Base.Outcome.{Result, ok, err}

pub data EventType : Type 0 where
  login logout refresh : EventType

-- `as_str`
unfoldable pub as_str : EventType → Text
as_str login = text "login"
as_str logout = text "logout"
as_str refresh = text "refresh"

-- `TryFrom<&str>`
unfoldable pub try_from : Text → Result EventType Text
try_from value =
    if value == text "login"
    then ok login
    else if value == text "logout"
    then ok logout
    else if value == text "refresh"
    then ok refresh
    else err (text "Invalid event type: " ++ value)

pub try_from-as_str : (x : EventType) → try_from (as_str x) ≡ ok x
unfolding try_from as_str
try_from-as_str login = refl
try_from-as_str logout = refl
try_from-as_str refresh = refl

-- Only the texts of the variants are read.
pub try_from_reads : (s : Text) (x : EventType) → try_from s ≡ ok x → s ≡ as_str x
unfolding try_from as_str
try_from_reads s login h = ground (
  arith,
  text_beq_iff s (text "login"),
  text_beq_iff s (text "logout"),
  text_beq_iff s (text "refresh"),
)
try_from_reads s logout h = ground (
  arith,
  text_beq_iff s (text "login"),
  text_beq_iff s (text "logout"),
  text_beq_iff s (text "refresh"),
)
try_from_reads s refresh h = ground (
  arith,
  text_beq_iff s (text "login"),
  text_beq_iff s (text "logout"),
  text_beq_iff s (text "refresh"),
)
