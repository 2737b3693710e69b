-- ===== src/Values/HashedPassword.antt =====
-- crates/shared/src/domain/value_objects/hashed_password.rs
use app_home_services.Base.{if◌then◌else◌}
use app_home_services.Base.Text.{Text, text, is_empty}
use app_home_services.Base.Outcome.{Result, ok, err}

pub record HashedPassword : Type 0 where
  pub as_str : Text

-- `HashedPassword::new`
unfoldable pub new : Text → Result HashedPassword Text
new s =
    if is_empty s then err (text "Password hash must not be empty") else ok (record { as_str = s })
