-- ===== src/Values/Email.antt =====
-- crates/shared/src/domain/value_objects/email.rs and crates/shared/src/domain/errors.rs
use app_home_services.Base.{not, ◌++◌, ◌||◌, if◌then◌else◌}
use app_home_services.Base.Text.{Text, text, is_empty, contains_char}
use app_home_services.Base.Outcome.{Result, ok, err}

pub data DomainError : Type 0 where
  invalid_email : Text → DomainError
  invalid_value : Text → DomainError
  internal_error : Text → DomainError

pub record Email : Type 0 where
  pub as_str : Text

-- `Email::new`; 0x40 is `@`.
unfoldable pub new : Text → Result Email DomainError
new s =
    if is_empty s || not (contains_char 0x40 s)
    then err (invalid_email s)
    else ok (record { as_str = s })

-- `to_string`, from `thiserror`'s formats
unfoldable pub to_string : DomainError → Text
to_string (invalid_email s) = text "Invalid email: " ++ s
to_string (invalid_value s) = text "Invalid value: " ++ s
to_string (internal_error s) = text "Internal error: " ++ s
