-- ===== src/Admin/Role.antt =====
-- crates/admin/src/domain/value_objects/role.rs and crates/admin/src/domain/errors.rs
use app_home_services.Base.{◌≡◌, refl, Bool, true, false, if◌then◌else◌, ◌++◌, Uuid, arith}
use app_home_services.Base.Text.{Text, text, text_beq, text_beq_iff}
use app_home_services.Base.Outcome.{Result, ok, err}

pub data Role : Type 0 where
  user admin : Role

pub data AdminError : Type 0 where
  not_found : Uuid → AdminError
  unauthorized cannot_change_own_role : AdminError
  invalid_value internal_error : Text → AdminError

abbrev pub as_str : Role → Text
as_str user = text "user"
as_str admin = text "admin"

abbrev pub is_admin_role : Role → Bool
is_admin_role user = false
is_admin_role admin = true

unfoldable pub try_from : Text → Result Role Text
try_from value =
    if text_beq value (text "user")
    then ok user
    else if text_beq value (text "admin")
    then ok admin
    else err (text "Invalid role: " ++ value)

pub try_from-as_str : (r : Role) → try_from (as_str r) ≡ ok r
unfolding try_from
try_from-as_str user = refl
try_from-as_str admin = refl

-- Only the text of a role is read as it.
pub as_str-try_from : (value : Text) (r : Role) → try_from value ≡ ok r → as_str r ≡ value
unfolding try_from
as_str-try_from value user h =
    ground (arith, text_beq_iff value (text "user"), text_beq_iff value (text "admin"))
as_str-try_from value admin h =
    ground (arith, text_beq_iff value (text "user"), text_beq_iff value (text "admin"))
