-- ===== src/Bearer/Tests.antt =====
-- Requests with a token, and the extractor's theorems at concrete inputs.
use app_home_services.Base.{◌+◌, ◌≡◌, ◌↔◌, refl, Bool, Option, some, [], arith, nat_eq, from_secs}
use app_home_services.Base.Text.{Text, text}
use app_home_services.Base.Outcome.{ok, err}
use app_home_services.Blacklist.InMemory.{memory_backend}
use app_home_services.Bearer.{auth_rejection, Claims, user_of, from_request_parts}
use app_home_services.Bearer.Admission.{Accepts, from_request_parts_iff, from_request_parts_revoked}

abbrev claims : Claims
claims = record { sub = 1; jti = 3; exp = 900 }

abbrev decode : Text → Option Claims
decode _ = some claims

abbrev no_entries : memory_backend.State
no_entries = ([], tt)

abbrev revoked : memory_backend.State
revoked = (memory_backend.revoke 5 3 60 no_entries).1

from_request_parts_iff_example :
    ((from_request_parts memory_backend 6
        (some (text "Bearer abc"))
        (some decode)
        (some no_entries)).0
      ≡ ok (user_of claims))
    ↔ Accepts memory_backend 6
        (some (text "Bearer abc"))
        (some decode)
        (some no_entries)
        (user_of claims)
from_request_parts_iff_example =
    from_request_parts_iff memory_backend 6 (some (text "Bearer abc")) (some decode)
      (some no_entries) (user_of claims)

answer_run : (b : Bool) × ((memory_backend.is_revoked 6 3 revoked).0 ≡ ok b)
answer_run = (_, refl)

from_request_parts_revoked_example :
    (from_request_parts memory_backend 6 (some (text "Bearer abc")) (some decode) (some revoked)).0
    ≡ err auth_rejection
from_request_parts_revoked_example =
    from_request_parts_revoked memory_backend 6 (5 + from_secs 60) (text "Bearer abc") (text "abc")
      decode revoked claims refl refl
      (memory_backend.revoke_holds 5 3 60 no_entries (omega arith) refl) (omega arith) answer_run.1
