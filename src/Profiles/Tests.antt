-- ===== src/Profiles/Tests.antt =====
-- The handlers' theorem at a concrete input: an avatar is trimmed and stored, a bio is kept.
use app_home_services.Base.{◌≡◌, refl, none, some, [], ◌∷◌, nat_eq}
use app_home_services.Base.Text.{text, trim, trim_start, is_whitespace}
use app_home_services.Profiles.{
  UserProfile, ProfileDb, trimmed, statement, find_by_user_id, upsert, save, requested, update_over,
  update_profile, get_profile_handler, update_profile_handler,
}
use app_home_services.Profiles.Handled.{shown, get_profile_handler-update_profile_handler}

abbrev before : ProfileDb
before = record {
  user_profiles =
      (1, record { user_id = 1; avatar_url = none; bio = some (text "hi"); updated_at = 4 }) ∷ [];
  faults = [];
}

abbrev updated : UserProfile
updated = record {
  user_id = 1;
  avatar_url = some (text "a");
  bio = some (text "hi");
  updated_at = 5_300;
}

abbrev kept : UserProfile
kept = record {
  user_id = 1;
  avatar_url = some (text "a");
  bio = some (text "hi");
  updated_at = 5_000;
}

abbrev after : ProfileDb
after = record { user_profiles = (1, kept) ∷ []; faults = [] }

an_update : update_profile_handler 5_300 1 (some (text " a ")) none before ≡ (shown updated, after)
unfolding update_profile_handler update_profile update_over requested save upsert find_by_user_id
    statement trimmed trim trim_start is_whitespace
an_update = refl

get_profile_handler-update_profile_handler_example : (get_profile_handler 1 after).0 ≡ shown kept
get_profile_handler-update_profile_handler_example =
    get_profile_handler-update_profile_handler 5_300 1 (some (text " a ")) none before after updated
      an_update refl
