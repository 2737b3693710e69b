-- ===== src/Auth/Password.antt =====
-- crates/auth/src/domain/services/password_verification.rs. Beside its result a function gives the
-- bcrypt work it does, in order; the cache of dummy hashes goes in and comes out.
pub mod Timing
use app_home_services.Base.{
  ℕ, suc, zero, ◌-◌, ◌%◌, ◌^◌, Bool, true, false, not, Option, none, some, List, [], ◌∷◌, ◌++◌,
  if◌then◌else◌, leb, Uuid, nat_eq,
}
use app_home_services.Base.Text.{Text, text, is_empty, split, parse_unsigned}
use app_home_services.Base.HashMap.{HashMap, get, insert}
use app_home_services.Base.Outcome.{Result, ok, err, to_option}
use app_home_services.Auth.Entities.{User}
use app_home_services.Auth.Tokens.{Crypto}

-- A hash at a cost, a verification against a hash, and 50 ms of sleep.
pub data Work : Type 0 where
  hashed : ℕ → Work
  verified : Text → Work
  slept : Work

-- `DUMMY_PASSWORD_HASHES`
abbrev pub Cache : Type 0
Cache = HashMap ℕ (Option Text)

abbrev pub dummy_password : Text
dummy_password = text "dummy-password-for-timing-safety"

unfoldable pub dummy_password_hash : Crypto → ℕ → Cache → ℕ → Option Text × Cache × List Work
dummy_password_hash crypto salt cache cost = elim (get cost cache) [
  | some hash ↦ (hash, cache, [])
  | none ↦
      let hash = to_option (crypto.hash salt dummy_password cost) in
      (hash, insert cost hash cache, hashed cost ∷ [])
]

-- The third piece of `$2b$12$…`, if the first is empty; 0x24 is `$`.
unfoldable pub cost_of_pieces : List Text → Option ℕ
cost_of_pieces (first ∷ _ ∷ cost ∷ _) =
    if is_empty first then parse_unsigned 0x1_0000_0000 cost else none
cost_of_pieces _ = none

unfoldable pub stored_hash_cost : Text → Option ℕ
stored_hash_cost hash = cost_of_pieces (split 0x24 hash)

-- `for _ in 0..n`
abbrev pub repeat : ℕ → Work → List Work
repeat zero w = []
repeat (suc n) w = w ∷ repeat n w

-- The verifications that make up for a lower cost, or the sleep without a dummy hash.
unfoldable pub pad_with : ℕ → Option Text × Cache × List Work → Cache × List Work
pad_with extra_verifies (none, cache, work) = (cache, work ++ slept ∷ [])
pad_with extra_verifies (some dummy, cache, work) =
    (cache, work ++ repeat extra_verifies (verified dummy))

-- `1u32 << n` takes n modulo 32 where overflow is not checked.
unfoldable pub pad_timing_to : Crypto → ℕ → Cache → Text → ℕ → Cache × List Work
pad_timing_to crypto salt cache stored_hash configured_cost = elim (stored_hash_cost stored_hash) [
  | none ↦ (cache, [])
  | some stored_cost ↦
      if leb configured_cost stored_cost
      then (cache, [])
      else pad_with (2 ^ ((configured_cost - stored_cost) % 32) - 1)
          (dummy_password_hash crypto salt cache stored_cost)
]

-- `unwrap_or(false)`, as both matches on the result do
abbrev pub or_false : Result Bool Text → Bool
or_false (ok valid) = valid
or_false (err _) = false

-- The path without a stored hash.
unfoldable pub verify_dummy : Option Text × Cache × List Work → Bool × Cache × List Work
verify_dummy (some hash, cache, work) = (false, cache, work ++ verified hash ∷ [])
verify_dummy (none, cache, work) = (false, cache, work ++ slept ∷ [])

-- `user.and_then(|u| u.password_hash())`, as a text
unfoldable pub stored_hash : Option User → Option Text
stored_hash none = none
stored_hash (some user) = elim (user.password_hash) [ none ↦ none | some h ↦ some (h.as_str) ]

unfoldable pub verify_password_timing_safe :
    Crypto → ℕ → Cache → Option User → Text → ℕ → Bool × Cache × List Work
verify_password_timing_safe crypto salt cache user password cost = elim (stored_hash user) [
  | some hash ↦
      let (padded, work) = pad_timing_to crypto salt cache hash cost in
      (or_false (crypto.verify password hash), padded, work ++ verified hash ∷ [])
  | none ↦ verify_dummy (dummy_password_hash crypto salt cache cost)
]
