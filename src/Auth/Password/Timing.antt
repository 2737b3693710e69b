-- ===== src/Auth/Password/Timing.antt =====
-- crates/auth/src/domain/services/password_verification.rs: the work of a verification.
use app_home_services.Base.{
  ℕ, suc, zero, ◌+◌, ◌-◌, ◌*◌, ◌^◌, ◌≤◌, ◌<◌, ◌%◌, max, false, ◌≡◌, sym, ◌∙◌, ap, inl, inr, Option,
  none, some, List, [], ◌∷◌, ◌++◌, leb, Bool-cases, arith, nat_eq,
}
use app_home_services.Base.Text.{Text, split, contains_char, parse_unsigned}
use app_home_services.Base.Split.{split-append, split_plain}
use app_home_services.Base.HashMap.{get}
use app_home_services.Auth.Entities.{User}
use app_home_services.Auth.Tokens.{Crypto}
use app_home_services.Auth.Password.{
  Work, hashed, verified, slept, Cache, repeat, dummy_password_hash, stored_hash_cost,
  cost_of_pieces, pad_with, pad_timing_to, verify_dummy, stored_hash, verify_password_timing_safe,
}
use native.Mathlib.Omega.{pow_step}

-- A hash as bcrypt writes it, `$`, a version, `$`, a cost in digits, `$` and the rest; 0x24 is `$`.
abbrev pub HasCost : Text → ℕ → Type 0
HasCost hash cost =
    (version : Text) × (written : Text) × (rest : Text) × (hash
      ≡ 0x24 ∷ (version ++ 0x24 ∷ (written ++ 0x24 ∷ rest)))
    × (contains_char 0x24 version ≡ false)
    × (contains_char 0x24 written ≡ false)
    × (parse_unsigned (2 ^ 32) written ≡ some cost)

-- The code reads the cost that is written in the hash.
pub HasCost-stored_hash_cost :
    (hash : Text) (cost : ℕ) → HasCost hash cost → stored_hash_cost hash ≡ some cost
unfolding stored_hash_cost cost_of_pieces
HasCost-stored_hash_cost hash cost (version, written, rest, whole, no_dollar, none_either, parsed) =
    let first = split-append 0x24 version (written ++ 0x24 ∷ rest) in
    let second = split-append 0x24 written rest in
    ap stored_hash_cost whole
    ∙ ap (λ (pieces : List Text). cost_of_pieces ([] ∷ pieces)) first
    ∙ ap (λ (pieces : List Text). cost_of_pieces ([] ∷ (split 0x24 version ++ pieces))) second
    ∙ ap
        (λ (pieces : List Text).
          cost_of_pieces ([] ∷ (pieces ++ (split 0x24 written ++ split 0x24 rest))))
        (split_plain 0x24 version no_dollar)
    ∙ ap (λ (pieces : List Text). cost_of_pieces ([] ∷ version ∷ (pieces ++ split 0x24 rest)))
        (split_plain 0x24 written none_either)
    ∙ parsed

-- The cache has a dummy hash of the cost.
abbrev pub IsWarm : ℕ → Cache → Type 0
IsWarm cost cache = (dummy : Text) × (get cost cache ≡ some (some dummy)) × HasCost dummy cost

plus_zero : (c : ℕ) → zero + c ≡ c
plus_zero c = omega arith

plus_suc : (d c : ℕ) → suc d + c ≡ suc (d + c)
plus_suc d c = omega arith

times_assoc : (x y z : ℕ) → (x * y) * z ≡ x * (y * z)
times_assoc x y z = grind arith

doubled : (d c : ℕ) → 2 ^ d * 2 ^ c ≡ 2 ^ (d + c)
doubled zero c = rw (plus_zero c) (omega arith)
doubled (suc d) c =
    ap (λ x. x * 2 ^ c) (pow_step 2 d)
    ∙ times_assoc 2 (2 ^ d) (2 ^ c)
    ∙ ap (λ x. 2 * x) (doubled d c)
    ∙ sym (pow_step 2 (d + c))
    ∙ ap (λ x. 2 ^ x) (sym (plus_suc d c))

pow_positive : (d : ℕ) → 1 ≤ 2 ^ d
pow_positive zero = omega arith
pow_positive (suc d) = omega (arith, pow_positive d, pow_step 2 d)

minus_one : (x y : ℕ) → 1 ≤ x → (x - 1) * y + y ≡ x * y
minus_one zero y h = absurd (omega arith)
minus_one (suc x) y h = grind arith

-- The padding and the verification itself.
padded : (c d : ℕ) → c ≤ d → (2 ^ (d - c) - 1) * 2 ^ c + 2 ^ c ≡ 2 ^ d
padded c d h =
    let positive = pow_positive (d - c) in
    let product = doubled (d - c) c in
    let whole : (d - c) + c ≡ d = omega arith in
    minus_one (2 ^ (d - c)) (2 ^ c) positive ∙ product ∙ ap (λ x. 2 ^ x) whole

-- `cost_of` is the cost at which bcrypt verifies a hash.
module _ (cost_of : Text → ℕ) where
  -- bcrypt's work doubles with each step of the cost.
  unfoldable pub weight : Work → ℕ
  weight (hashed cost) = 2 ^ cost
  weight (verified hash) = 2 ^ cost_of hash
  weight slept = 0

  unfoldable pub total : List Work → ℕ
  total [] = 0
  total (w ∷ rest) = weight w + total rest

  total-append : (u v : List Work) → total (u ++ v) ≡ total u + total v
  unfolding total
  total-append [] v = omega arith
  total-append (w ∷ u) v = omega (arith, total-append u v)

  total-repeat : (n : ℕ) (w : Work) → total (repeat n w) ≡ n * weight w
  unfolding total
  total-repeat zero w = omega arith
  total-repeat (suc n) w = rw (total-repeat n w) (ground arith)

  -- The work of the padding.
  pad_work :
      (crypto : Crypto) (salt : ℕ) (cache : Cache) (d c : ℕ) (hash : Text)
      → ((h : Text) (k : ℕ) → HasCost h k → cost_of h ≡ k)
      → HasCost hash c
      → d < 32
      → IsWarm c cache
      → total (pad_timing_to crypto salt cache hash d).1 + 2 ^ c ≡ 2 ^ max c d
  unfolding pad_timing_to pad_with dummy_password_hash total weight
  pad_work crypto salt cache d c hash bcrypt has small (dummy, warm, dummy_cost) =
      let cost = HasCost-stored_hash_cost hash c has in
      elim (Bool-cases (leb d c)) [
        | inl e ↦
            let most : c ≡ max c d = ground arith in
            rw (cost, pad_timing_to, e) (plus_zero (2 ^ c) ∙ ap (λ x. 2 ^ x) most)
        | inr e ↦
            let le : c ≤ d = ground arith in
            let most : d ≡ max c d = omega (arith, le) in
            let shift : (d - c) % 32 ≡ d - c = omega (arith, small) in
            rw (cost, pad_timing_to, e, warm, dummy_password_hash, shift)
              (ap (λ x. x + 2 ^ c)
                  (total-repeat (2 ^ (d - c) - 1) (verified dummy)
                    ∙ ap (λ x. (2 ^ (d - c) - 1) * 2 ^ x) (bcrypt dummy c dummy_cost))
                ∙ padded c d le
                ∙ ap (λ x. 2 ^ x) most)
      ]

  work_known :
      (crypto : Crypto) (salt : ℕ) (cache : Cache) (known : Option User) (password : Text) (d c : ℕ)
      (hash : Text)
      → ((h : Text) (k : ℕ) → HasCost h k → cost_of h ≡ k)
      → stored_hash known ≡ some hash
      → HasCost hash c
      → d < 32
      → IsWarm c cache
      → total (verify_password_timing_safe crypto salt cache known password d).2 ≡ 2 ^ max c d
  unfolding verify_password_timing_safe total weight
  work_known crypto salt cache known password d c hash bcrypt has cost small warm =
      let own : 2 ^ cost_of hash ≡ 2 ^ c = ap (λ x. 2 ^ x) (bcrypt hash c cost) in
      rw (has, verify_password_timing_safe)
        (total-append (pad_timing_to crypto salt cache hash d).1 (verified hash ∷ [])
          ∙ omega (arith, own, pad_work crypto salt cache d c hash bcrypt cost small warm))

  work_unknown :
      (crypto : Crypto) (salt : ℕ) (cache : Cache) (unknown : Option User) (password : Text) (d : ℕ)
      → ((h : Text) (k : ℕ) → HasCost h k → cost_of h ≡ k)
      → stored_hash unknown ≡ none
      → IsWarm d cache
      → total (verify_password_timing_safe crypto salt cache unknown password d).2 ≡ 2 ^ d
  unfolding verify_password_timing_safe verify_dummy dummy_password_hash total weight
  work_unknown crypto salt cache unknown password d bcrypt none_stored (dummy, warm, cost) =
      let own : 2 ^ cost_of dummy ≡ 2 ^ d = ap (λ x. 2 ^ x) (bcrypt dummy d cost) in
      rw (none_stored, verify_password_timing_safe, warm, dummy_password_hash) (omega (arith, own))

  -- Let bcrypt verify a hash at the cost that is written in it, the configured cost be below 32, and the
  -- dummy hashes be there. Then the check of a password does bcrypt work of 2 to the larger of the
  -- configured cost and the cost of the stored hash, and 2 to the configured cost where the user is
  -- unknown or has no password. These are the same for every stored hash whose cost is not above the
  -- configured one.
  pub verify_password_timing_safe_work :
      (crypto : Crypto) (salt : ℕ) (cache : Cache) (known unknown : Option User) (password : Text)
      (d c : ℕ) (hash : Text)
      → ((h : Text) (k : ℕ) → HasCost h k → cost_of h ≡ k)
      → stored_hash known ≡ some hash
      → HasCost hash c
      → d < 32
      → IsWarm c cache
      → IsWarm d cache
      → stored_hash unknown ≡ none
      → (total (verify_password_timing_safe crypto salt cache known password d).2 ≡ 2 ^ max c d)
        × (total (verify_password_timing_safe crypto salt cache unknown password d).2 ≡ 2 ^ d)
  verify_password_timing_safe_work crypto salt cache known unknown password d c hash bcrypt has cost
        small warm warm_d lacks =
      (
        work_known crypto salt cache known password d c hash bcrypt has cost small warm,
        work_unknown crypto salt cache unknown password d bcrypt lacks warm_d,
      )
