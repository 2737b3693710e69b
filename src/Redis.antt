-- ===== src/Redis.antt =====
-- The Redis server as crates/infrastructure calls it, a parameter: the commands GET, INCR, EXPIRE,
-- DEL, SETEX and EXISTS on keys that hold an integer, with what the documentation of Redis says of
-- each. A key that has reached its deadline is no longer there. Instants are nanoseconds. The seconds
-- that EXPIRE and SETEX are given are in the range that Redis takes.
pub mod Sample
use app_home_services.Base.{
  ℕ, ◌+◌, ◌^◌, ◌≤◌, ◌<◌, ◌≡◌, ◌≢◌, refl, Bool, true, false, Option, none, some, ltb, ◌==◌,
  if◌then◌else◌, arith, from_secs,
}
use app_home_services.Base.Text.{Text, text_eq}

-- What stands under a key, and its deadline, if it expires.
pub data Item : Type 0 where
  item : ℕ → Option ℕ → Item

abbrev pub reached : ℕ → Option ℕ → Bool
reached now none = false
reached now (some d) = if ltb now d then false else true

-- What a reader finds at an instant.
abbrev pub live : ℕ → Option Item → Option Item
live now none = none
live now (some (item v d)) = if reached now d then none else some (item v d)

abbrev pub value_of : Option Item → Option ℕ
value_of none = none
value_of (some (item v _)) = some v

abbrev pub incremented : Option Item → Option Item
incremented none = some (item 1 none)
incremented (some (item v d)) = some (item (v + 1) d)

abbrev pub expiring : ℕ → Option Item → Option Item
expiring d none = none
expiring d (some (item v _)) = some (item v (some d))

abbrev pub exists_count : Option Item → ℕ
exists_count none = 0
exists_count (some _) = 1

-- A command answers, and leaves `after` under its key and every other key as it was.
pub record Redis : Type 1 where
  pub State : Type 0
  pub stored : Text → State → Option Item
  pub get : ℕ → Text → State → Option ℕ × State
  pub incr : ℕ → Text → State → Option ℕ × State
  pub expire : ℕ → Text → ℕ → State → State
  pub del : ℕ → Text → State → ℕ × State
  pub set_ex : ℕ → Text → ℕ → ℕ → State → State
  pub exists : ℕ → Text → State → ℕ × State
  pub get_reply :
      (now : ℕ) (key : Text) (s : State) → (get now key s).0 ≡ value_of (live now (stored key s))
  pub get_keeps :
      (now : ℕ) (key j : Text) (s : State)
      → live now (stored j (get now key s).1) ≡ live now (stored j s)
  -- an integer of 64 bits: at the largest, INCR answers with an error
  pub incr_reply :
      (now : ℕ) (key : Text) (s : State) (n : ℕ)
      → value_of (incremented (live now (stored key s))) ≡ some n
      → n < 2 ^ 63
      → (incr now key s).0 ≡ some n
  pub incr_stores :
      (now : ℕ) (key j : Text) (s : State) (n : ℕ)
      → (incr now key s).0 ≡ some n
      → live now (stored j (incr now key s).1)
        ≡ (if key == j then incremented (live now (stored key s)) else live now (stored j s))
  pub incr_counts :
      (now : ℕ) (key : Text) (s : State) (n : ℕ)
      → (incr now key s).0 ≡ some n
      → value_of (incremented (live now (stored key s))) ≡ some n
  pub incr_refused :
      (now : ℕ) (key j : Text) (s : State)
      → (incr now key s).0 ≡ none
      → live now (stored j (incr now key s).1) ≡ live now (stored j s)
  pub expire_stores :
      (now : ℕ) (key j : Text) (secs : ℕ) (s : State)
      → live now (stored j (expire now key secs s)) ≡ (
          if key == j
          then live now (expiring (now + from_secs secs) (live now (stored key s)))
          else live now (stored j s))
  pub del_stores :
      (now : ℕ) (key j : Text) (s : State)
      → live now (stored j (del now key s).1) ≡ (if key == j then none else live now (stored j s))
  pub set_ex_stores :
      (now : ℕ) (key j : Text) (v secs : ℕ) (s : State)
      → live now (stored j (set_ex now key v secs s)) ≡ (
          if key == j
          then live now (some (item v (some (now + from_secs secs))))
          else live now (stored j s))
  pub exists_reply :
      (now : ℕ) (key : Text) (s : State)
      → (exists now key s).0 ≡ exists_count (live now (stored key s))
  pub exists_keeps :
      (now : ℕ) (key j : Text) (s : State)
      → live now (stored j (exists now key s).1) ≡ live now (stored j s)

-- A round trip under `tokio::time::timeout`. One that fails or takes too long may have been
-- executed all the same, which the test says.
pub data Link : Type 0 where
  delivers : Link
  fails elapses : Bool → Link

-- The three arms of the code's `match` on the outcome.
pub data Outcome {ℓ} (A : Type ℓ) : Type ℓ where
  replied : A → Outcome A
  failed elapsed : Outcome A

abbrev pub ran {ℓ κ} : {A : Type ℓ} {S : Type κ} → Bool → Option A × S → S → S
ran true (_, s') s = s'
ran false (_, _) s = s

-- The answer of the server, which may be an error too.
abbrev pub outcome {ℓ} : {A : Type ℓ} → Option A → Outcome A
outcome none = failed
outcome (some a) = replied a

unfoldable pub round_trip {ℓ κ} :
    {A : Type ℓ} {S : Type κ} → Link → (S → Option A × S) → S → Outcome A × S
round_trip delivers command s = (outcome (command s).0, (command s).1)
round_trip (fails b) command s = (failed, ran b (command s) s)
round_trip (elapses b) command s = (elapsed, ran b (command s) s)

pub live_later :
    (now later : ℕ) (x : Option Item) → now ≤ later → live later (live now x) ≡ live later x
live_later now later none h = refl
live_later now later (some (item v none)) h = refl
live_later now later (some (item v (some d))) h = ground arith

-- What is found is stored.
pub live-some : (now : ℕ) (x : Option Item) (a : Item) → live now x ≡ some a → x ≡ some a
live-some now none a h = cc
live-some now (some (item v none)) a h = h
live-some now (some (item v (some d))) a h = ground arith

-- A round trip that is answered.
pub delivered {ℓ κ} :
    {A : Type ℓ} {S : Type κ} (link : Link) (command : S → Option A × S) (s : S) (a : A)
    → link ≡ delivers
    → (command s).0 ≡ some a
    → round_trip link command s ≡ (replied a, (command s).1)
unfolding round_trip
delivered delivers command s a h e = rw e refl
delivered (fails b) command s a h e = cc
delivered (elapses b) command s a h e = cc
