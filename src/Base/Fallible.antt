-- ===== src/Base/Fallible.antt =====
-- A computation that changes a state and may fail, with `?` as its bind.
use mathlib.Core.Path.{◌≡◌, refl}
use app_home_services.Base.Outcome.{Result, ok, err}

abbrev pub Fallible {ℓ κ μ} : Type ℓ → Type κ → Type μ → Type (ℓ ⊔ κ ⊔ μ)
Fallible S E A = S → Result A E × S

module _ {ℓ κ μ} {S : Type ℓ} {E : Type κ} {A : Type μ} where
  abbrev pub lift : Result A E → Fallible S E A
  lift r s = (r, s)

  -- What follows a result.
  abbrev pub proceed {ν} : {B : Type ν} → (A → Fallible S E B) → Result A E × S → Result B E × S
  proceed k (ok a, s) = k a s
  proceed k (err e, s) = (err e, s)

  infixl 5 ◌>>=◌
  abbrev pub ◌>>=◌ {ν} : {B : Type ν} → Fallible S E A → (A → Fallible S E B) → Fallible S E B
  (m >>= k) s = proceed k (m s)

-- A chain that succeeds went through its first step.
pub proceed-ok {ℓ κ μ ν} :
    {S : Type ℓ} {E : Type κ} {A : Type μ} {B : Type ν} (k : A → Fallible S E B)
    (r : Result A E × S) {b : B} {t : S}
    → proceed k r ≡ (ok b, t)
    → (a : A) × (s : S) × (r ≡ (ok a, s)) × (k a s ≡ (ok b, t))
proceed-ok k (ok a, s) h = (a, s, refl, h)
proceed-ok k (err e, s) h = cc
