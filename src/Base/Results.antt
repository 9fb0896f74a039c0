-- ===== src/Base/Results.antt =====
-- Computations that end in an error of type `E`.
use mathlib.Core.Path.{◌≡◌, refl, ap}
use mathlib.Core.Bool.{Bool, true, false}
use formation_web_analytics.Base.Tests.{if◌then◌else◌}

pub data Result {ℓ κ} (E : Type κ) (A : Type ℓ) : Type (ℓ ⊔ κ) where
  ok : A → Result E A
  err : E → Result E A

module _ {ε} {E : Type ε} where
  infixl 5 ◌>>=◌ ◌>>◌
  abbrev pub ◌>>=◌ {ℓ κ} : {A : Type ℓ} {B : Type κ} → Result E A → (A → Result E B) → Result E B
  err why >>= next = err why
  ok value >>= next = next value

  abbrev pub ◌>>◌ {κ} : {B : Type κ} → Result E (Unit {0}) → Result E B → Result E B
  first >> second = first >>= λ _. second

  -- `if test { return err }`
  abbrev pub refuse_if : Bool → E → Result E (Unit {0})
  refuse_if true why = err why
  refuse_if false why = ok tt

  -- the steps of a computation that succeeds
  module _ {ℓ κ} {A : Type ℓ} {B : Type κ} where
    pub >>=-eq-ok :
        (step : Result E A) (next : A → Result E B) {out : B}
        → (step >>= next) ≡ ok out
        → (mid : A) × (step ≡ ok mid) × (next mid ≡ ok out)
    >>=-eq-ok (err why) next h = absurd (cc)
    >>=-eq-ok (ok mid) next h = (mid, refl, h)

  module _ {ℓ} {A : Type ℓ} where
    -- a test that is passed was false
    pub refuse-eq-ok :
        (test : Bool) (why : E) (rest : Result E A) {out : A}
        → (if test then err why else rest) ≡ ok out
        → (test ≡ false) × (rest ≡ ok out)
    refuse-eq-ok true why rest h = absurd (cc)
    refuse-eq-ok false why rest h = (refl, h)

    value_or : A → Result E A → A
    value_or fallback (err why) = fallback
    value_or fallback (ok value) = value

    pub ok-injective : {a b : A} → ◌≡◌ {A = Result E A} (ok a) (ok b) → a ≡ b
    unfolding value_or
    ok-injective {a = a} h = ap (value_or a) h

  pub refuse_if-eq-ok : (test : Bool) (why : E) → refuse_if test why ≡ ok tt → test ≡ false
  refuse_if-eq-ok true why h = absurd (cc)
  refuse_if-eq-ok false why h = refl
