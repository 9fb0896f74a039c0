-- ===== src/Base/Tabulate.antt =====
-- The list `f 0, …, f (n - 1)`, which describes what a loop over indices reads or writes.
use Prim.Native.Nat.{ℕ, zero, suc, ◌+◌, ◌-◌, ◌≤◌, ◌<◌}
use mathlib.Core.Path.{◌≡◌, refl, ap, ap₂, ◌∙◌}
use mathlib.Core.List.{List, [], ◌∷◌, ◌++◌}
use native.Mathlib.Omega.{arith}
use formation_web_analytics.Base.Lists.{length, take, drop}

module _ {ℓ} {A : Type ℓ} where
  abbrev pub tabulate : ℕ → (ℕ → A) → List A
  tabulate zero f = []
  tabulate (suc n) f = f 0 ∷ tabulate n (λ i. f (suc i))

  pub length-tabulate : (n : ℕ) (f : ℕ → A) → length (tabulate n f) ≡ n
  length-tabulate zero f = refl
  length-tabulate (suc n) f = ap suc (length-tabulate n (λ i. f (suc i)))

  pub tabulate_ext :
      (n : ℕ) (f g : ℕ → A) → ((i : ℕ) → i < n → f i ≡ g i) → tabulate n f ≡ tabulate n g
  tabulate_ext zero f g h = refl
  tabulate_ext (suc n) f g h =
      ap₂ ◌∷◌ (h 0 (omega arith))
        (tabulate_ext n (λ i. f (suc i)) (λ i. g (suc i)) (λ i lt. h (suc i) (omega arith)))

  pub tabulate-suc : (n : ℕ) (f : ℕ → A) → tabulate (suc n) f ≡ tabulate n f ++ f n ∷ []
  tabulate-suc zero f = refl
  tabulate-suc (suc n) f = ap (λ xs. f 0 ∷ xs) (tabulate-suc n (λ i. f (suc i)))

  pub take-tabulate : (m n : ℕ) (f : ℕ → A) → m ≤ n → take m (tabulate n f) ≡ tabulate m f
  take-tabulate zero n f h = refl
  take-tabulate (suc m) zero f h = absurd (omega arith)
  take-tabulate (suc m) (suc n) f h =
      ap (λ xs. f 0 ∷ xs) (take-tabulate m n (λ i. f (suc i)) (omega arith))

  pub tabulate_congr :
      {n m : ℕ} (f g : ℕ → A) → n ≡ m → ((i : ℕ) → i < n → f i ≡ g i) → tabulate n f ≡ tabulate m g
  tabulate_congr {n} f g e h = tabulate_ext n f g h ∙ ap (λ k. tabulate k g) e

  pub drop-tabulate :
      (m n : ℕ) (f : ℕ → A) → m ≤ n → drop m (tabulate n f) ≡ tabulate (n - m) (λ i. f (m + i))
  drop-tabulate zero n f h = tabulate_congr f _ (omega arith) (λ i lt. ap f (omega arith))
  drop-tabulate (suc m) zero f h = absurd (omega arith)
  drop-tabulate (suc m) (suc n) f h =
      drop-tabulate m n (λ i. f (suc i)) (omega arith)
      ∙ tabulate_congr _ _ (omega arith) (λ i lt. ap f (omega arith))
