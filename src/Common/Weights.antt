-- ===== src/Common/Weights.antt =====
-- The weight of a list: the sum of what a function gives each item. At the constant 1 it is the
-- length, at `indicator a` the number of times that `a` occurs.
use Prim.Native.Nat.{ℕ, ◌+◌}
use mathlib.Core.Path.{◌≡◌, refl}
use mathlib.Core.List.{List, [], ◌∷◌, ◌++◌}
use native.Mathlib.Omega.{arith}
use multiprocessor.Common.Tests.{◌==◌, if◌then◌else◌}
use multiprocessor.Common.Lists.{length}

abbrev pub weigh {ℓ} : {A : Type ℓ} → (A → ℕ) → List A → ℕ
weigh w [] = 0
weigh w (x ∷ xs) = w x + weigh w xs

abbrev pub indicator : ℕ → ℕ → ℕ
indicator a b = if a == b then 1 else 0

abbrev pub count : ℕ → List ℕ → ℕ
count a = weigh (indicator a)

module _ {ℓ} {A : Type ℓ} where
  pub weigh-append : (w : A → ℕ) (xs ys : List A) → weigh w (xs ++ ys) ≡ weigh w xs + weigh w ys
  weigh-append w [] ys = omega arith
  weigh-append w (x ∷ xs) ys = omega (arith, weigh-append w xs ys)

  pub weigh-one : (xs : List A) → weigh (λ _. 1) xs ≡ length xs
  weigh-one [] = refl
  weigh-one (x ∷ xs) = omega (arith, weigh-one xs)
