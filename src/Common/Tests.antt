-- ===== src/Common/Tests.antt =====
-- Boolean tests on the native numbers, the conditional, and the outcome of a blocking call.
use Prim.Native.Nat.{ℕ, ◌<◌, compare, Ordering}
use mathlib.Core.Path.{◌≡◌, refl}
use mathlib.Core.Logic.{◌↔◌, ◌⊎◌, inl, inr}
use mathlib.Core.Bool.{Bool, true, false, not, ◌||◌}
use native.Mathlib.Omega.{arith}

abbrev pub ltb : ℕ → ℕ → Bool
ltb a b = elim (compare a b) [ Ordering.lt ↦ true | _ ↦ false ]

abbrev pub leb : ℕ → ℕ → Bool
leb a b = elim (compare a b) [ Ordering.gt ↦ false | _ ↦ true ]

infix 50 ◌==◌
abbrev pub ◌==◌ : ℕ → ℕ → Bool
a == b = elim (compare a b) [ Ordering.eq ↦ true | _ ↦ false ]

infix 1 if◌then◌else◌
abbrev pub if◌then◌else◌ {ℓ} : {A : Type ℓ} → Bool → A → A → A
if true then x else y = x
if false then x else y = y

pub ltb→lt : (a b : ℕ) → ltb a b ≡ true → a < b
ltb→lt a b h = ground arith

pub lt→ltb : (a b : ℕ) → a < b → ltb a b ≡ true
lt→ltb a b h = ground arith

pub ==_iff : (a b : ℕ) → ((a == b) ≡ true) ↔ (a ≡ b)
==_iff a b = ground arith

pub Bool-cases : (b : Bool) → (b ≡ true) ⊎ (b ≡ false)
Bool-cases true = inl refl
Bool-cases false = inr refl

pub if_true {ℓ} : {A : Type ℓ} (b : Bool) (x y : A) → b ≡ true → (if b then x else y) ≡ x
if_true b x y e = rw e refl

pub if_false {ℓ} : {A : Type ℓ} (b : Bool) (x y : A) → b ≡ false → (if b then x else y) ≡ y
if_false b x y e = rw e refl

pub or_false : (a b : Bool) → a ≡ false → b ≡ false → (a || not (not b)) ≡ false
or_false a b no_a no_b = rw (no_a, no_b) refl

pub or_right : (a b : Bool) → b ≡ true → (a || not (not b)) ≡ true
or_right true b is_b = refl
or_right false b is_b = rw is_b refl

pub or_left : (a b : Bool) → a ≡ true → (a || b) ≡ true
or_left a b is_a = rw is_a refl

-- How a call ends: it returns, it waits for ever on a semaphore, or it does what C leaves
-- undefined (an access outside an array, a signed overflow, a read through `NULL`).
pub data Run {ℓ} (A : Type ℓ) : Type ℓ where
  ok : A → Run A
  blocked : Run A
  fault : Run A

-- `abbrev`, so that a chain computes wherever it stands.
infixl 5 ◌>>=◌ ◌>>◌
abbrev pub ◌>>=◌ {ℓ κ} : {A : Type ℓ} {B : Type κ} → Run A → (A → Run B) → Run B
ok a >>= f = f a
blocked >>= f = blocked
fault >>= f = fault

abbrev pub ◌>>◌ {ℓ} : {B : Type ℓ} → Run (Unit {0}) → Run B → Run B
m >> k = m >>= λ _. k

pub Run-cases {ℓ} : {A : Type ℓ} (r : Run A) → (r ≡ blocked) ⊎ (r ≡ fault) ⊎ ((a : A) × (r ≡ ok a))
Run-cases (ok a) = inr (inr (a, refl))
Run-cases blocked = inl refl
Run-cases fault = inr (inl refl)
