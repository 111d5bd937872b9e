-- ===== src/Collections/Search.antt =====
-- Looking for a struct in a counted list.
use multiprocessor.LinkedList.Rings.{count-here, Segment}
use multiprocessor.LinkedList.Insert.{Apart-nonnull}
use multiprocessor.Common.{
  none, ◌==◌, if◌then◌else◌, length, [], ℕ, ◌≡◌, inr, ◌∷◌, Option, refl, some, true, Bool-cases,
  suc, count, inl, Bool, ok, arith, ◌<◌, false, List, zero,
}
use multiprocessor.Collections.{Collection, search, get}
use multiprocessor.Collections.Laws.{IsValid}
use multiprocessor.LinkedList

module _ {ℓ} {A : Type ℓ} where
  -- The first address whose struct passes a test.
  abbrev pub first : (A → Bool) → (ℕ → A) → List ℕ → Option ℕ
  first test entry [] = none
  first test entry (x ∷ xs) =
      let rest = first test entry xs in if test (entry x) then some x else rest

  search-first :
      (test : A → Bool) (fuel : ℕ) (c : Collection A) (a : ℕ) (xs : List ℕ)
      → Segment c.heap a xs c.list
      → count c.list xs ≡ 0
      → count 0 xs ≡ 0
      → length xs < fuel
      → search test fuel (c.heap.next a) c ≡ ok (first test c.entry xs)
  unfolding search
  search-first test zero c a xs s apart nonnull enough = absurd (omega (arith, enough))
  search-first test (suc fuel) c a [] s apart nonnull enough =
      let same : (c.list == c.list) ≡ true = ground arith in rw (s.0, same) refl
  search-first test (suc fuel) c a (x ∷ xs) s apart nonnull enough =
      let x0 : (x == 0) ≡ false = ground (arith, nonnull) in
      let other : (x == c.list) ≡ false = ground (arith, apart) in
      let later =
        search-first test fuel c x xs s.1.1 (omega (arith, apart)) (omega (arith, nonnull))
          (omega (arith, enough)) in
      rw (s.0, other, x0, later)
        (elim (Bool-cases (test (c.entry x))) [
          | inl passes ↦ rw passes refl
          | inr fails ↦ rw fails refl
        ])

  -- With more rounds than there are structs, the search finds the first struct of the list that
  -- passes the test, and `none` if there is none.
  pub get-first :
      (test : A → Bool) (fuel : ℕ) (c : Collection A) (xs : List ℕ)
      → IsValid c xs
      → length xs < fuel
      → get test fuel c ≡ ok (first test c.entry xs)
  unfolding get LinkedList.first_elem
  get-first test fuel c xs valid enough =
      let ring = valid.holds.ring in
      let n0 = Apart-nonnull c.list (c.list ∷ xs) ring.apart (count-here c.list xs) in
      let found =
        search-first test fuel c c.list xs ring.links (ground (arith, ring.apart.once c.list))
          (omega (arith, ring.apart.nonnull)) enough in
      rw n0 found
