-- ===== src/LinkedList/Rings.antt =====
-- The ring that the links of a list make: its first element, the others in their order, and back.
use mathlib.Core.Path.{subst}
use multiprocessor.Common.{
  sym, Bool-cases, inr, ap, ◌≤◌, refl, count, List, ◌==◌, arith, ◌∙◌, inl, ◌+◌, weigh-append, ◌≡◌,
  ◌++◌, [], false, indicator, ◌∷◌, ℕ, ◌⊎◌,
}
use multiprocessor.LinkedList.{Heap, update}

-- From one element through others to a last one, with the links back.
abbrev pub Segment : Heap → ℕ → List ℕ → ℕ → Type 0
Segment h a [] b = (h.next a ≡ b) × (h.prev b ≡ a)
Segment h a (x ∷ xs) b = (h.next a ≡ x) × ((h.prev x ≡ a) × Segment h x xs b)

-- No address twice and no `NULL`.
pub record Apart (xs : List ℕ) : Type 0 where
  pub once : (a : ℕ) → count a xs ≤ 1
  pub nonnull : count 0 xs ≡ 0

pub record IsRing (h : Heap) (a : ℕ) (xs : List ℕ) : Type 0 where
  pub links : Segment h a xs a
  pub apart : Apart (a ∷ xs)

pub count-here : (a : ℕ) (xs : List ℕ) → 1 ≤ count a (a ∷ xs)
count-here a xs = ground arith

pub Segment-frame :
    (h h' : Heap) (a : ℕ) (xs : List ℕ) (b : ℕ)
    → ((x : ℕ) → 1 ≤ count x (a ∷ xs) → h'.next x ≡ h.next x)
    → ((x : ℕ) → 1 ≤ count x (b ∷ xs) → h'.prev x ≡ h.prev x)
    → Segment h a xs b
    → Segment h' a xs b
Segment-frame h h' a [] b same_next same_prev s =
    (same_next a (count-here a []) ∙ s.0, same_prev b (count-here b []) ∙ s.1)
Segment-frame h h' a (x ∷ xs) b same_next same_prev s = (
  same_next a (count-here a (x ∷ xs)) ∙ s.0,
  (
    same_prev x (ground arith) ∙ s.1.0,
    Segment-frame h h' x xs b (λ y m. same_next y (omega (arith, m)))
        (λ y m. same_prev y (omega (arith, m))) s.1.1,
  ),
)

pub Segment-split :
    (h : Heap) (a : ℕ) (xs : List ℕ) (x : ℕ) (ys : List ℕ) (b : ℕ)
    → Segment h a (xs ++ x ∷ ys) b
    → Segment h a xs x × Segment h x ys b
Segment-split h a [] x ys b s = ((s.0, s.1.0), s.1.1)
Segment-split h a (y ∷ xs) x ys b s =
    let (front, back) = Segment-split h y xs x ys b s.1.1 in ((s.0, (s.1.0, front)), back)

pub Segment-join :
    (h : Heap) (a : ℕ) (xs : List ℕ) (x : ℕ) (ys : List ℕ) (b : ℕ)
    → Segment h a xs x
    → Segment h x ys b
    → Segment h a (xs ++ x ∷ ys) b
Segment-join h a [] x ys b front back = (front.0, (front.1, back))
Segment-join h a (y ∷ xs) x ys b front back =
    (front.0, (front.1.0, Segment-join h y xs x ys b front.1.1 back))

pub count-append : (a : ℕ) (xs ys : List ℕ) → count a (xs ++ ys) ≡ count a xs + count a ys
count-append a xs ys = weigh-append (indicator a) xs ys

-- A list with as many of every address.
pub Apart-same : (xs ys : List ℕ) → ((a : ℕ) → count a ys ≡ count a xs) → Apart xs → Apart ys
Apart-same xs ys same apart = record {
  once = λ a. omega (arith, same a, apart.once a);
  nonnull = same 0 ∙ apart.nonnull;
}

-- A ring may be read from any of its elements on.
pub IsRing-rotate :
    (h : Heap) (a : ℕ) (xs : List ℕ) (x : ℕ) (ys : List ℕ)
    → IsRing h a (xs ++ x ∷ ys)
    → IsRing h x (ys ++ a ∷ xs)
IsRing-rotate h a xs x ys ring =
    let (front, back) = Segment-split h a xs x ys a ring.links in
    record {
      links = Segment-join h x ys a xs x back front;
      apart =
          Apart-same (a ∷ xs ++ x ∷ ys) (x ∷ ys ++ a ∷ xs)
            (λ c. omega (arith, count-append c xs (x ∷ ys), count-append c ys (a ∷ xs))) ring.apart;
    }

pub count-other : (a b : ℕ) (xs : List ℕ) → Apart (a ∷ xs) → 1 ≤ count b xs → (b == a) ≡ false
count-other a b xs apart m = ground (arith, apart.once b)

pub last-cases : (xs : List ℕ) → (xs ≡ []) ⊎ ((ys : List ℕ) × (z : ℕ) × (xs ≡ ys ++ z ∷ []))
last-cases [] = inl refl
last-cases (x ∷ xs) = elim (last-cases xs) [
  | inl e ↦ inr ([], x, ap (λ t. x ∷ t) e)
  | inr (ys, z, e) ↦ inr (x ∷ ys, z, ap (λ t. x ∷ t) e)
]

pub update_self : (f : ℕ → ℕ) (a v : ℕ) → update f a v a ≡ v
update_self f a v = ground arith

pub update_ne : (f : ℕ → ℕ) (a v x : ℕ) → (x == a) ≡ false → update f a v x ≡ f x
update_ne f a v x e = ground arith

-- All but these elements have no links.
abbrev pub Clean : Heap → List ℕ → Type 0
Clean h xs = (x : ℕ) → count x xs ≡ 0 → (h.next x ≡ 0) × (h.prev x ≡ 0)

pub count-ne : (x b : ℕ) (xs : List ℕ) → count x xs ≡ 0 → 1 ≤ count b xs → (x == b) ≡ false
count-ne x b xs absent there = elim (Bool-cases (x == b)) [
  | inl same ↦
      let e : x ≡ b = ground arith in
      absurd (omega (arith, absent, subst (λ c. 1 ≤ count c xs) (sym e) there))
  | inr other ↦ other
]
