-- ===== src/LinkedList/Insert.antt =====
-- A new element next to the one that a ring is read from.
use mathlib.Core.List.{cons-ne-nil, append_assoc}
use mathlib.Core.Path.{subst}
use multiprocessor.Common.{
  ◌++◌, refl, ok, sym, ◌∙◌, false, ◌==◌, inl, count, Bool-cases, arith, ℕ, ◌≤◌, [], ◌≡◌, List, inr,
  ◌∷◌,
}
use multiprocessor.LinkedList.{Heap, update, insert_after, insert_before}
use multiprocessor.LinkedList.Rings.{
  count-ne, Clean, count-append, IsRing-rotate, last-cases, Segment-frame, Apart-same, update_self,
  count-here, IsRing, Apart,
}

-- An element that is in no list.
pub record Fresh (h : Heap) (n : ℕ) (xs : List ℕ) : Type 0 where
  pub apart : Apart (n ∷ xs)
  pub no_next : h.next n ≡ 0
  pub no_prev : h.prev n ≡ 0

-- The links that `insert_after` and `insert_before` set.
abbrev pub linked : (a n b : ℕ) → Heap → Heap
linked a n b h = record {
  next = update (update h.next n b) a n;
  prev = update (update h.prev n a) b n;
}

pub nonnull_lem : (a : ℕ) (xs : List ℕ) → count 0 xs ≡ 0 → 1 ≤ count a xs → (a == 0) ≡ false
nonnull_lem a xs nonnull m = elim (Bool-cases (a == 0)) [
  | inl zero_a ↦ let e : a ≡ 0 = ground arith in absurd (omega (arith, nonnull, rw e at m))
  | inr other ↦ other
]

-- The next element.
pub next-count : (h : Heap) (a : ℕ) (xs : List ℕ) → IsRing h a xs → 1 ≤ count (h.next a) (a ∷ xs)
next-count h a [] ring = rw ring.links.0 (count-here a [])
next-count h a (x ∷ xs) ring = rw ring.links.0 (ground arith)

pub linked-IsRing :
    (h : Heap) (a n b : ℕ) (xs : List ℕ)
    → IsRing h a xs
    → Apart (n ∷ a ∷ xs)
    → h.next a ≡ b
    → IsRing (linked a n b h) a (n ∷ xs)
linked-IsRing h a n b [] ring apart e =
    let na : (n == a) ≡ false = ground (arith, apart.once n) in
    let ba : b ≡ a = sym e ∙ ring.links.0 in
    let self_n : update (update h.next n b) a n a ≡ n = update_self (update h.next n b) a n in
    record {
      links = (self_n, (ground (arith, na, ba), (ground (arith, na, ba), ground (arith, ba))));
      apart = Apart-same (n ∷ a ∷ []) (a ∷ n ∷ []) (λ c. omega arith) apart;
    }
linked-IsRing h a n b (x ∷ xs) ring apart e =
    let na : (n == a) ≡ false = ground (arith, apart.once n) in
    let nx : (n == x) ≡ false = ground (arith, apart.once n) in
    let bx : b ≡ x = sym e ∙ ring.links.0 in
    record {
      links = (
        ground (arith, na, bx),
        (
          ground (arith, nx, bx),
          (
            ground (arith, na, bx),
            (
              ground (arith, nx, bx),
              Segment-frame h (linked a n b h) x xs a (λ y m. ground (arith, apart.once y))
                  (λ y m. ground (arith, apart.once y, bx)) ring.links.1.1,
            ),
          ),
        ),
      );
      apart = Apart-same (n ∷ a ∷ x ∷ xs) (a ∷ n ∷ x ∷ xs) (λ c. omega arith) apart;
    }

linked-Clean :
    (h : Heap) (a n b : ℕ) (xs : List ℕ)
    → 1 ≤ count a xs
    → 1 ≤ count b xs
    → Clean h xs
    → Clean (linked a n b h) (n ∷ xs)
linked-Clean h a n b xs ma mb clean x absent =
    let was = clean x (omega (arith, absent)) in
    let xa = count-ne x a xs (omega (arith, absent)) ma in
    let xb = count-ne x b xs (omega (arith, absent)) mb in
    let xn : (x == n) ≡ false = ground (arith, absent) in (rw (xa, xn) was.0, rw (xb, xn) was.1)

pub Apart-nonnull : (a : ℕ) (xs : List ℕ) → Apart xs → 1 ≤ count a xs → (a == 0) ≡ false
Apart-nonnull a xs apart m = nonnull_lem a xs apart.nonnull m

insert_after-eq :
    (list h_next a n : ℕ) (h : Heap) (xs : List ℕ)
    → IsRing h a xs
    → Fresh h n (a ∷ xs)
    → h.next a ≡ h_next
    → insert_after list a n h ≡ ok (linked a n h_next h)
unfolding insert_after
insert_after-eq list b a n h xs ring fresh e =
    let a0 : (a == 0) ≡ false = Apart-nonnull a (a ∷ xs) ring.apart (count-here a xs) in
    let n0 : (n == 0) ≡ false = Apart-nonnull n (n ∷ a ∷ xs) fresh.apart (count-here n (a ∷ xs)) in
    let b0 : (b == 0) ≡ false =
      Apart-nonnull b (a ∷ xs) ring.apart
        (subst (λ c. 1 ≤ count c (a ∷ xs)) e (next-count h a xs ring)) in
    let an : (a == n) ≡ false = ground (arith, fresh.apart.once n) in
    rw (a0, n0, fresh.no_next, fresh.no_prev, e, an, b0) refl

-- The element before the one that a ring is read from, and the ring read from there.
pub record Before (h : Heap) (a : ℕ) (xs : List ℕ) : Type 0 where
  pub p : ℕ
  pub ys : List ℕ
  pub back : h.prev a ≡ p
  pub forth : h.next p ≡ a
  pub ring : IsRing h p ys
  pub same : (c : ℕ) → count c (p ∷ ys) ≡ count c (a ∷ xs)
  pub again : (h' : Heap) (n : ℕ) → IsRing h' p (n ∷ ys) → IsRing h' a (xs ++ n ∷ [])

Before-last :
    (h : Heap) (a : ℕ) (ys : List ℕ) (z : ℕ) → IsRing h a (ys ++ z ∷ []) → Before h a (ys ++ z ∷ [])
Before-last h a ys z ring =
    let turned = IsRing-rotate h a ys z [] ring in
    record {
      p = z;
      ys = a ∷ ys;
      back = turned.links.1.0;
      forth = turned.links.0;
      ring = turned;
      same = λ c. omega (arith, count-append c ys (z ∷ []));
      again = λ h' n r. rw (append_assoc ys (z ∷ []) (n ∷ [])) (IsRing-rotate h' z (n ∷ []) a ys r);
    }

pub before : (h : Heap) (a : ℕ) (xs : List ℕ) → IsRing h a xs → Before h a xs
before h a [] ring = record {
  p = a;
  ys = [];
  back = ring.links.1;
  forth = ring.links.0;
  ring = ring;
  same = λ c. refl;
  again = λ h' n r. r;
}
before h a (x ∷ xs) ring = elim (last-cases (x ∷ xs)) [
  | inl e ↦ elim (cons-ne-nil x xs e) [ ]
  | inr (ys, z, e) ↦ subst (Before h a) (sym e) (Before-last h a ys z (subst (IsRing h a) e ring))
]

insert_before-eq :
    (list a n p : ℕ) (h : Heap) (xs : List ℕ)
    → IsRing h a xs
    → Fresh h n (a ∷ xs)
    → h.prev a ≡ p
    → (p == 0) ≡ false
    → insert_before list a n h ≡ ok (linked p n a h)
unfolding insert_before
insert_before-eq list a n p h xs ring fresh e p0 =
    let a0 : (a == 0) ≡ false = Apart-nonnull a (a ∷ xs) ring.apart (count-here a xs) in
    let n0 : (n == 0) ≡ false = Apart-nonnull n (n ∷ a ∷ xs) fresh.apart (count-here n (a ∷ xs)) in
    let an : (a == n) ≡ false = ground (arith, fresh.apart.once n) in
    rw (a0, n0, fresh.no_next, fresh.no_prev, e, an, p0) refl

-- A new element behind the one that a ring is read from.
pub insert_after-IsRing :
    (list a n : ℕ) (h : Heap) (xs : List ℕ)
    → IsRing h a xs
    → Fresh h n (a ∷ xs)
    → (h' : Heap) × (insert_after list a n h ≡ ok h')
      × IsRing h' a (n ∷ xs)
      × (Clean h (a ∷ xs) → Clean h' (n ∷ a ∷ xs))
insert_after-IsRing list a n h xs ring fresh = (
  linked a n (h.next a) h,
  insert_after-eq list (h.next a) a n h xs ring fresh refl,
  linked-IsRing h a n (h.next a) xs ring fresh.apart refl,
  linked-Clean h a n (h.next a) (a ∷ xs) (count-here a xs) (next-count h a xs ring),
)

-- A new element before it, which is the last one of the ring.
pub insert_before-IsRing :
    (list a n : ℕ) (h : Heap) (xs : List ℕ)
    → IsRing h a xs
    → Fresh h n (a ∷ xs)
    → (h' : Heap) × (insert_before list a n h ≡ ok h')
      × IsRing h' a (xs ++ n ∷ [])
      × (Clean h (a ∷ xs) → Clean h' (n ∷ a ∷ xs))
insert_before-IsRing list a n h xs ring fresh =
    let b = before h a xs ring in
    let p0 = Apart-nonnull b.p (b.p ∷ b.ys) b.ring.apart (count-here b.p b.ys) in
    let apart =
      Apart-same (n ∷ a ∷ xs) (n ∷ b.p ∷ b.ys) (λ c. omega (arith, b.same c)) fresh.apart in
    (
      linked b.p n a h,
      insert_before-eq list a n b.p h xs ring fresh b.back p0,
      b.again _ n (linked-IsRing h b.p n a b.ys b.ring apart b.forth),
      linked-Clean h b.p n a (a ∷ xs) (omega (arith, b.same b.p, count-here b.p b.ys))
          (count-here a xs),
    )
