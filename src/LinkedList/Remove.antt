-- ===== src/LinkedList/Remove.antt =====
-- An element of a ring is taken out, or another one put in its place.
use mathlib.Core.Path.{subst}
use mathlib.Core.List.{cons-ne-nil}
use multiprocessor.LinkedList.Rings.{
  count-ne, Clean, Segment-frame, Segment-join, last-cases, count-append, count-here, Segment-split,
  Apart, Segment, IsRing,
}
use multiprocessor.Common.{
  Bool-cases, ◌++◌, inr, sym, ◌≤◌, ◌==◌, false, ◌∷◌, List, count, ok, ◌≡◌, ℕ, [], inl, refl, arith,
}
use multiprocessor.LinkedList.{Heap, update, remove_elem, replace_elem}
use multiprocessor.LinkedList.Insert.{Apart-nonnull}

-- The links that `remove_elem` and `replace_elem` leave.
abbrev unlinked : (p e c : ℕ) → Heap → Heap
unlinked p e c h = record {
  next = update (update h.next p c) e 0;
  prev = update (update h.prev c p) e 0;
}

abbrev replaced : (p e n c : ℕ) → Heap → Heap
replaced p e n c h = record {
  next = update (update (update h.next n c) p n) e 0;
  prev = update (update (update h.prev n p) c n) e 0;
}

-- An element with others beside it: the next and the last of them, and what lies between.
record Between (h : Heap) (e c : ℕ) (ds : List ℕ) : Type 0 where
  pub p : ℕ
  pub to_next : h.next e ≡ c
  pub to_last : h.prev e ≡ p
  pub there : 1 ≤ count p (c ∷ ds)
  pub close :
      (h' : Heap) (n : ℕ)
      → ((x : ℕ) → 1 ≤ count x (c ∷ ds) → (x == p) ≡ false → h'.next x ≡ h.next x)
      → ((x : ℕ) → 1 ≤ count x ds → h'.prev x ≡ h.prev x)
      → h'.next p ≡ n
      → h'.prev n ≡ p
      → Segment h' c ds n

Between-last :
    (h : Heap) (e c : ℕ) (ys : List ℕ) (z : ℕ)
    → IsRing h e (c ∷ ys ++ z ∷ [])
    → Between h e c (ys ++ z ∷ [])
Between-last h e c ys z ring =
    let (front, back) = Segment-split h e (c ∷ ys) z [] e ring.links in
    record {
      p = z;
      to_next = ring.links.0;
      to_last = back.1;
      there = omega (arith, count-append z ys (z ∷ []), count-here z []);
      close = λ h' n same_next same_prev to back'.
          Segment-join h' c ys z [] n
            (Segment-frame h h' c ys z
              (λ x m.
                same_next x (omega (arith, m, count-append x ys (z ∷ [])))
                  (ground (arith, m, ring.apart.once x, count-append x ys (z ∷ []))))
              (λ x m. same_prev x (omega (arith, m, count-append x ys (z ∷ [])))) front.1.1)
            (to, back');
    }

between : (h : Heap) (e c : ℕ) (ds : List ℕ) → IsRing h e (c ∷ ds) → Between h e c ds
between h e c [] ring = record {
  p = c;
  to_next = ring.links.0;
  to_last = ring.links.1.1.1;
  there = count-here c [];
  close = λ h' n same_next same_prev to back'. (to, back');
}
between h e c (d ∷ ds) ring = elim (last-cases (d ∷ ds)) [
  | inl q ↦ elim (cons-ne-nil d ds q) [ ]
  | inr (ys, z, q) ↦
      subst (Between h e c) (sym q)
        (Between-last h e c ys z (subst (λ l. IsRing h e (c ∷ l)) q ring))
]

remove_elem-eq :
    (list e p c : ℕ) (h : Heap)
    → (e == 0) ≡ false
    → (p == 0) ≡ false
    → (c == 0) ≡ false
    → (e == p) ≡ false
    → h.next e ≡ c
    → h.prev e ≡ p
    → remove_elem list e h ≡ ok (unlinked p e c h)
unfolding remove_elem
remove_elem-eq list e p c h e0 p0 c0 ep to_next to_last =
    rw (e0, to_last, to_next, p0, ep, to_next, to_last, c0) refl

replace_elem-eq :
    (list e n p c : ℕ) (h : Heap)
    → (e == 0) ≡ false
    → (p == 0) ≡ false
    → (c == 0) ≡ false
    → (n == 0) ≡ false
    → (e == n) ≡ false
    → (e == c) ≡ false
    → h.next e ≡ c
    → h.prev e ≡ p
    → replace_elem list e n h ≡ ok (replaced p e n c h)
unfolding replace_elem
replace_elem-eq list e n p c h e0 p0 c0 n0 en ec to_next to_last =
    rw (e0, to_next, n0, to_last, en, to_next, c0, ec, en, to_last, p0) refl

unlinked-Clean :
    (h : Heap) (p e c : ℕ) (xs : List ℕ)
    → 1 ≤ count p xs
    → 1 ≤ count c xs
    → Clean h (e ∷ xs)
    → Clean (unlinked p e c h) xs
unlinked-Clean h p e c xs mp mc clean x absent =
    let xp = count-ne x p xs absent mp in
    let xc = count-ne x c xs absent mc in
    elim (Bool-cases (x == e)) [
      | inl same ↦ (rw same refl, rw same refl)
      | inr other ↦
          let was = clean x (ground (arith, absent, other)) in
          (rw (other, xp) was.0, rw (other, xc) was.1)
    ]

replaced-Clean :
    (h : Heap) (p e n c : ℕ) (xs : List ℕ)
    → 1 ≤ count p xs
    → 1 ≤ count c xs
    → Clean h (e ∷ xs)
    → Clean (replaced p e n c h) (n ∷ xs)
replaced-Clean h p e n c xs mp mc clean x absent =
    let xp = count-ne x p xs (omega (arith, absent)) mp in
    let xc = count-ne x c xs (omega (arith, absent)) mc in
    let xn : (x == n) ≡ false = ground (arith, absent) in
    elim (Bool-cases (x == e)) [
      | inl same ↦ (rw same refl, rw same refl)
      | inr other ↦
          let was = clean x (ground (arith, absent, other)) in
          (rw (other, xp, xn) was.0, rw (other, xc, xn) was.1)
    ]

-- The element that a ring is read from is taken out.
pub remove_elem-IsRing :
    (list e c : ℕ) (h : Heap) (ds : List ℕ)
    → IsRing h e (c ∷ ds)
    → (h' : Heap) × (remove_elem list e h ≡ ok h')
      × IsRing h' c ds
      × (Clean h (e ∷ c ∷ ds) → Clean h' (c ∷ ds))
remove_elem-IsRing list e c h ds ring =
    let b = between h e c ds ring in
    let p = b.p in
    let h' = unlinked p e c h in
    let ep : (e == p) ≡ false = ground (arith, ring.apart.once p, b.there) in
    let ec : (e == c) ≡ false = ground (arith, ring.apart.once c) in
    let e0 = Apart-nonnull e (e ∷ c ∷ ds) ring.apart (count-here e (c ∷ ds)) in
    let c0 = Apart-nonnull c (e ∷ c ∷ ds) ring.apart (ground arith) in
    let p0 = Apart-nonnull p (e ∷ c ∷ ds) ring.apart (omega (arith, b.there)) in
    (
      h',
      remove_elem-eq list e p c h e0 p0 c0 ep b.to_next b.to_last,
      record {
        links =
            b.close h' c (λ x m q. ground (arith, q, ring.apart.once x))
              (λ x m. ground (arith, m, ring.apart.once x)) (ground (arith, ep))
              (ground (arith, ec));
        apart = record {
          once = λ a. omega (arith, ring.apart.once a);
          nonnull = omega (arith, ring.apart.nonnull);
        };
      },
      unlinked-Clean h p e c (c ∷ ds) b.there (count-here c ds),
    )

-- The element that a ring is read from is replaced by one that is not in the ring.
pub replace_elem-IsRing :
    (list e n c : ℕ) (h : Heap) (ds : List ℕ)
    → IsRing h e (c ∷ ds)
    → Apart (n ∷ e ∷ c ∷ ds)
    → (h' : Heap) × (replace_elem list e n h ≡ ok h')
      × IsRing h' n (c ∷ ds)
      × (Clean h (e ∷ c ∷ ds) → Clean h' (n ∷ c ∷ ds))
replace_elem-IsRing list e n c h ds ring fresh =
    let b = between h e c ds ring in
    let p = b.p in
    let h' = replaced p e n c h in
    let ep : (e == p) ≡ false = ground (arith, ring.apart.once p, b.there) in
    let np : (n == p) ≡ false = ground (arith, fresh.once p, b.there) in
    let ec : (e == c) ≡ false = ground (arith, ring.apart.once c) in
    let en : (e == n) ≡ false = ground (arith, fresh.once n) in
    let nc : (n == c) ≡ false = ground (arith, fresh.once n) in
    let e0 = Apart-nonnull e (e ∷ c ∷ ds) ring.apart (count-here e (c ∷ ds)) in
    let c0 = Apart-nonnull c (e ∷ c ∷ ds) ring.apart (ground arith) in
    let p0 = Apart-nonnull p (e ∷ c ∷ ds) ring.apart (omega (arith, b.there)) in
    let n0 = Apart-nonnull n (n ∷ e ∷ c ∷ ds) fresh (count-here n (e ∷ c ∷ ds)) in
    (
      h',
      replace_elem-eq list e n p c h e0 p0 c0 n0 en ec b.to_next b.to_last,
      record {
        links = (
          ground (arith, en, np),
          (
            ground (arith, ec),
            b.close h' n (λ x m q. ground (arith, m, q, fresh.once x))
                (λ x m. ground (arith, m, fresh.once x)) (ground (arith, ep))
                (ground (arith, en, nc)),
          ),
        );
        apart = record {
          once = λ a. omega (arith, fresh.once a);
          nonnull = omega (arith, fresh.nonnull);
        };
      },
      replaced-Clean h p e n c (c ∷ ds) b.there (count-here c ds),
    )
