-- ===== src/LinkedList/Refinement.antt =====
-- The lists of misc/include/misc/list.h implement sequences.
use mathlib.Core.Path.{subst}
use mathlib.Core.Option.{none-ne-some}
use multiprocessor.LinkedList.Rings.{count-here, update_self, Clean}
use multiprocessor.Common.{
  ◌>>=◌, length, ok, Option-cases, some-injective, ◌∙◌, refl, List, Option, arith, false, ◌≡◌, true,
  ap, if◌then◌else◌, Run, inr, inl, none, [], ℕ, ◌∷◌, Bool, ◌==◌, some, sym,
}
use multiprocessor.LinkedList
use multiprocessor.LinkedList.{first_elem, update, Heap, init, is_empty}
use multiprocessor.LinkedList.Insert.{Apart-nonnull}
use multiprocessor.LinkedList.Sequence.{
  Holds, Kept, is_new, Change, front, back, after, before, replace, remove, perform, apply,
}
use multiprocessor.LinkedList.Steps.{
  tail_at-Split, after_lem, before_lem, replace_lem, remove_lem, front_lem, back_lem,
}

if-some :
    {A : Type 0} (b : Bool) (o : Option A) (a : A)
    → (if b then o else none) ≡ some a
    → (b ≡ true) × (o ≡ some a)
if-some true o a q = (refl, q)
if-some false o a q = absurd (none-ne-some a q)

-- One operation.
pub perform-Kept :
    (h : Heap) (list : ℕ) (c : Change) (xs ys : List ℕ)
    → Holds h list xs
    → apply list c xs ≡ some ys
    → Kept (perform list c h) list ys
perform-Kept h list (front n) xs ys holds q =
    let (new, q') = if-some (is_new list n xs) _ ys q in
    subst (Kept (LinkedList.add_front list n h) list) (some-injective q')
      (front_lem h list n xs holds new)
perform-Kept h list (back n) xs ys holds q =
    let (new, q') = if-some (is_new list n xs) _ ys q in
    subst (Kept (LinkedList.add_back list n h) list) (some-injective q')
      (back_lem h list n xs holds new)
perform-Kept h list (after e n) xs ys holds q =
    let (new, q') = if-some (is_new list n xs) _ ys q in
    let s = tail_at-Split e (λ tail. e ∷ n ∷ tail) xs ys q' in
    subst (Kept (LinkedList.insert_after list e n h) list) (sym s.new) (
      after_lem h list e n s.l s.r (subst (Holds h list) s.old holds)
        (subst (λ t. is_new list n t ≡ true) s.old new))
perform-Kept h list (before e n) xs ys holds q =
    let (new, q') = if-some (is_new list n xs) _ ys q in
    let s = tail_at-Split e (λ tail. n ∷ e ∷ tail) xs ys q' in
    subst (Kept (LinkedList.insert_before list e n h) list) (sym s.new) (
      before_lem h list e n s.l s.r (subst (Holds h list) s.old holds)
        (subst (λ t. is_new list n t ≡ true) s.old new))
perform-Kept h list (replace e n) xs ys holds q =
    let (new, q') = if-some (is_new list n xs) _ ys q in
    let s = tail_at-Split e (λ tail. n ∷ tail) xs ys q' in
    subst (Kept (LinkedList.replace_elem list e n h) list) (sym s.new) (
      replace_lem h list e n s.l s.r (subst (Holds h list) s.old holds)
        (subst (λ t. is_new list n t ≡ true) s.old new))
perform-Kept h list (remove e) xs ys holds q =
    let s = tail_at-Split e (λ tail. tail) xs ys q in
    subst (Kept (LinkedList.remove_elem list e h) list) (sym s.new)
      (remove_lem h list e s.l s.r (subst (Holds h list) s.old holds))

abbrev pub perform_all : (list : ℕ) → List Change → Heap → Run Heap
perform_all list [] h = ok h
perform_all list (c ∷ cs) h = perform list c h >>= perform_all list cs

abbrev pub apply_all : (list : ℕ) → List Change → List ℕ → Option (List ℕ)
apply_all list [] xs = some xs
apply_all list (c ∷ cs) xs = elim (apply list c xs) [ none ↦ none | some ys ↦ apply_all list cs ys ]

perform_all-Kept :
    (h : Heap) (list : ℕ) (cs : List Change) (xs ys : List ℕ)
    → Holds h list xs
    → apply_all list cs xs ≡ some ys
    → Kept (perform_all list cs h) list ys
perform_all-Kept h list [] xs ys holds q = record {
  heap = h;
  ran = refl;
  holds = subst (Holds h list) (some-injective q) holds;
}
perform_all-Kept h list (c ∷ cs) xs ys holds q = elim (Option-cases (apply list c xs)) [
  | inl missing ↦ absurd (none-ne-some ys (sym (rw (apply_all, missing) refl) ∙ q))
  | inr (zs, found) ↦
      let k = perform-Kept h list c xs zs holds found in
      let l =
        perform_all-Kept k.heap list cs zs ys k.holds (sym (rw (apply_all, found) refl) ∙ q) in
      record {
        heap = l.heap;
        ran = ap (λ r. r >>= perform_all list cs) k.ran ∙ l.ran;
        holds = l.holds;
      }
]

pub init-Holds :
    (h : Heap) (list : ℕ) → (list == 0) ≡ false → Clean h (list ∷ []) → Kept (init list h) list []
unfolding init
init-Holds h list nonnull clean = record {
  heap = record { next = update h.next list list; prev = update h.prev list list };
  ran = rw (nonnull, nonnull) refl;
  holds = record {
    ring = record {
      links = (update_self h.next list list, update_self h.prev list list);
      apart = record { once = λ a. ground arith; nonnull = ground (arith, nonnull) };
    };
    clean = λ x absent.
        let other : (x == list) ≡ false = ground (arith, absent) in
        (rw other (clean x absent).0, rw other (clean x absent).1);
  };
}

-- Let nothing but the list's own links be set before `list_init`, and let every operation that
-- follows be one that the sequence allows: a new element is not `NULL`, not the list and not in it,
-- and the element beside it or taken out is in it. Then no operation traps or follows a `NULL`, and
-- the links hold the sequence that the operations make on sequences: in both directions it is
-- what lies between the list and itself, and all other elements have no links.
pub perform_all-refines :
    (h : Heap) (list : ℕ) (cs : List Change) (ys : List ℕ)
    → (list == 0) ≡ false
    → Clean h (list ∷ [])
    → apply_all list cs [] ≡ some ys
    → (h' : Heap) × ((init list h >>= perform_all list cs) ≡ ok h') × Holds h' list ys
perform_all-refines h list cs ys nonnull clean q =
    let k = init-Holds h list nonnull clean in
    let l = perform_all-Kept k.heap list cs [] ys k.holds q in
    (l.heap, ap (λ r. r >>= perform_all list cs) k.ran ∙ l.ran, l.holds)

-- `list_is_empty` says whether the sequence is empty.
pub is_empty-Holds :
    (h : Heap) (list : ℕ) (xs : List ℕ) → Holds h list xs → is_empty list h ≡ ok (length xs == 0)
unfolding is_empty
is_empty-Holds h list [] holds =
    let n0 = Apart-nonnull list (list ∷ []) holds.ring.apart (count-here list []) in
    let same : (list == list) ≡ true = ground arith in rw (n0, holds.ring.links.0, same) refl
is_empty-Holds h list (x ∷ xs) holds =
    let n0 = Apart-nonnull list (list ∷ x ∷ xs) holds.ring.apart (count-here list (x ∷ xs)) in
    let other : (list == x) ≡ false = ground (arith, holds.ring.apart.once list) in
    let some_left : (length (x ∷ xs) == 0) ≡ false = ground arith in
    rw (n0, holds.ring.links.0, other, some_left) refl

-- `list_first_elem` gives the first element of the sequence.
pub first_elem-Holds :
    (h : Heap) (list x : ℕ) (xs : List ℕ) → Holds h list (x ∷ xs) → first_elem list h ≡ ok x
unfolding first_elem
first_elem-Holds h list x xs holds =
    let n0 = Apart-nonnull list (list ∷ x ∷ xs) holds.ring.apart (count-here list (x ∷ xs)) in
    rw (n0, holds.ring.links.0) refl
