-- ===== src/LinkedList/Steps.antt =====
-- Each operation of misc/include/misc/list.h on a list that holds a sequence.
use mathlib.Core.Path.{subst}
use mathlib.Core.List.{append-nil, append_assoc}
use mathlib.Core.Option.{none-ne-some}
use multiprocessor.LinkedList.Rings.{Apart, count-append, IsRing-rotate, Clean, IsRing}
use multiprocessor.Common.{
  Option-cases, some-injective, ◌∙◌, refl, List, arith, false, ◌≡◌, true, count, ap, ◌++◌, inr, inl,
  Bool-cases, [], ℕ, ◌∷◌, ◌==◌, some, sym,
}
use multiprocessor.LinkedList
use multiprocessor.LinkedList.{Heap, init, is_empty}
use multiprocessor.LinkedList.Insert.{Fresh, insert_after-IsRing, insert_before-IsRing}
use multiprocessor.LinkedList.Remove.{remove_elem-IsRing, replace_elem-IsRing}
use multiprocessor.LinkedList.Sequence.{Holds, Kept, is_new, tail_at}

pub record Split (e : ℕ) (f : List ℕ → List ℕ) (xs ys : List ℕ) : Type 0 where
  pub l : List ℕ
  pub r : List ℕ
  pub old : xs ≡ l ++ e ∷ r
  pub new : ys ≡ l ++ f r

pub tail_at-Split :
    (e : ℕ) (f : List ℕ → List ℕ) (xs ys : List ℕ) → tail_at e f xs ≡ some ys → Split e f xs ys
tail_at-Split e f [] ys q = absurd (none-ne-some ys q)
tail_at-Split e f (x ∷ xs) ys q = elim (Bool-cases (x == e)) [
  | inl here ↦
      let xe : x ≡ e = ground arith in
      record { l = []; r = xs; old = rw xe refl; new = some-injective (sym q ∙ rw here refl) }
  | inr other ↦ elim (Option-cases (tail_at e f xs)) [
    | inl missing ↦ absurd (none-ne-some ys (sym (rw (other, missing) refl) ∙ q))
    | inr (zs, found) ↦
        let s = tail_at-Split e f xs zs found in
        record {
          l = x ∷ s.l;
          r = s.r;
          old = ap (λ t. x ∷ t) s.old;
          new = some-injective (sym q ∙ rw (other, found) refl) ∙ ap (λ t. x ∷ t) s.new;
        }
  ]
]

-- A list that holds a sequence, read from one of its elements.
turn :
    (h : Heap) (list e : ℕ) (l r : List ℕ) → Holds h list (l ++ e ∷ r) → IsRing h e (r ++ list ∷ l)
turn h list e l r holds = IsRing-rotate h list l e r holds.ring

Clean-same :
    (h : Heap) (xs ys : List ℕ) → ((a : ℕ) → count a xs ≡ count a ys) → Clean h xs → Clean h ys
Clean-same h xs ys same clean x absent = clean x (same x ∙ absent)

new-Fresh :
    (h : Heap) (list n : ℕ) (xs ys : List ℕ)
    → Holds h list xs
    → is_new list n xs ≡ true
    → ((a : ℕ) → count a ys ≡ count a (list ∷ xs))
    → Fresh h n ys
new-Fresh h list n xs ys holds new same =
    let absent : count n (list ∷ xs) ≡ 0 = ground (arith, new) in
    let nonnull : (n == 0) ≡ false = ground (arith, new) in
    let unlinked = holds.clean n absent in
    record {
      apart = record {
        once = λ a. elim (Bool-cases (a == n)) [
          | inl here ↦
              let an : a ≡ n = ground arith in
              let gone : count a ys ≡ 0 = rw an (same n ∙ absent) in ground (arith, gone)
          | inr other ↦ ground (arith, other, same a, holds.ring.apart.once a)
        ];
        nonnull = ground (arith, nonnull, same 0, holds.ring.apart.nonnull);
      };
      no_next = unlinked.0;
      no_prev = unlinked.1;
    }

turn-count :
    (list e : ℕ) (l r : List ℕ) (a : ℕ) → count a (e ∷ r ++ list ∷ l) ≡ count a (list ∷ l ++ e ∷ r)
turn-count list e l r a = omega (arith, count-append a l (e ∷ r), count-append a r (list ∷ l))

turn-Clean :
    (h : Heap) (list e : ℕ) (l r : List ℕ) → Holds h list (l ++ e ∷ r) → Clean h (e ∷ r ++ list ∷ l)
turn-Clean h list e l r holds =
    Clean-same h (list ∷ l ++ e ∷ r) (e ∷ r ++ list ∷ l) (λ a. sym (turn-count list e l r a))
      holds.clean

head-cut : (r : List ℕ) (x : ℕ) (l : List ℕ) → (c : ℕ) × (ds : List ℕ) × (r ++ x ∷ l ≡ c ∷ ds)
head-cut [] x l = (x, l, refl)
head-cut (c ∷ r) x l = (c, r ++ x ∷ l, refl)

pub after_lem :
    (h : Heap) (list e n : ℕ) (l r : List ℕ)
    → Holds h list (l ++ e ∷ r)
    → is_new list n (l ++ e ∷ r) ≡ true
    → Kept (LinkedList.insert_after list e n h) list (l ++ e ∷ n ∷ r)
after_lem h list e n l r holds new =
    let same = turn-count list e l r in
    let fresh = new-Fresh h list n (l ++ e ∷ r) (e ∷ r ++ list ∷ l) holds new same in
    let (h', ran, ring, clean) =
      insert_after-IsRing list e n h (r ++ list ∷ l) (turn h list e l r holds) fresh in
    record {
      heap = h';
      ran = ran;
      holds = record {
        ring = IsRing-rotate h' e (n ∷ r) list l ring;
        clean =
            Clean-same h' (n ∷ e ∷ r ++ list ∷ l) (list ∷ l ++ e ∷ n ∷ r)
              (λ a. omega (arith, count-append a l (e ∷ n ∷ r), count-append a r (list ∷ l)))
              (clean (
                Clean-same h (list ∷ l ++ e ∷ r) (e ∷ r ++ list ∷ l) (λ a. sym (same a))
                  holds.clean));
      };
    }

pub before_lem :
    (h : Heap) (list e n : ℕ) (l r : List ℕ)
    → Holds h list (l ++ e ∷ r)
    → is_new list n (l ++ e ∷ r) ≡ true
    → Kept (LinkedList.insert_before list e n h) list (l ++ n ∷ e ∷ r)
before_lem h list e n l r holds new =
    let same = turn-count list e l r in
    let fresh = new-Fresh h list n (l ++ e ∷ r) (e ∷ r ++ list ∷ l) holds new same in
    let (h', ran, ring, clean) =
      insert_before-IsRing list e n h (r ++ list ∷ l) (turn h list e l r holds) fresh in
    let ring' : IsRing h' e (r ++ list ∷ (l ++ n ∷ [])) =
      subst (IsRing h' e) (append_assoc r (list ∷ l) (n ∷ [])) ring in
    record {
      heap = h';
      ran = ran;
      holds = record {
        ring =
            subst (IsRing h' list) (append_assoc l (n ∷ []) (e ∷ r))
              (IsRing-rotate h' e r list (l ++ n ∷ []) ring');
        clean =
            Clean-same h' (n ∷ e ∷ r ++ list ∷ l) (list ∷ l ++ n ∷ e ∷ r)
              (λ a. omega (arith, count-append a l (n ∷ e ∷ r), count-append a r (list ∷ l)))
              (clean (
                Clean-same h (list ∷ l ++ e ∷ r) (e ∷ r ++ list ∷ l) (λ a. sym (same a))
                  holds.clean));
      };
    }

pub replace_lem :
    (h : Heap) (list e n : ℕ) (l r : List ℕ)
    → Holds h list (l ++ e ∷ r)
    → is_new list n (l ++ e ∷ r) ≡ true
    → Kept (LinkedList.replace_elem list e n h) list (l ++ n ∷ r)
replace_lem h list e n l r holds new =
    let same = turn-count list e l r in
    let fresh = new-Fresh h list n (l ++ e ∷ r) (e ∷ r ++ list ∷ l) holds new same in
    let (c, ds, cut) = head-cut r list l in
    let (h', ran, ring, clean) =
      replace_elem-IsRing list e n c h ds (subst (IsRing h e) cut (turn h list e l r holds))
        (subst (λ t. Apart (n ∷ e ∷ t)) cut fresh.apart) in
    record {
      heap = h';
      ran = ran;
      holds = record {
        ring = IsRing-rotate h' n r list l (subst (IsRing h' n) (sym cut) ring);
        clean =
            Clean-same h' (n ∷ c ∷ ds) (list ∷ l ++ n ∷ r)
              (λ a. ap (λ t. count a (n ∷ t)) (sym cut) ∙ turn-count list n l r a)
              (clean (subst (λ t. Clean h (e ∷ t)) cut (turn-Clean h list e l r holds)));
      };
    }

pub remove_lem :
    (h : Heap) (list e : ℕ) (l r : List ℕ)
    → Holds h list (l ++ e ∷ r)
    → Kept (LinkedList.remove_elem list e h) list (l ++ r)
remove_lem h list e l [] holds =
    let (h', ran, ring, clean) = remove_elem-IsRing list e list h l (turn h list e l [] holds) in
    record {
      heap = h';
      ran = ran;
      holds = record {
        ring = rw (append-nil l) ring;
        clean = rw (append-nil l) (clean (turn-Clean h list e l [] holds));
      };
    }
remove_lem h list e l (c ∷ r) holds =
    let (h', ran, ring, clean) =
      remove_elem-IsRing list e c h (r ++ list ∷ l) (turn h list e l (c ∷ r) holds) in
    record {
      heap = h';
      ran = ran;
      holds = record {
        ring = IsRing-rotate h' c r list l ring;
        clean =
            Clean-same h' (c ∷ r ++ list ∷ l) (list ∷ l ++ c ∷ r) (turn-count list c l r)
              (clean (turn-Clean h list e l (c ∷ r) holds));
      };
    }

-- The three operations on a list's ends are the ones on its neighbours.
pub front_lem :
    (h : Heap) (list n : ℕ) (xs : List ℕ)
    → Holds h list xs
    → is_new list n xs ≡ true
    → Kept (LinkedList.add_front list n h) list (n ∷ xs)
unfolding LinkedList.add_front LinkedList.insert_after
front_lem h list n xs holds new =
    let fresh = new-Fresh h list n xs (list ∷ xs) holds new (λ a. refl) in
    let (h', ran, ring, clean) = insert_after-IsRing list list n h xs holds.ring fresh in
    record {
      heap = h';
      ran = ran;
      holds = record {
        ring = ring;
        clean =
            Clean-same h' (n ∷ list ∷ xs) (list ∷ n ∷ xs) (λ a. omega arith) (clean holds.clean);
      };
    }

pub back_lem :
    (h : Heap) (list n : ℕ) (xs : List ℕ)
    → Holds h list xs
    → is_new list n xs ≡ true
    → Kept (LinkedList.add_back list n h) list (xs ++ n ∷ [])
unfolding LinkedList.add_back LinkedList.insert_before
back_lem h list n xs holds new =
    let fresh = new-Fresh h list n xs (list ∷ xs) holds new (λ a. refl) in
    let (h', ran, ring, clean) = insert_before-IsRing list list n h xs holds.ring fresh in
    record {
      heap = h';
      ran = ran;
      holds = record {
        ring = ring;
        clean =
            Clean-same h' (n ∷ list ∷ xs) (list ∷ xs ++ n ∷ [])
              (λ a. omega (arith, count-append a xs (n ∷ []))) (clean holds.clean);
      };
    }
