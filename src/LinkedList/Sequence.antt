-- ===== src/LinkedList/Sequence.antt =====
-- The lists of misc/include/misc/list.h as sequences: what their operations promise, and that they
-- keep it.
use mathlib.Core.Option.{none-ne-some}
use multiprocessor.LinkedList.Rings.{Clean, IsRing}
use mathlib.Core.Bool.{not}
use multiprocessor.Common.{
  ok, List, Option, ◌≡◌, count, if◌then◌else◌, Run, ◌++◌, none, [], ℕ, ◌∷◌, Bool, ◌==◌, ◌&&◌, some,
}
use multiprocessor.LinkedList
use mathlib.Core.Option
use multiprocessor.LinkedList.{Heap, init, is_empty}

-- One operation on a list.
pub data Change : Type 0 where
  front : (new : ℕ) → Change
  back : (new : ℕ) → Change
  after : (elem new : ℕ) → Change
  before : (elem new : ℕ) → Change
  replace : (elem new : ℕ) → Change
  remove : (elem : ℕ) → Change

abbrev pub perform : (list : ℕ) → Change → Heap → Run Heap
perform list (front n) h = LinkedList.add_front list n h
perform list (back n) h = LinkedList.add_back list n h
perform list (after e n) h = LinkedList.insert_after list e n h
perform list (before e n) h = LinkedList.insert_before list e n h
perform list (replace e n) h = LinkedList.replace_elem list e n h
perform list (remove e) h = LinkedList.remove_elem list e h

-- What becomes of a sequence: something is put for the tail that an element begins.
abbrev pub tail_at : ℕ → (List ℕ → List ℕ) → List ℕ → Option (List ℕ)
tail_at e f [] = none
tail_at e f (x ∷ xs) =
    let rest = tail_at e f xs in if x == e then some (f xs) else Option.map (λ ys. x ∷ ys) rest

-- An element may be added that is not `NULL`, not the list itself and not in the list.
abbrev pub is_new : (list n : ℕ) → List ℕ → Bool
is_new list n xs = not (n == 0) && count n (list ∷ xs) == 0

abbrev pub apply : (list : ℕ) → Change → List ℕ → Option (List ℕ)
apply list (front n) xs = if is_new list n xs then some (n ∷ xs) else none
apply list (back n) xs = if is_new list n xs then some (xs ++ n ∷ []) else none
apply list (after e n) xs = if is_new list n xs then tail_at e (λ tail. e ∷ n ∷ tail) xs else none
apply list (before e n) xs = if is_new list n xs then tail_at e (λ tail. n ∷ e ∷ tail) xs else none
apply list (replace e n) xs = if is_new list n xs then tail_at e (λ tail. n ∷ tail) xs else none
apply list (remove e) xs = tail_at e (λ tail. tail) xs

-- The links of a list hold a sequence, and nothing else has links.
pub record Holds (h : Heap) (list : ℕ) (xs : List ℕ) : Type 0 where
  pub ring : IsRing h list xs
  pub clean : Clean h (list ∷ xs)

-- What an operation leaves holds the sequence that it should.
pub record Kept (r : Run Heap) (list : ℕ) (ys : List ℕ) : Type 0 where
  pub heap : Heap
  pub ran : r ≡ ok heap
  pub holds : Holds heap list ys
