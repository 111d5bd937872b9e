-- ===== src/LinkedList.antt =====
-- misc/include/misc/list.h: the circular lists whose links lie in their elements.
pub mod Rings
pub mod Insert
pub mod Remove
pub mod Sequence
pub mod Steps
pub mod Refinement
mod Tests
use mathlib.Core.Bool.{not}
use multiprocessor.Common.{Bool, ◌==◌, ℕ, if◌then◌else◌, ◌&&◌, Run, fault, ◌>>=◌, ok}

-- The links of all elements by their address; 0 is `NULL`.
pub record Heap : Type 0 where
  pub next : ℕ → ℕ
  pub prev : ℕ → ℕ

abbrev pub update : (ℕ → ℕ) → ℕ → ℕ → ℕ → ℕ
update f a v x = if x == a then v else f x

-- Reads and writes through a pointer.
abbrev pub load_next : Heap → ℕ → Run ℕ
load_next h a = if a == 0 then fault else ok (h.next a)

abbrev pub load_prev : Heap → ℕ → Run ℕ
load_prev h a = if a == 0 then fault else ok (h.prev a)

abbrev pub store_next : ℕ → ℕ → Heap → Run Heap
store_next a v h = if a == 0 then fault else ok (record h { next = update h.next a v })

abbrev pub store_prev : ℕ → ℕ → Heap → Run Heap
store_prev a v h = if a == 0 then fault else ok (record h { prev = update h.prev a v })

-- `__builtin_trap` where the new element has a link.
abbrev pub check_unlinked : ℕ → Heap → Run Heap
check_unlinked a h =
    if a == 0 then fault else if h.next a == 0 && h.prev a == 0 then ok h else fault

unfoldable pub first_elem : ℕ → Heap → Run ℕ
first_elem list h = load_next h list

unfoldable pub last_elem : ℕ → Heap → Run ℕ
last_elem list h = load_prev h list

unfoldable pub is_empty : ℕ → Heap → Run Bool
is_empty list h = load_next h list >>= λ a. ok (list == a)

abbrev pub is_valid_elem : (list elem : ℕ) → Bool
is_valid_elem list elem = not (elem == list)

unfoldable pub init : ℕ → Heap → Run Heap
init list h = store_prev list list h >>= store_next list list

unfoldable pub add_front : (list new : ℕ) → Heap → Run Heap
add_front list new h = check_unlinked new h >>= λ h. load_next h list >>= λ a.
    store_next new a h >>= λ h. store_prev new list h >>= λ h.
    load_next h list >>= λ a. store_prev a new h >>= λ h. store_next list new h

unfoldable pub add_back : (list new : ℕ) → Heap → Run Heap
add_back list new h = check_unlinked new h >>= λ h. store_next new list h >>= λ h.
    load_prev h list >>= λ a. store_prev new a h >>= λ h.
    load_prev h list >>= λ a. store_next a new h >>= λ h. store_prev list new h

unfoldable pub insert_after : (list elem new : ℕ) → Heap → Run Heap
insert_after list elem new h = check_unlinked new h >>= λ h. load_next h elem >>= λ a.
    store_next new a h >>= λ h. store_prev new elem h >>= λ h.
    load_next h elem >>= λ a. store_prev a new h >>= λ h. store_next elem new h

unfoldable pub insert_before : (list elem new : ℕ) → Heap → Run Heap
insert_before list elem new h = check_unlinked new h >>= λ h. store_next new elem h >>= λ h.
    load_prev h elem >>= λ a. store_prev new a h >>= λ h.
    load_prev h elem >>= λ a. store_next a new h >>= λ h. store_prev elem new h

unfoldable pub replace_elem : (list elem new : ℕ) → Heap → Run Heap
replace_elem list elem new h = load_next h elem >>= λ a. store_next new a h >>= λ h.
    load_prev h elem >>= λ b. store_prev new b h >>= λ h. load_next h elem >>= λ a.
    store_prev a new h >>= λ h. load_prev h elem >>= λ b.
    store_next b new h >>= λ h. store_prev elem 0 h >>= λ h. store_next elem 0 h

unfoldable pub remove_elem : (list elem : ℕ) → Heap → Run Heap
remove_elem list elem h = load_prev h elem >>= λ b. load_next h elem >>= λ a.
    store_next b a h >>= λ h. load_next h elem >>= λ a. load_prev h elem >>= λ b.
    store_prev a b h >>= λ h. store_prev elem 0 h >>= λ h. store_next elem 0 h
