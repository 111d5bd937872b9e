-- ===== src/LinkedList/Tests.antt =====
-- A run of every operation on a list.
use multiprocessor.Common.{◌∷◌, ◌≡◌, ◌>>=◌, ok, refl, [], List}
use multiprocessor.LinkedList.{Heap, init}
use multiprocessor.LinkedList.Sequence.{Change, Holds}
use multiprocessor.LinkedList.Sequence
use multiprocessor.LinkedList.Refinement.{perform_all, perform_all-refines}

abbrev no_links : Heap
no_links = record { next = λ x. 0; prev = λ x. 0 }

-- The list at 1: two elements in front, one behind, one beside each, one replaced, one removed.
abbrev all_operations : List Change
all_operations =
    Sequence.front 2
    ∷ Sequence.front 3
    ∷ Sequence.back 4
    ∷ Sequence.after 3 5
    ∷ Sequence.before 4 6
    ∷ Sequence.replace 2 7
    ∷ Sequence.remove 3
    ∷ []

perform_all-refines_example :
    (h' : Heap) × ((init 1 no_links >>= perform_all 1 all_operations) ≡ ok h')
    × Holds h' 1 (5 ∷ 7 ∷ 6 ∷ 4 ∷ [])
perform_all-refines_example =
    perform_all-refines no_links 1 all_operations (5 ∷ 7 ∷ 6 ∷ 4 ∷ []) refl (λ x e. (refl, refl))
      refl
